-- ===== src/Prelude/Number.antt =====
-- What the program uses of Go's package strconv: Atoi.
use cj_beer_company.Prelude.Tests.{ltb, leb, ◌==◌, if◌then◌else◌}
use cj_beer_company.Prelude.Int.{ℤ, pos, negsuc, sub_ℕ}
use Prim.Native.Nat.{ℕ, ◌+◌, ◌-◌, ◌*◌, ◌^◌}
use Prim.Native.Char.{code}
use Prim.Native.String.{String}
use mathlib.Core.Bool.{Bool, true, false, ◌&&◌}
use mathlib.Core.Option.{Option, none, some}

-- A number, or the ErrRange with the nearest int, or the ErrSyntax.
pub data Parsed : Type 0 where
  parsed : ℤ → Parsed
  out_of_range : ℤ → Parsed
  bad_syntax : Parsed

-- The digits after those that spell `n`.
digits_from : ℕ → String → Option ℕ
digits_from n String.[] = some n
digits_from n (String.◌∷◌ c s) =
    let rest = digits_from (10 * n + (code c - 0x30)) s in
    if leb 0x30 (code c) && leb (code c) 0x39 then rest else none

digits : String → Option ℕ
unfolding digits_from
digits String.[] = none
digits (String.◌∷◌ c s) = digits_from 0 (String.◌∷◌ c s)

with_sign : Bool → Option ℕ → Parsed
with_sign negative none = bad_syntax
with_sign false (some n) =
    if ltb n (2 ^ 63) then parsed (pos n) else out_of_range (pos 9_223_372_036_854_775_807)
with_sign true (some n) =
    if leb n (2 ^ 63) then parsed (sub_ℕ 0 n) else out_of_range (negsuc 9_223_372_036_854_775_807)

unfoldable pub atoi : String → Parsed
unfolding digits with_sign
atoi String.[] = bad_syntax
atoi (String.◌∷◌ c s) =
    if code c == 0x2d
    then with_sign true (digits s)
    else if code c == 0x2b
    then with_sign false (digits s)
    else with_sign false (digits (String.◌∷◌ c s))

-- The int that Atoi returns beside its error.
abbrev pub number_of : Parsed → ℤ
number_of (parsed n) = n
number_of (out_of_range n) = n
number_of bad_syntax = pos 0
