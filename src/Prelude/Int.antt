-- ===== src/Prelude/Int.antt =====
-- Signed integers over the native numbers, and Go's 64-bit `int` with its wrap-around.
use cj_beer_company.Prelude.Tests.{ltb, leb, if◌then◌else◌}
use Prim.Native.Nat.{ℕ, suc, ◌+◌, ◌-◌, ◌%◌, ◌^◌, ◌≤◌}
use mathlib.Core.Path.{◌≡◌, ◌∙◌}
use mathlib.Core.Bool.{Bool, true, false}
use native.Mathlib.Omega.{arith}

-- `negsuc n` is -(n + 1).
pub data ℤ : Type 0 where
  pos : ℕ → ℤ
  negsuc : ℕ → ℤ

abbrev pub pos_part : ℤ → ℕ
pos_part (pos n) = n
pos_part (negsuc n) = 0

abbrev pub neg_part : ℤ → ℕ
neg_part (pos n) = 0
neg_part (negsuc n) = suc n

abbrev pub sub_ℕ : ℕ → ℕ → ℤ
sub_ℕ a b = if leb b a then pos (a - b) else negsuc (b - a - 1)

infixl 65 ◌+ℤ◌ ◌-ℤ◌
infix 50 ◌≤ℤ◌
unfoldable pub ◌+ℤ◌ : ℤ → ℤ → ℤ
a +ℤ b = sub_ℕ (pos_part a + pos_part b) (neg_part a + neg_part b)

unfoldable pub ◌-ℤ◌ : ℤ → ℤ → ℤ
a -ℤ b = sub_ℕ (pos_part a + neg_part b) (neg_part a + pos_part b)

abbrev pub ◌≤ℤ◌ : ℤ → ℤ → Type 0
a ≤ℤ b = pos_part a + neg_part b ≤ pos_part b + neg_part a

abbrev pub ltb_ℤ : ℤ → ℤ → Bool
ltb_ℤ a b = ltb (pos_part a + neg_part b) (pos_part b + neg_part a)

abbrev pub leb_ℤ : ℤ → ℤ → Bool
leb_ℤ a b = leb (pos_part a + neg_part b) (pos_part b + neg_part a)

pub +ℤ_parts :
    (a b : ℤ)
    → pos_part (a +ℤ b) + neg_part a + neg_part b ≡ neg_part (a +ℤ b) + pos_part a + pos_part b
unfolding ◌+ℤ◌
+ℤ_parts a b = ground arith

pub -ℤ_parts :
    (a b : ℤ)
    → pos_part (a -ℤ b) + neg_part a + pos_part b ≡ neg_part (a -ℤ b) + pos_part a + neg_part b
unfolding ◌-ℤ◌
-ℤ_parts a b = ground arith

pub eq_of_parts : (a b : ℤ) → pos_part a + neg_part b ≡ pos_part b + neg_part a → a ≡ b
eq_of_parts a b h = ground arith

pub ruleset int_laws = (arith, +ℤ_parts, -ℤ_parts, eq_of_parts)

-- The values of a 64-bit `int`.
abbrev pub InRange : ℤ → Type 0
InRange a = (pos_part a ≤ 2 ^ 63 - 1) × (neg_part a ≤ 2 ^ 63)

-- The bit pattern of an integer, and the integer that a bit pattern stands for.
to_word : ℤ → ℕ
to_word (pos n) = n % 2 ^ 64
to_word (negsuc n) = 2 ^ 64 - 1 - n % 2 ^ 64

signed64 : ℕ → ℤ
signed64 w = if ltb w (2 ^ 63) then pos w else negsuc (2 ^ 64 - 1 - w)

unfoldable pub wrap64 : ℤ → ℤ
unfolding to_word signed64
wrap64 a = signed64 (to_word a)

-- Go's `a + b` and `a - b` on `int`.
unfoldable pub add64 : ℤ → ℤ → ℤ
unfolding wrap64 ◌+ℤ◌
add64 a b = wrap64 (a +ℤ b)

unfoldable pub sub64 : ℤ → ℤ → ℤ
unfolding wrap64 ◌-ℤ◌
sub64 a b = wrap64 (a -ℤ b)

pub wrap64_of-InRange : (a : ℤ) → InRange a → wrap64 a ≡ a
unfolding wrap64
wrap64_of-InRange (pos n) h = ground arith
wrap64_of-InRange (negsuc n) h = ground arith

pub wrap64-InRange : (a : ℤ) → InRange (wrap64 a)
unfolding wrap64
wrap64-InRange (pos n) = ground arith
wrap64-InRange (negsuc n) = ground arith

-- `wrap64` is shut in these two, so that only the range lemma is used.
pub add64_exact : (a b : ℤ) → InRange (a +ℤ b) → add64 a b ≡ a +ℤ b
unfolding add64
add64_exact a b h = wrap64_of-InRange (a +ℤ b) h

pub sub64_exact : (a b : ℤ) → InRange (a -ℤ b) → sub64 a b ≡ a -ℤ b
unfolding sub64
sub64_exact a b h = wrap64_of-InRange (a -ℤ b) h

-- Taking a positive part of an amount, and putting an amount back.
pub taken-InRange :
    (a b : ℤ) → pos 1 ≤ℤ b → b ≤ℤ a → InRange a → InRange (a -ℤ b) × (pos 0 ≤ℤ a -ℤ b)
unfolding ◌-ℤ◌
taken-InRange a b p h r = ground arith

pub sub64_taken : (a b : ℤ) → pos 1 ≤ℤ b → b ≤ℤ a → InRange a → sub64 a b ≡ a -ℤ b
sub64_taken a b p h r = sub64_exact a b (taken-InRange a b p h r).0

-- What was taken can be put back, whatever the wrap-around.
pub add64-sub64 : (a b : ℤ) → pos 1 ≤ℤ b → b ≤ℤ a → InRange a → add64 (sub64 a b) b ≡ a
add64-sub64 a b p h r =
    let back : a -ℤ b +ℤ b ≡ a = omega int_laws in
    rw (sub64_taken a b p h r) (add64_exact (a -ℤ b) b (rw back r) ∙ back)

pub leb_ℤ_of_pos : (a : ℤ) → pos 1 ≤ℤ a → leb_ℤ a (pos 0) ≡ false
leb_ℤ_of_pos a h = ground arith

pub le_of_not_ltb_ℤ : (a b : ℤ) → ltb_ℤ a b ≡ false → b ≤ℤ a
le_of_not_ltb_ℤ a b h = ground arith

pub not_le_of_ltb_ℤ : (a b : ℤ) → ltb_ℤ a b ≡ true → ¬ (b ≤ℤ a)
not_le_of_ltb_ℤ a b h k = ground arith
