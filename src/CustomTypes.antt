-- ===== src/CustomTypes.antt =====
-- internal/shared/customtypes/customtypes.go, and the identifiers of github.com/google/uuid.
use cj_beer_company.Prelude.{ℕ, String, ◌≡◌, Option, some, if◌then◌else◌}
use cj_beer_company.Prelude.Int.{ℤ, pos, leb_ℤ, ltb_ℤ}

-- `uuid.UUID` is an array of 16 bytes; the number that the bytes spell. `uuid.Nil` is 0.
abbrev pub Uuid : Type 0
Uuid = ℕ

-- What the program uses of the uuid package: the canonical text of an id parses to that id.
pub record UuidCodec : Type 0 where
  pub to_string : Uuid → String
  pub parse : String → Option Uuid
  pub parse-to_string : (u : Uuid) → parse (to_string u) ≡ some u

-- A `time.Time` as nanoseconds since 1 January of year 1, whose zero value is `IsZero`.
abbrev pub Time : Type 0
Time = ℕ

pub record Quantity : Type 0 where
  pub value : ℤ  -- int
  pub unit_of_measure : String

abbrev pub new_quantity : ℤ → String → Quantity
new_quantity v u = record { value = v; unit_of_measure = u }

-- The value is the bit pattern of a float64: the program only carries it.
pub record Price : Type 0 where
  pub value : ℕ
  pub currency : String

pub record Page : Type 0 where
  pub limit : ℤ
  pub offset : ℤ

abbrev pub default_page_limit : ℤ
default_page_limit = pos 50

abbrev pub max_page_limit : ℤ
max_page_limit = pos 200

-- The three `if`s of NewPage run in order, each on the value that the one before left.
unfoldable pub new_page : ℤ → ℤ → Page
new_page limit offset =
    let positive = if leb_ℤ limit (pos 0) then default_page_limit else limit in
    let capped = if ltb_ℤ max_page_limit positive then max_page_limit else positive in
    let from = if ltb_ℤ offset (pos 0) then pos 0 else offset in
    record { limit = capped; offset = from }
