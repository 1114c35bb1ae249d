-- ===== src/Warehouses/Availability/Held.antt =====
-- Go's `map[string]struct{}` as a list without repetition.
use cj_beer_company.Prelude.{
  String, ◌≡◌, refl, Bool, true, false, ◌||◌, ◌&&◌, not, List, [], ◌∷◌, arith, str_eq, eq_iff,
  eq_refl, if◌then◌else◌,
}

-- _, ok := m[k]
unfoldable pub contains : String → List String → Bool
contains k [] = false
contains k (j ∷ js) = str_eq j k || contains k js

-- m[k] = struct{}{}
unfoldable pub hold : String → List String → List String
unfolding contains
hold k js = if contains k js then js else k ∷ js

-- delete(m, k)
unfoldable pub release : String → List String → List String
release k [] = []
release k (j ∷ js) = let rest = release k js in if str_eq j k then rest else j ∷ rest

pub contains-hold :
    (k j : String) (js : List String) → contains j (hold k js) ≡ (str_eq k j || contains j js)
unfolding contains hold
contains-hold k j js = ground (arith, eq_iff k j)

pub contains-release :
    (k j : String) (js : List String)
    → contains j (release k js) ≡ (not (str_eq k j) && contains j js)
unfolding contains release
contains-release k j [] = ground arith
contains-release k j (i ∷ js) =
    ground (arith, contains-release k j js, eq_iff i k, eq_iff i j, eq_iff k j)

pub hold-present : (k : String) (js : List String) → contains k js ≡ true → hold k js ≡ js
unfolding hold
hold-present k js h = rw h

pub release-absent : (k : String) (js : List String) → contains k js ≡ false → release k js ≡ js
unfolding contains release
release-absent k [] h = refl
release-absent k (j ∷ js) h = ground (arith, release-absent k js, eq_iff j k)

-- Giving back what was just taken leaves the set as it was.
pub release-hold :
    (k : String) (js : List String) → contains k js ≡ false → release k (hold k js) ≡ js
unfolding hold release
release-hold k js h = rw h (rw (eq_refl k) (release-absent k js h))
