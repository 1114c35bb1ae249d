-- ===== src/Dict.antt =====
-- Go's `map[string]V` as an association list. The program sorts whatever it collects from a map,
-- so the order of the entries is not observable.
use cj_beer_company.Prelude.{
  String, ◌≡◌, refl, Option, none, some, List, [], ◌∷◌, map, arith, str_eq, eq_iff, eq_refl,
  if◌then◌else◌, Bool-cases, inl, inr, ap,
}

abbrev pub Dict : Type 0 → Type 0
Dict V = List (String × V)

abbrev pub keys : {V : Type 0} → Dict V → List String
keys = map (λ p. p.0)

module _ {V : Type 0} where
  -- v, ok := m[k]
  unfoldable pub lookup : String → Dict V → Option V
  lookup k [] = none
  lookup k ((j, v) ∷ m) = if str_eq j k then some v else lookup k m

  -- m[k] = v
  unfoldable pub insert : String → V → Dict V → Dict V
  insert k v [] = (k, v) ∷ []
  insert k v ((j, w) ∷ m) = if str_eq j k then (j, v) ∷ m else (j, w) ∷ insert k v m

  pub lookup-insert :
      (k j : String) (v : V) (m : Dict V)
      → lookup j (insert k v m) ≡ (if str_eq k j then some v else lookup j m)
  unfolding lookup insert
  lookup-insert k j v [] = refl
  lookup-insert k j v ((i, w) ∷ m) =
      ground (arith, lookup-insert k j v m, eq_iff i k, eq_iff k j, eq_iff i j)

  pub lookup-insert_self : (k : String) (v : V) (m : Dict V) → lookup k (insert k v m) ≡ some v
  lookup-insert_self k v m = simp (lookup-insert, eq_refl)

  pub insert-insert : (k : String) (v w : V) (m : Dict V) → insert k v (insert k w m) ≡ insert k v m
  unfolding insert
  insert-insert k v w [] = rw (eq_refl k) refl
  insert-insert k v w ((i, u) ∷ m) = elim (Bool-cases (str_eq i k)) [
    | inl same ↦ rw (same, same) refl
    | inr other ↦ rw (other, other) (ap (λ t. (i, u) ∷ t) (insert-insert k v w m))
  ]
