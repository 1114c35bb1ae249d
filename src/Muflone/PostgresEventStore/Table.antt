-- ===== src/Muflone/PostgresEventStore/Table.antt =====
-- The rows of one stream in the table events: their highest version, and their order by version.
use cj_beer_company.Prelude.{
  ℕ, ◌≤◌, ◌<◌, String, ◌≡◌, refl, true, false, List, [], ◌∷◌, ◌++◌, arith, str_eq, leb,
  if◌then◌else◌, Bool-cases, inl, inr,
}
use cj_beer_company.Muflone.PostgresEventStore.{EventRow}

-- coalesce(max(version), 0) over the rows of the stream
abbrev pub larger : ℕ → ℕ → ℕ
larger a b = if leb a b then b else a

unfoldable pub max_version : String → List EventRow → ℕ
max_version k [] = 0
max_version k (r ∷ rs) =
    let rest = max_version k rs in if str_eq r.stream_id k then larger r.version rest else rest

insert_row : EventRow → List EventRow → List EventRow
insert_row r [] = r ∷ []
insert_row r (s ∷ ss) = if leb r.version s.version then r ∷ s ∷ ss else s ∷ insert_row r ss

-- WHERE stream_id = k ORDER BY version
unfoldable pub in_order : String → List EventRow → List EventRow
unfolding insert_row
in_order k [] = []
in_order k (r ∷ rs) =
    let rest = in_order k rs in if str_eq r.stream_id k then insert_row r rest else rest

insert_row-snoc :
    (s r : EventRow) (rs : List EventRow)
    → s.version ≤ r.version
    → insert_row s (rs ++ r ∷ []) ≡ insert_row s rs ++ r ∷ []
unfolding insert_row
insert_row-snoc s r [] h = ground arith
insert_row-snoc s r (t ∷ ts) h = ground (arith, insert_row-snoc s r ts h)

module _ (k : String) (r : EventRow) where
  pub in_order-snoc :
      (rs : List EventRow)
      → str_eq r.stream_id k ≡ true
      → max_version k rs < r.version
      → in_order k (rs ++ r ∷ []) ≡ in_order k rs ++ r ∷ []
  unfolding in_order max_version
  in_order-snoc [] same h = rw same refl
  in_order-snoc (s ∷ ss) same h = elim (Bool-cases (str_eq s.stream_id k)) [
    | inl mine ↦
        let below : larger s.version (max_version k ss) < r.version = rw mine at h in
        rw (mine, in_order-snoc ss same (ground arith))
          (insert_row-snoc s r (in_order k ss) (ground arith))
    | inr other ↦ rw other (in_order-snoc ss same (rw other at h))
  ]

  pub in_order-other :
      (rs : List EventRow)
      → str_eq r.stream_id k ≡ false
      → in_order k (rs ++ r ∷ []) ≡ in_order k rs
  unfolding in_order
  in_order-other [] other = rw other refl
  in_order-other (s ∷ ss) other = rw (in_order-other ss other) refl

  pub max_version-snoc :
      (rs : List EventRow)
      → max_version k (rs ++ r ∷ [])
        ≡ (if str_eq r.stream_id k then larger (max_version k rs) r.version else max_version k rs)
  unfolding max_version
  max_version-snoc [] = ground arith
  max_version-snoc (s ∷ ss) = ground (arith, max_version-snoc ss)
