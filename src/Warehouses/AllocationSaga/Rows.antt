-- ===== src/Warehouses/AllocationSaga/Rows.antt =====
-- Facts about the rows of a saga under `setRowState`.
use cj_beer_company.Prelude.{
  String, ◌≡◌, refl, Bool, true, false, ◌||◌, List, [], ◌∷◌, map, All, arith, eq_iff, eq_refl, some,
  Bool-cases, inl, inr,
}
use cj_beer_company.Warehouses.Events.{SagaRowData}
use cj_beer_company.Warehouses.AllocationSaga.{
  RowState, pending, allocated, failed, compensated, same_state, SagaRow, row_in_state, all_rows_in,
  set_row_state, rows_in, first_pending, is_nil,
}

-- Some row is in the state.
unfoldable pub has : RowState → List SagaRow → Bool
has state [] = false
has state (r ∷ rs) = same_state r.state state || has state rs

-- A row that allocation has not given up.
abbrev pub IsOpen : SagaRow → Type 0
IsOpen r = (same_state r.state pending || same_state r.state allocated) ≡ true

same_state_refl : (state : RowState) → same_state state state ≡ true
same_state_refl pending = refl
same_state_refl allocated = refl
same_state_refl failed = refl
same_state_refl compensated = refl

module _ (b : String) where
  pub has_of-row_in_state :
      (state : RowState) (rs : List SagaRow) → row_in_state b state rs ≡ true → has state rs ≡ true
  unfolding row_in_state has
  has_of-row_in_state state [] h = h
  has_of-row_in_state state (r ∷ rs) h = ground (arith, has_of-row_in_state state rs)

  -- A row of the beer is there, in whatever state: the new state is then there too.
  pub has-set_row_state :
      (old new : RowState) (rs : List SagaRow)
      → row_in_state b old rs ≡ true
      → has new (set_row_state b new rs) ≡ true
  unfolding row_in_state has set_row_state
  has-set_row_state old new [] h = cc
  has-set_row_state old new (r ∷ rs) h =
      ground (arith, has-set_row_state old new rs, same_state_refl new)

  pub set_row_state-IsOpen :
      (rs : List SagaRow) → All IsOpen rs → All IsOpen (set_row_state b allocated rs)
  unfolding set_row_state
  set_row_state-IsOpen [] h = tt
  set_row_state-IsOpen (r ∷ rs) h = ground (arith, set_row_state-IsOpen rs h.1)

  -- No row of the beer is left in another state.
  pub row_in_state-set_ne :
      (new other : RowState) (rs : List SagaRow)
      → same_state new other ≡ false
      → row_in_state b other (set_row_state b new rs) ≡ false
  unfolding row_in_state set_row_state
  row_in_state-set_ne new other [] h = refl
  row_in_state-set_ne new other (r ∷ rs) h =
      ground (arith, row_in_state-set_ne new other rs h, eq_iff r.row.beer_id b)

-- Open rows that are not all allocated have a pending one.
pub pending_of-not-All :
    (rs : List SagaRow) → All IsOpen rs → all_rows_in allocated rs ≡ false → has pending rs ≡ true
unfolding all_rows_in has
pending_of-not-All [] h n = cc
pending_of-not-All (r ∷ rs) h n = ground (arith, pending_of-not-All rs h.1)

pub first_pending_of-has :
    (rs : List SagaRow)
    → has pending rs ≡ true
    → (d : SagaRowData) × (first_pending rs ≡ some d) × (row_in_state d.beer_id pending rs ≡ true)
unfolding has first_pending row_in_state
first_pending_of-has [] h = cc
first_pending_of-has (r ∷ rs) h = elim (Bool-cases (same_state r.state pending)) [
  | inl here ↦ (r.row, rw here, rw (here, eq_refl r.row.beer_id))
  | inr later ↦
      let (d, first, there) = first_pending_of-has rs (rw later at h) in
      (d, rw later first, ground (arith, there))
]

pub is_nil-rows_in :
    (state : RowState) (rs : List SagaRow)
    → (is_nil (rows_in state rs) ≡ true)
    → has state rs ≡ false
unfolding rows_in has
is_nil-rows_in state [] h = refl
is_nil-rows_in state (r ∷ rs) h = ground (arith, is_nil-rows_in state rs)

pub not_nil-rows_in :
    (state : RowState) (rs : List SagaRow)
    → (is_nil (rows_in state rs) ≡ false)
    → has state rs ≡ true
unfolding rows_in has
not_nil-rows_in state [] h = cc
not_nil-rows_in state (r ∷ rs) h = ground (arith, not_nil-rows_in state rs)

pub IsOpen-start :
    (rows : List SagaRowData) → All IsOpen (map (λ r. record { row = r; state = pending }) rows)
IsOpen-start [] = tt
IsOpen-start (d ∷ ds) = (refl, IsOpen-start ds)
