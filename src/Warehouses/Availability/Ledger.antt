-- ===== src/Warehouses/Availability/Ledger.antt =====
-- The books of a beer: what was produced is on hand or held, over any history of movements.
use cj_beer_company.Prelude.{
  ℕ, ◌+◌, ◌-◌, ◌≤◌, String, ◌≡◌, ap, true, false, List, [], ◌∷◌, arith, str_eq, eq_iff, Bool-cases,
  inl, inr, subst,
}
use cj_beer_company.Prelude.Int.{pos, pos_part, neg_part, int_laws}
use cj_beer_company.CustomTypes.{Quantity, new_quantity}
use cj_beer_company.Warehouses.Availability.{Availability}
use cj_beer_company.Warehouses.Availability.Held.{
  contains, hold, release, contains-release, release-absent,
}
use cj_beer_company.Warehouses.Availability.Stock.{
  Allocation, Compensation, repeated, refused, moved, returned,
}

abbrev IsDistinct : List String → Type 0
IsDistinct [] = Unit
IsDistinct (o ∷ os) = (contains o os ≡ false) × IsDistinct os

release-IsDistinct : (k : String) (os : List String) → IsDistinct os → IsDistinct (release k os)
unfolding release
release-IsDistinct k [] h = tt
release-IsDistinct k (o ∷ os) h = elim (Bool-cases (str_eq o k)) [
  | inl same ↦ rw same (release-IsDistinct k os h.1)
  | inr other ↦
      rw other (rw (contains-release k o os, h.0) (ground arith), release-IsDistinct k os h.1)
]

-- `amount` says how much each order asks for.
module _ (amount : String → ℕ) where
  abbrev pub held_total : List String → ℕ
  held_total [] = 0
  held_total (o ∷ os) = amount o + held_total os

  held_total-release :
      (k : String) (os : List String)
      → IsDistinct os
      → contains k os ≡ true
      → held_total (release k os) + amount k ≡ held_total os
  unfolding release contains
  held_total-release k [] h there = cc
  held_total-release k (o ∷ os) h there = elim (Bool-cases (str_eq o k)) [
    | inl same ↦
        let e : o ≡ k = ground (arith, eq_iff o k) in
        let gone : contains k os ≡ false = subst (λ j. contains j os ≡ false) e h.0 in
        let left : held_total (release k os) ≡ held_total os =
          ap held_total (release-absent k os gone) in
        let same_amount : amount o ≡ amount k = ap amount e in
        rw same (omega (arith, left, same_amount))
    | inr other ↦
        let rest = held_total-release k os h.1 (rw other at there) in rw other (omega (arith, rest))
  ]

  -- What was produced in all is on hand, or held by an order in the amount that it asks for.
  pub record IsBalanced (total : ℕ) (s : Availability) : Type 0 where
    pub on_hand : ℕ
    pub counted : s.quantity.value ≡ pos on_hand
    pub balanced : on_hand + held_total s.held ≡ total
    pub distinct : IsDistinct s.held

  abbrev pub asked : String → String → Quantity
  asked unit o = new_quantity (pos (amount o)) unit

  module _ (total : ℕ) (unit o : String) {s t : Availability} (h : IsBalanced total s) where
    pub Allocation-IsBalanced : Allocation (asked unit o) o s t → IsBalanced total t
    unfolding hold
    Allocation-IsBalanced (repeated _ e) = rw e h
    Allocation-IsBalanced (refused _ _ e) = rw e h
    Allocation-IsBalanced (moved free fits e) =
        let enough : amount o ≤ h.on_hand =
          omega (arith, fits, ap pos_part h.counted, ap neg_part h.counted) in
        rw (e, free)
          (record {
            on_hand = h.on_hand - amount o;
            counted = rw h.counted (omega (int_laws, enough));
            balanced = omega (arith, h.balanced, enough);
            distinct = (free, h.distinct);
          })

    pub Compensation-IsBalanced : Compensation (asked unit o) o s t → IsBalanced total t
    Compensation-IsBalanced (repeated _ e) = rw e h
    Compensation-IsBalanced (returned held e) = rw e (record {
      on_hand = h.on_hand + amount o;
      counted = rw h.counted (omega int_laws);
      balanced = omega (arith, h.balanced, held_total-release o s.held h.distinct held);
      distinct = release-IsDistinct o s.held h.distinct;
    })
