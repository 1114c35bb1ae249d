-- ===== src/Muflone/DeadLetters/Redrive.antt =====
-- A redrive sends every parked letter again, and keeps all of them.
use cj_beer_company.Prelude.{
  ℕ, ◌≡◌, ◌≢◌, refl, sym, ap, ◌∙◌, ◌⊎◌, inl, inr, List, [], ◌∷◌, ◌++◌, map, foldl, length, take,
  drop, arith,
}
use cj_beer_company.Outcome.{ok, World}
use cj_beer_company.Muflone.ServiceBus.{ServiceBus}
use cj_beer_company.Muflone.Forwarding.{PendingMessage}
use cj_beer_company.Muflone.Forwarding.Whole.{
  IsPublisher, IsPendingDatabase, message_of, forward-whole,
}
use cj_beer_company.Muflone.Outbox.{without}
use cj_beer_company.Muflone.Outbox.Delivery.{IsAscending, without-take}
use cj_beer_company.Muflone.DeadLetters.{
  DeadLetter, DeadLetterDatabase, parked, stamp, redrive_dead_letters,
}

parked-stamp : (i : ℕ) (t : List DeadLetter) → parked (stamp i t) ≡ without i (parked t)
unfolding parked stamp without
parked-stamp i [] = refl
parked-stamp i (r ∷ rs) = ground (arith, parked-stamp i rs)

letters-stamp :
    (i : ℕ) (t : List DeadLetter) → map (λ r. r.message) (stamp i t) ≡ map (λ r. r.message) t
unfolding stamp
letters-stamp i [] = refl
letters-stamp i (r ∷ rs) = ground (arith, letters-stamp i rs)

abbrev stamp_all : List PendingMessage → List DeadLetter → List DeadLetter
stamp_all rows t = foldl (λ t row. stamp row.id t) t rows

parked-stamp_all :
    (rows : List PendingMessage) (t : List DeadLetter)
    → parked (stamp_all rows t) ≡ foldl (λ t row. without row.id t) (parked t) rows
parked-stamp_all [] t = refl
parked-stamp_all (row ∷ rows) t =
    parked-stamp_all rows (stamp row.id t)
    ∙ ap (λ t. foldl (λ t row. without row.id t) t rows) (parked-stamp row.id t)

letters-stamp_all :
    (rows : List PendingMessage) (t : List DeadLetter)
    → map (λ r. r.message) (stamp_all rows t) ≡ map (λ r. r.message) t
letters-stamp_all [] t = refl
letters-stamp_all (row ∷ rows) t = letters-stamp_all rows (stamp row.id t) ∙ letters-stamp row.id t

take-length : {A : Type 0} (xs : List A) → take (length xs) xs ≡ xs
take-length [] = refl
take-length (x ∷ xs) = ap (◌∷◌ x) (take-length xs)

drop-length : {A : Type 0} (xs : List A) → drop (length xs) xs ≡ []
drop-length [] = refl
drop-length (x ∷ xs) = drop-length xs

-- Deleting all rows by their ids leaves none.
without_all :
    (rows : List PendingMessage)
    → IsAscending rows
    → foldl (λ t row. without row.id t) rows rows ≡ []
without_all rows h =
    ap (foldl (λ t row. without row.id t) rows) (sym (take-length rows))
    ∙ without-take (length rows) rows h
    ∙ drop-length rows

module _ {D B : Type 0} (bus : ServiceBus B) (wire : IsPublisher bus) (db : DeadLetterDatabase D)
    (law : IsPendingDatabase parked stamp db.pending) where
  abbrev pub letters : World D B → List DeadLetter
  letters w = law.transactional.committed w.store

  -- A redrive fails and leaves the table as it was, or every letter that was parked was published once,
  -- in the order of the ids, none is parked any more, and all letters are still in the table. The ids are the primary key.
  pub redrive_dead_letters-whole :
      (w : World D B)
      → IsAscending (parked (letters w))
      → let w' = (redrive_dead_letters bus db w).1 in
        ((letters w' ≡ letters w) × ((n : ℕ) → (redrive_dead_letters bus db w).0 ≢ ok n))
        ⊎ ((parked (letters w') ≡ [])
            × (wire.sent w'.bus ≡ wire.sent w.bus ++ map message_of (parked (letters w)))
            × (map (λ r. r.message) (letters w') ≡ map (λ r. r.message) (letters w)))
  unfolding redrive_dead_letters
  redrive_dead_letters-whole w keyed = elim (forward-whole bus wire db.pending law w) [
    | inl before ↦ inl before
    | inr (settled, sent) ↦
        let rows = parked (letters w) in
        inr (
          ap parked settled ∙ parked-stamp_all rows (letters w) ∙ without_all rows keyed,
          sent,
          ap (map (λ r. r.message)) settled ∙ letters-stamp_all rows (letters w),
        )
  ]
