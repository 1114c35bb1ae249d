-- ===== src/Muflone/Outbox/Delivery.antt =====
-- The relay delivers every message of the outbox at least once, and in order where nothing fails.
use cj_beer_company.Prelude.{
  ℕ, zero, suc, ◌*◌, ◌≤◌, ◌<◌, ◌≡◌, ◌≢◌, refl, sym, ap, ap₂, ◌∙◌, ◌⊎◌, inl, inr, List, [], ◌∷◌,
  ◌++◌, map, foldl, length, All, take, drop, length-drop, arith, append-nil, append_assoc,
  map-append, ==_refl,
}
use cj_beer_company.Prelude.Members.{In, In-append, In-left, In-right, In-map, take-append-drop}
use cj_beer_company.Outcome.{ok, World}
use cj_beer_company.Muflone.ServiceBus.{ServiceBus}
use cj_beer_company.Muflone.Forwarding.{PendingMessage, PendingDatabase}
use cj_beer_company.Muflone.Forwarding.Whole.{
  IsPublisher, IsPendingDatabase, message_of, forward-whole,
}
use cj_beer_company.Muflone.Forwarding.Grows.{forward-Grows}
use cj_beer_company.Muflone.Outbox.{first_batch, without, dispatch_pending, run}

-- The ids, which are the primary key, grow along the rows.
abbrev pub IsAscending : List PendingMessage → Type 0
IsAscending [] = Unit
IsAscending (r ∷ rs) = All (λ s. r.id < s.id) rs × IsAscending rs

without-above : (i : ℕ) (rs : List PendingMessage) → All (λ s. i < s.id) rs → without i rs ≡ rs
unfolding without
without-above i [] h = refl
without-above i (r ∷ rs) h = ground (arith, without-above i rs)

without-head :
    (r : PendingMessage) (rs : List PendingMessage)
    → IsAscending (r ∷ rs)
    → without r.id (r ∷ rs) ≡ rs
unfolding without
without-head r rs h = rw (==_refl r.id) (without-above r.id rs h.0)

-- Deleting the first rows by their ids leaves the others.
pub without-take :
    (n : ℕ) (rs : List PendingMessage)
    → IsAscending rs
    → foldl (λ t row. without row.id t) rs (take n rs) ≡ drop n rs
without-take zero rs h = refl
without-take (suc n) [] h = refl
without-take (suc n) (r ∷ rs) h =
    ap (λ t. foldl (λ t row. without row.id t) t (take n rs)) (without-head r rs h)
    ∙ without-take n rs h.1

empty_of : (xs : List PendingMessage) → length xs ≤ 0 → xs ≡ []
empty_of [] h = refl
empty_of (x ∷ xs) h = absurd (omega arith)

IsAscending-drop : (n : ℕ) (rs : List PendingMessage) → IsAscending rs → IsAscending (drop n rs)
IsAscending-drop zero rs h = h
IsAscending-drop (suc n) [] h = h
IsAscending-drop (suc n) (r ∷ rs) h = IsAscending-drop n rs h.1

-- The statements of the table outbox, with no other session that holds rows of it.
module _ {D B : Type 0} (bus : ServiceBus B) (wire : IsPublisher bus) (db : PendingDatabase D)
    (law : IsPendingDatabase first_batch without db) where
  abbrev pub table : World D B → List PendingMessage
  table w = law.transactional.committed w.store

  -- The oldest messages were published in their order, and are gone.
  abbrev HasDispatched : World D B → World D B → Type 0
  HasDispatched w w' =
      (table w' ≡ drop 100 (table w))
      × (wire.sent w'.bus ≡ wire.sent w.bus ++ map message_of (take 100 (table w)))

  dispatch_pending-cases :
      (w : World D B)
      → IsAscending (table w)
      → ((table (dispatch_pending bus db w).1 ≡ table w)
          × ((n : ℕ) → (dispatch_pending bus db w).0 ≢ ok n))
        ⊎ HasDispatched w (dispatch_pending bus db w).1
  unfolding dispatch_pending
  dispatch_pending-cases w keyed = elim (forward-whole bus wire db law w) [
    | inl before ↦ inl before
    | inr (settled, sent) ↦ inr (settled ∙ without-take 100 (table w) keyed, sent)
  ]

  -- Where no dispatch fails, a relay that runs for a tick per hundred messages empties the outbox, and
  -- has published each message once, in the order of the ids, the primary key.
  pub run-drains :
      ((w : World D B) → (n : ℕ) × ((dispatch_pending bus db w).0 ≡ ok n))
      → (ticks : ℕ) (w : World D B) → IsAscending (table w)
      → length (table w) ≤ 100 * ticks
      → (table (run bus db ticks w) ≡ [])
        × (wire.sent (run bus db ticks w).bus ≡ wire.sent w.bus ++ map message_of (table w))
  unfolding run
  run-drains healthy zero w keyed h =
      let none_left = empty_of (table w) (omega (arith, h)) in
      (none_left, rw (none_left, append-nil) refl)
  run-drains healthy (suc ticks) w keyed h = elim (dispatch_pending-cases w keyed) [
    | inl (_, fails) ↦ absurd (fails (healthy w).0 (healthy w).1)
    | inr (left, sent) ↦
        let w' = (dispatch_pending bus db w).1 in
        let shorter : length (table w') ≤ 100 * ticks =
          rw left (omega (arith, h, length-drop 100 (table w))) in
        let (empty, all) =
          run-drains healthy ticks w' (rw left (IsAscending-drop 100 (table w) keyed)) shorter in
        (
          empty,
          all
              ∙ ap₂ (λ xs ys. xs ++ map message_of ys) sent left
              ∙ append_assoc (wire.sent w.bus) (map message_of (take 100 (table w))) _
              ∙ ap (◌++◌ (wire.sent w.bus)) (
                  sym (map-append message_of (take 100 (table w)) (drop 100 (table w)))
                  ∙ ap (map message_of) (take-append-drop 100 (table w))),
        )
  ]

  still_sent :
      (row : PendingMessage) (w : World D B)
      → In (message_of row) (wire.sent w.bus)
      → In (message_of row) (wire.sent (dispatch_pending bus db w).1.bus)
  unfolding dispatch_pending
  still_sent row w sent =
      let (more, grown) = forward-Grows bus wire db law w in
      rw grown (In-left (message_of row) (wire.sent w.bus) more sent)

  -- The message waits in the outbox, whose ids grow, or has been published.
  abbrev IsKept : PendingMessage → World D B → Type 0
  IsKept row w = IsAscending (table w) × (In row (table w) ⊎ In (message_of row) (wire.sent w.bus))

  tick-IsKept :
      (row : PendingMessage) (w : World D B)
      → IsKept row w
      → IsKept row (dispatch_pending bus db w).1
  tick-IsKept row w (keyed, kept) = elim (dispatch_pending-cases w keyed) [
    | inl (same, _) ↦ (
      rw same keyed,
      elim kept [ inl waits ↦ inl (rw same waits) | inr sent ↦ inr (still_sent row w sent) ],
    )
    | inr (left, all) ↦ (
      rw left (IsAscending-drop 100 (table w) keyed),
      elim kept [
        | inr sent ↦ inr (still_sent row w sent)
        | inl waits ↦
            let now = take 100 (table w) in
            let parts =
              In-append row now (drop 100 (table w))
                (rw (← take-append-drop 100 (table w)) at waits) in
            elim parts [
              | inr later ↦ inl (rw left later)
              | inl first ↦ inr (
                  rw all (
                    In-right (message_of row) (wire.sent w.bus) (map message_of now)
                      (In-map row message_of now first)))
            ]
      ],
    )
  ]

  run-IsKept :
      (ticks : ℕ) (row : PendingMessage) (w : World D B)
      → IsKept row w
      → IsKept row (run bus db ticks w)
  unfolding run
  run-IsKept zero row w h = h
  run-IsKept (suc ticks) row w h =
      run-IsKept ticks row (dispatch_pending bus db w).1 (tick-IsKept row w h)

  -- However many ticks the relay runs, and whatever fails at each, a message of the outbox is still
  -- there or has been published. The ids of the outbox, its primary key, are distinct.
  pub run-NothingLost :
      (ticks : ℕ) (row : PendingMessage) (w : World D B)
      → IsAscending (table w)
      → In row (table w)
      → In row (table (run bus db ticks w))
        ⊎ In (message_of row) (wire.sent (run bus db ticks w).bus)
  run-NothingLost ticks row w keyed h = (run-IsKept ticks row w (keyed, inl h)).1
