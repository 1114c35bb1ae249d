-- ===== src/Muflone/Forwarding/Grows.antt =====
-- A transaction that forwards messages takes back nothing that was sent, whatever its end.
use cj_beer_company.Prelude.{
  ℕ, String, ◌≡◌, refl, sym, ap, ◌∙◌, inl, inr, List, [], ◌∷◌, ◌++◌, append-nil, append_assoc,
}
use cj_beer_company.Outcome.{Error, err, World, on_store, continue-keeps, Result-cases}
use cj_beer_company.Muflone.Registry.{Payload}
use cj_beer_company.Muflone.ServiceBus.{ServiceBus}
use cj_beer_company.Muflone.Database.{scan_all}
use cj_beer_company.Muflone.Forwarding.{
  PendingMessage, PendingDatabase, forward_all, forward_body, forward,
}
use cj_beer_company.Muflone.Forwarding.Whole.{IsPublisher, IsPendingDatabase, forward-bus}

module _ {T D B : Type 0} {pending : T → List PendingMessage} {settled : ℕ → T → T}
    (bus : ServiceBus B) (wire : IsPublisher bus) (db : PendingDatabase D)
    (law : IsPendingDatabase pending settled db) where
  -- More was sent, perhaps, and nothing that was sent is taken back.
  abbrev pub Grows : World D B → World D B → Type 0
  Grows w w' = (more : List (String × Payload)) × (wire.sent w'.bus ≡ wire.sent w.bus ++ more)

  Grows-refl : (w w' : World D B) → w'.bus ≡ w.bus → Grows w w'
  Grows-refl w w' same = ([], ap wire.sent same ∙ sym (append-nil (wire.sent w.bus)))

  Grows-trans : (u v w : World D B) → Grows u v → Grows v w → Grows u w
  Grows-trans u v w (more, e) (rest, f) =
      (more ++ rest, f ∙ ap (λ xs. xs ++ rest) e ∙ append_assoc (wire.sent u.bus) more rest)

  forward_all-Grows :
      (rows : List PendingMessage) (w : World D B) → Grows w (forward_all bus db rows w).1
  unfolding forward_all
  forward_all-Grows [] w = Grows-refl w w refl
  forward_all-Grows (row ∷ rows) w =
      let sent_on : World D B = record w { bus = (bus.publisher row.topic row.payload w.bus).1 } in
      let marked : World D B = record sent_on { store = (db.settle row.id w.store).1 } in
      let published : Grows w sent_on = wire.publish-grows row.topic row.payload w.bus in
      continue-keeps (Grows w) (bus.publisher row.topic row.payload w.bus).0 _ sent_on published
        (λ u. continue-keeps (Grows w) (db.settle row.id w.store).0 _ marked published (λ v.
          Grows-trans w marked (forward_all bus db rows marked).1 published
            (forward_all-Grows rows marked)))

  forward_body-Grows : (w : World D B) → Grows w (forward_body bus db w).1
  unfolding forward_body
  forward_body-Grows w =
      let selected : World D B = record w { store = (db.select_pending w.store).1 } in
      let idle = Grows-refl w selected refl in
      continue-keeps (Grows w) (db.select_pending w.store).0 _ selected idle (λ rows.
        continue-keeps (Grows w) (scan_all rows.scanned rows.failure) _ selected idle (λ xs.
          let grown =
            Grows-trans w selected (forward_all bus db xs selected).1 idle
              (forward_all-Grows xs selected) in
          continue-keeps (Grows w) (forward_all bus db xs selected).0 _
            (forward_all bus db xs selected).1 grown (λ u. grown)))

  refused-bus :
      (w : World D B) {e : Error}
      → (db.tx.begin w.store).0 ≡ err e
      → (forward bus db w).1.bus ≡ w.bus
  unfolding forward
  refused-bus w refused = rw refused refl

  -- What was sent before a transaction is still sent after it, whatever its end.
  pub forward-Grows : (w : World D B) → Grows w (forward bus db w).1
  forward-Grows w = elim (Result-cases (db.tx.begin w.store).0) [
    | inl (u, begun) ↦
        let start : World D B = (on_store db.tx.begin w).1 in
        let worked = (forward_body bus db start).1 in
        Grows-trans w worked (forward bus db w).1
          (Grows-trans w start worked (Grows-refl w start refl) (forward_body-Grows start))
          (Grows-refl worked (forward bus db w).1 (forward-bus bus wire db law w begun))
    | inr (e, refused) ↦ Grows-refl w (forward bus db w).1 (refused-bus w refused)
  ]
