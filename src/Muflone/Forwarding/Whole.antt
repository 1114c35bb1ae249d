-- ===== src/Muflone/Forwarding/Whole.antt =====
-- A transaction that forwards messages settles only what it has published.
use cj_beer_company.Prelude.{
  ℕ, String, ◌≡◌, ◌≢◌, refl, sym, ap, ◌∙◌, ◌⊎◌, inl, inr, List, [], ◌∷◌, ◌++◌, map, foldl, length,
  append-nil, append_assoc,
}
use cj_beer_company.Outcome.{
  ok, World, on_store, continue-eq_ok, continue-keeps, ok-injective, Result-cases,
}
use cj_beer_company.Muflone.Registry.{Payload}
use cj_beer_company.Muflone.ServiceBus.{ServiceBus}
use cj_beer_company.Muflone.Database.{
  complete, scan_all, scan_all_complete, IsTransactional, in_transaction-ok, in_transaction-whole,
  in_transaction-carries, HasCommitted,
}
use cj_beer_company.Muflone.Forwarding.{
  PendingMessage, PendingDatabase, with_bus, forward_all, forward_body, forward,
}

-- What a broker has taken: a publication that returns was taken once, and one that fails may have been
-- taken as well.
pub record IsPublisher {B : Type 0} (bus : ServiceBus B) : Type 0 where
  pub sent : B → List (String × Payload)
  pub publish-ok :
      (t : String) (p : Payload) (b : B)
      → (bus.publisher t p b).0 ≡ ok tt
      → sent (bus.publisher t p b).1 ≡ sent b ++ (t, p) ∷ []
  pub publish-grows :
      (t : String) (p : Payload) (b : B)
      → (more : List (String × Payload)) × (sent (bus.publisher t p b).1 ≡ sent b ++ more)

-- What is relied on in the server, for one session at a time: T is the content of the table, `pending`
-- what the SELECT yields of it, and `settled` what the statement for one message makes of it.
pub record IsPendingDatabase {T : Type 0} (pending : T → List PendingMessage) (settled : ℕ → T → T)
    {D : Type 0} (db : PendingDatabase D) : Type 0 where
  pub transactional : IsTransactional T db.tx
  pub select-keeps :
      (d : D) → transactional.committed (db.select_pending d).1 ≡ transactional.committed d
  pub select-eq :
      (d : D) (xs : List PendingMessage)
      → (db.select_pending d).0 ≡ ok (complete xs)
      → (xs ≡ pending (transactional.draft d))
        × (transactional.draft (db.select_pending d).1 ≡ transactional.draft d)
  pub settle-keeps :
      (i : ℕ) (d : D) → transactional.committed (db.settle i d).1 ≡ transactional.committed d
  pub settle-eq :
      (i : ℕ) (d : D)
      → (db.settle i d).0 ≡ ok tt
      → transactional.draft (db.settle i d).1 ≡ settled i (transactional.draft d)

abbrev pub message_of : PendingMessage → String × Payload
message_of row = (row.topic, row.payload)

module _ {T D B : Type 0} {pending : T → List PendingMessage} {settled : ℕ → T → T}
    (bus : ServiceBus B) (wire : IsPublisher bus) (db : PendingDatabase D)
    (law : IsPendingDatabase pending settled db) where
  open law use {transactional}

  abbrev world_transactional : IsTransactional T (with_bus {B = B} db.tx)
  world_transactional = record {
    committed = λ w. transactional.committed w.store;
    draft = λ w. transactional.draft w.store;
    begin-keeps = λ w. transactional.begin-keeps w.store;
    begin-draft = λ w. transactional.begin-draft w.store;
    rollback-keeps = λ w. transactional.rollback-keeps w.store;
    commit-draft = λ w. transactional.commit-draft w.store;
    commit-whole = λ w. transactional.commit-whole w.store;
  }

  -- The table after all the messages were settled, in their order.
  abbrev pub settle_all : List PendingMessage → T → T
  settle_all rows t = foldl (λ t row. settled row.id t) t rows

  forward_all-ok :
      (rows : List PendingMessage) (w : World D B)
      → (forward_all bus db rows w).0 ≡ ok tt
      → (transactional.draft (forward_all bus db rows w).1.store
          ≡ settle_all rows (transactional.draft w.store))
        × (wire.sent (forward_all bus db rows w).1.bus ≡ wire.sent w.bus ++ map message_of rows)
  unfolding forward_all
  forward_all-ok [] w h = (refl, sym (append-nil (wire.sent w.bus)))
  forward_all-ok (row ∷ rows) w h =
      let (u, published, rest) =
        continue-eq_ok (bus.publisher row.topic row.payload w.bus).0 _ _ h in
      let (v, marked, last) = continue-eq_ok (db.settle row.id w.store).0 _ _ rest in
      let done = forward_all-ok rows _ last in
      rw (published, marked)
        (
          done.0 ∙ ap (settle_all rows) (law.settle-eq row.id w.store marked),
          done.1
              ∙ ap (λ xs. xs ++ map message_of rows)
                  (wire.publish-ok row.topic row.payload w.bus published)
              ∙ append_assoc (wire.sent w.bus) (message_of row ∷ []) (map message_of rows),
        )

  forward_all-keeps :
      (rows : List PendingMessage) (w : World D B)
      → transactional.committed (forward_all bus db rows w).1.store
        ≡ transactional.committed w.store
  unfolding forward_all
  forward_all-keeps [] w = refl
  forward_all-keeps (row ∷ rows) w =
      let P : World D B → Type 0 =
        λ v. transactional.committed v.store ≡ transactional.committed w.store in
      let sent_on : World D B = record w { bus = (bus.publisher row.topic row.payload w.bus).1 } in
      continue-keeps P (bus.publisher row.topic row.payload w.bus).0 _ sent_on refl (λ u.
        continue-keeps P (db.settle row.id w.store).0 _
          (record sent_on { store = (db.settle row.id w.store).1 })
          (law.settle-keeps row.id w.store)
          (λ v. forward_all-keeps rows _ ∙ law.settle-keeps row.id w.store))

  forward_body-keeps :
      (w : World D B)
      → transactional.committed (forward_body bus db w).1.store ≡ transactional.committed w.store
  unfolding forward_body
  forward_body-keeps w =
      let P : World D B → Type 0 =
        λ v. transactional.committed v.store ≡ transactional.committed w.store in
      let selected : World D B = record w { store = (db.select_pending w.store).1 } in
      continue-keeps P (db.select_pending w.store).0 _ selected (law.select-keeps w.store) (λ rows.
        continue-keeps P (scan_all rows.scanned rows.failure) _ selected (law.select-keeps w.store)
          (λ xs.
            let kept = forward_all-keeps xs selected ∙ law.select-keeps w.store in
            continue-keeps P (forward_all bus db xs selected).0 _ (forward_all bus db xs selected).1
              kept (λ u. kept)))

  forward_body-ok :
      (w : World D B) {n : ℕ}
      → (forward_body bus db w).0 ≡ ok n
      → let rows = pending (transactional.draft w.store) in
        (n ≡ length rows)
        × (transactional.draft (forward_body bus db w).1.store
            ≡ settle_all rows (transactional.draft w.store))
        × (wire.sent (forward_body bus db w).1.bus ≡ wire.sent w.bus ++ map message_of rows)
  unfolding forward_body
  forward_body-ok w h =
      let (rows, queried, rest) = continue-eq_ok (db.select_pending w.store).0 _ _ h in
      let (xs, scanned, more) = continue-eq_ok (scan_all rows.scanned rows.failure) _ _ rest in
      let (u, forwarded, counted) = continue-eq_ok (forward_all bus db xs _).0 _ _ more in
      let (all, end) = scan_all_complete rows.scanned rows.failure xs scanned in
      let whole : rows ≡ complete xs = cc (all, end) in
      let (same, drafted) = law.select-eq w.store xs (queried ∙ ap ok whole) in
      let selected : World D B = record w { store = (db.select_pending w.store).1 } in
      let done = forward_all-ok xs selected forwarded in
      rw (queried, scanned, forwarded, ← same)
        (sym (ok-injective counted), done.0 ∙ ap (settle_all xs) drafted, done.1)

  -- The pending messages were published, each once and in their order, and are settled.
  abbrev pub HasForwarded : World D B → World D B → Type 0
  HasForwarded w w' =
      let rows = pending (transactional.committed w.store) in
      (transactional.committed w'.store ≡ settle_all rows (transactional.committed w.store))
      × (wire.sent w'.bus ≡ wire.sent w.bus ++ map message_of rows)

  pub forward-bus :
      (w : World D B)
      → (db.tx.begin w.store).0 ≡ ok tt
      → (forward bus db w).1.bus ≡ (forward_body bus db (on_store db.tx.begin w).1).1.bus
  unfolding forward
  forward-bus w begun =
      in_transaction-carries (with_bus db.tx) (forward_body bus db) (λ (v : World D B). v.bus)
        (λ v. refl) (λ v. refl) w begun

  forward-HasForwarded :
      (w : World D B)
      → HasCommitted
          (with_bus db.tx)
          world_transactional
          (forward_body bus db)
          w
          (forward bus db w).1
      → HasForwarded w (forward bus db w).1
  forward-HasForwarded w (begun, (n, done), state) =
      let (count, drafted, sent) = forward_body-ok (on_store db.tx.begin w).1 done in
      let fresh = transactional.begin-draft w.store begun in
      (
        state ∙ drafted ∙ ap (λ t. settle_all (pending t) t) fresh,
        ap wire.sent (forward-bus w begun)
            ∙ sent
            ∙ ap (λ t. wire.sent w.bus ++ map message_of (pending t)) fresh,
      )

  forward-ok :
      (w : World D B) {n : ℕ}
      → (forward bus db w).0 ≡ ok n
      → HasCommitted
          (with_bus db.tx)
          world_transactional
          (forward_body bus db)
          w
          (forward bus db w).1
  unfolding forward
  forward-ok w h =
      (in_transaction-ok (with_bus db.tx) world_transactional (forward_body bus db) w h).0

  forward-cases :
      (w : World D B)
      → (transactional.committed (forward bus db w).1.store ≡ transactional.committed w.store)
        ⊎ HasCommitted
            (with_bus db.tx)
            world_transactional
            (forward_body bus db)
            w
            (forward bus db w).1
  unfolding forward
  forward-cases w =
      in_transaction-whole (with_bus db.tx) world_transactional (forward_body bus db)
        forward_body-keeps w

  -- Either the transaction fails and the table is as before, or the pending messages were published
  -- and are settled.
  pub forward-whole :
      (w : World D B)
      → ((transactional.committed (forward bus db w).1.store ≡ transactional.committed w.store)
          × ((n : ℕ) → (forward bus db w).0 ≢ ok n))
        ⊎ HasForwarded w (forward bus db w).1
  forward-whole w = elim (Result-cases (forward bus db w).0) [
    | inl (n, done) ↦ inr (forward-HasForwarded w (forward-ok w done))
    | inr (e, failed) ↦ elim (forward-cases w) [
      | inl before ↦ inl (before, λ n done. cc)
      | inr after ↦ inr (forward-HasForwarded w after)
    ]
  ]
