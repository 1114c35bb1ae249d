-- ===== src/Muflone/PostgresEventStore/Contract.antt =====
-- The durable event store keeps the contract of an event store, and its appends are whole.
use cj_beer_company.Prelude.{
  ℕ, ◌+◌, String, ◌≡◌, refl, ap, subst, ◌∙◌, List, ◌++◌, All, arith, length, str_eq, eq_iff,
  if◌then◌else◌, Bool-cases, inl, inr, ◌⊎◌, ◌≢◌,
}
use cj_beer_company.CustomTypes.{Uuid, Time}
use cj_beer_company.Outcome.{ok, continue-eq_ok, continue-keeps, Result-cases}
use cj_beer_company.Muflone.EventStore.{StoredEvent}
use cj_beer_company.Muflone.EventStore.Versions.{events_of}
use cj_beer_company.Muflone.Registry.{Payload, EventRegistry}
use cj_beer_company.Muflone.ServiceBus.{MessageType}
use cj_beer_company.Muflone.Database.{
  complete, in_transaction-ok, in_transaction-whole, HasCommitted,
}
use cj_beer_company.Muflone.PostgresEventStore.{
  EventDatabase, decode, read_stream, append_body, append, postgres,
}
use cj_beer_company.Muflone.PostgresEventStore.Table.{max_version, in_order}
use cj_beer_company.Muflone.PostgresEventStore.Appending.{
  Tables, IsEventDatabase, new_rows, extended, append_body-keeps, append_body-draft,
  append_body-marshalled,
}
use cj_beer_company.Muflone.PostgresEventStore.NewRows.{
  in_order-new_rows, in_order-new_other, max_version-new_rows,
}
use cj_beer_company.Muflone.PostgresEventStore.Decoded.{
  decoded, decoded-append, decoded-new_rows, read_rows-WasRead,
}
use cj_beer_company.Muflone.Repository.Contract.{IsEventStore}

module _ {D E : Type 0} (db : EventDatabase D) (law : IsEventDatabase db)
    (registry : EventRegistry E) (type : MessageType E) (rounds : ℕ) where
  open law use {transactional}

  -- The events and their messages are in the tables, at the head of the stream.
  abbrev pub HasAppended : String → ℕ → Uuid → List E → D → D → Type 0
  HasAppended k n c es d d' =
      (max_version k (transactional.committed d).events ≡ n)
      × (transactional.committed d'
          ≡ extended db law registry type rounds k n c es (transactional.committed d))

  HasAppended-of :
      (k : String) (n : ℕ) (c : Uuid) (es : List E) (d d' : D)
      → HasCommitted db.tx transactional (append_body db registry type rounds k n c es) d d'
      → HasAppended k n c es d d'
  HasAppended-of k n c es d d' (begun, (u, done), state) =
      let start = (db.tx.begin d).1 in
      let same : transactional.draft start ≡ transactional.committed d =
        transactional.begin-draft d begun in
      let (head, drafted) = append_body-draft db law registry type rounds k n c es start done in
      (rw same at head, state ∙ drafted ∙ ap (extended db law registry type rounds k n c es) same)

  pub append-HasAppended :
      (k : String) (n : ℕ) (c : Uuid) (now : Time) (es : List E) (d : D)
      → (append db registry type rounds k n c now es d).0 ≡ ok tt
      → HasAppended k n c es d (append db registry type rounds k n c now es d).1
  unfolding append
  append-HasAppended k n c now es d h =
      HasAppended-of k n c es d _
        (in_transaction-ok db.tx transactional (append_body db registry type rounds k n c es) d h).0

  append-cases :
      (k : String) (n : ℕ) (c : Uuid) (now : Time) (es : List E) (d : D)
      → (transactional.committed (append db registry type rounds k n c now es d).1
          ≡ transactional.committed d)
        ⊎ HasAppended k n c es d (append db registry type rounds k n c now es d).1
  unfolding append
  append-cases k n c now es d =
      let body = append_body db registry type rounds k n c es in
      elim (in_transaction-whole db.tx transactional body
        (append_body-keeps db law registry type rounds k n c es) d) [
          | inl before ↦ inl before
          | inr after ↦ inr (HasAppended-of k n c es d _ after)
        ]

  -- An Append takes effect at the head of its stream, with an outbox message for each event, or it
  -- returns an error and the tables of events and of the outbox are as they were. It may take effect
  -- and return an error, where Commit did so.
  pub append-whole :
      (k : String) (n : ℕ) (c : Uuid) (now : Time) (es : List E) (d : D)
      → let after = append db registry type rounds k n c now es d in
        ((transactional.committed after.1 ≡ transactional.committed d) × (after.0 ≢ ok tt))
        ⊎ HasAppended k n c es d after.1
  append-whole k n c now es d =
      elim (Result-cases (append db registry type rounds k n c now es d).0) [
        | inl (u, done) ↦ inr (append-HasAppended k n c now es d done)
        | inr (e, failed) ↦ elim (append-cases k n c now es d) [
          | inl before ↦ inl (before, λ done. cc)
          | inr after ↦ inr after
        ]
      ]

  module _
      (faithful : (e : E) (p : Payload)
        → type.marshal e ≡ ok p
        → decode db registry type rounds (type.message_name e) (law.normal p) ≡ ok e) where
    -- The history of a stream.
    abbrev view_of : String → D → List E
    view_of k d =
        decoded db law registry type rounds (in_order k (transactional.committed d).events)

    read_stream-eq :
        (k : String) (d : D) (stored : List (StoredEvent E))
        → (read_stream db registry type rounds k d).0 ≡ ok stored
        → events_of stored ≡ view_of k d
    unfolding read_stream
    read_stream-eq k d stored h =
        let (rows, queried, read) = continue-eq_ok (db.select_stream k d).0 _ _ h in
        let (xs, all, end, same) =
          read_rows-WasRead db law registry type rounds k rows.scanned rows.failure read in
        let whole : rows ≡ complete xs = cc (all, end) in
        same
        ∙ ap (decoded db law registry type rounds)
            (law.select_stream-eq k d xs (queried ∙ ap ok whole))

    read_stream-keeps :
        (k : String) (d : D)
        → transactional.committed (read_stream db registry type rounds k d).1
          ≡ transactional.committed d
    unfolding read_stream
    read_stream-keeps k d =
        continue-keeps (λ s. transactional.committed s ≡ transactional.committed d)
          (db.select_stream k d).0 _ (db.select_stream k d).1 (law.select_stream-keeps k d)
          (λ rows. law.select_stream-keeps k d)

    append-marshalled :
        (k : String) (n : ℕ) (c : Uuid) (now : Time) (es : List E) (d : D)
        → (append db registry type rounds k n c now es d).0 ≡ ok tt
        → All (λ e. (p : Payload) × (type.marshal e ≡ ok p)) es
    unfolding append
    append-marshalled k n c now es d h =
        append_body-marshalled db law registry type rounds k n c es (db.tx.begin d).1
          (in_transaction-ok db.tx transactional (append_body db registry type rounds k n c es) d
            h).1

    append-own_view :
        (k : String) (n : ℕ) (c : Uuid) (now : Time) (es : List E) (d : D)
        → (append db registry type rounds k n c now es d).0 ≡ ok tt
        → view_of k (append db registry type rounds k n c now es d).1 ≡ view_of k d ++ es
    unfolding extended
    append-own_view k n c now es d h =
        let (head, state) = append-HasAppended k n c now es d h in
        let before = (transactional.committed d).events in
        let new = new_rows db law registry type rounds k n c 0 es in
        rw
          (
            state,
            in_order-new_rows db law registry type rounds k n c 0 es before (omega (arith, head)),
            decoded-append db law registry type rounds (in_order k before) new,
            decoded-new_rows db law registry type rounds faithful k n c 0 es
                (append-marshalled k n c now es d h),
          )
          refl

    append-view :
        (j k : String) (n : ℕ) (c : Uuid) (now : Time) (es : List E) (d : D)
        → (append db registry type rounds k n c now es d).0 ≡ ok tt
        → view_of j (append db registry type rounds k n c now es d).1
          ≡ (if str_eq k j then view_of k d ++ es else view_of j d)
    unfolding extended
    append-view j k n c now es d h = elim (Bool-cases (str_eq k j)) [
      | inl same ↦ rw same (
          subst
            (λ i. view_of i (append db registry type rounds k n c now es d).1 ≡ view_of k d ++ es)
            ((eq_iff k j).0 same) (append-own_view k n c now es d h))
      | inr other ↦
          let (head, state) = append-HasAppended k n c now es d h in
          rw
            (
              other,
              state,
              in_order-new_other db law registry type rounds k j n c 0 es
                  (transactional.committed d).events other,
            )
            refl
    ]

    append-new_head :
        (k : String) (n : ℕ) (c : Uuid) (now : Time) (es : List E) (d : D)
        → (append db registry type rounds k n c now es d).0 ≡ ok tt
        → max_version k
            (transactional.committed (append db registry type rounds k n c now es d).1).events
          ≡ n + length es
    unfolding extended
    append-new_head k n c now es d h =
        let (head, state) = append-HasAppended k n c now es d h in
        rw state (
          max_version-new_rows db law registry type rounds k n c 0 es
            (transactional.committed d).events (omega (arith, head))
          ∙ omega arith)

    -- The durable store keeps the contract of an event store, so that whatever is proved of a
    -- repository over an event store holds of one over the server: its streams are the rows of the
    -- table events in the order of their versions, decoded. Decoding a marshalled event gives the
    -- event back, also from the form in which the server keeps it.
    pub postgres-IsEventStore : IsEventStore (postgres db registry type rounds)
    unfolding read_stream
    postgres-IsEventStore = record {
      view = view_of;
      head = λ k d. max_version k (transactional.committed d).events;
      read-eq = read_stream-eq;
      view-read = λ j k d.
          ap (λ (t : Tables). decoded db law registry type rounds (in_order j t.events))
            (read_stream-keeps k d);
      append-head = λ k n c now es d h. (append-HasAppended k n c now es d h).0;
      head-append = append-new_head;
      view-append = append-view;
    }
