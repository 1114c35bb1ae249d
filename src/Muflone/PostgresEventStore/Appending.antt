-- ===== src/Muflone/PostgresEventStore/Appending.antt =====
-- What Append does to the tables events and outbox, on a server that keeps what SQL promises.
use cj_beer_company.Prelude.{
  ℕ, ◌+◌, String, ◌≡◌, refl, sym, ◌∙◌, List, [], ◌∷◌, ◌++◌, map, All, append-nil, append_assoc,
  Bool-cases, inl, inr, ◌==◌, ==_iff,
}
use cj_beer_company.CustomTypes.{Uuid}
use cj_beer_company.Outcome.{
  Result, ok, err, Exec, continue-eq_ok, continue-keeps, ◌>>◌, Result-cases,
}
use cj_beer_company.Muflone.Registry.{Payload, EventRegistry}
use cj_beer_company.Muflone.ServiceBus.{MessageType, domain_event_topic_prefix}
use cj_beer_company.Muflone.Database.{complete, IsTransactional}
use cj_beer_company.Muflone.PostgresEventStore.{
  EventRow, ScannedRow, Insertion, inserted, unique_violation, refused, EventDatabase, answered,
  insert_all, append_body,
}
use cj_beer_company.Muflone.PostgresEventStore.Table.{max_version, in_order}
use Prim.Native.String.{◌++◌ as ◌<>◌}

-- The rows of the table events, and the messages of the table outbox in the order of their ids.
pub record Tables : Type 0 where
  pub events : List EventRow
  pub outbox : List (String × Payload)

-- What is relied on in the server, whose column type jsonb keeps `normal p` of a payload p, for one
-- session at a time. A statement that fails may leave anything in the transaction.
pub record IsEventDatabase {D : Type 0} (db : EventDatabase D) : Type 0 where
  pub normal : Payload → Payload
  pub transactional : IsTransactional Tables db.tx
  pub select_stream-keeps :
      (k : String) (d : D)
      → transactional.committed (db.select_stream k d).1 ≡ transactional.committed d
  pub select_stream-eq :
      (k : String) (d : D) (xs : List ScannedRow)
      → (db.select_stream k d).0 ≡ ok (complete xs)
      → map (λ x. x.row) xs ≡ in_order k (transactional.committed d).events
  pub select_head-keeps :
      (k : String) (d : D)
      → transactional.committed (db.select_head k d).1 ≡ transactional.committed d
  pub select_head-eq :
      (k : String) (d : D) (n : ℕ)
      → (db.select_head k d).0 ≡ ok n
      → (transactional.draft (db.select_head k d).1 ≡ transactional.draft d)
        × (n ≡ max_version k (transactional.draft d).events)
  pub insert_event-keeps :
      (r : EventRow) (d : D)
      → transactional.committed (db.insert_event r d).1 ≡ transactional.committed d
  pub insert_event-eq :
      (r : EventRow) (d : D)
      → (db.insert_event r d).0 ≡ inserted
      → transactional.draft (db.insert_event r d).1 ≡ record {
        events = (transactional.draft d).events ++ record r { payload = normal r.payload } ∷ [];
        outbox = (transactional.draft d).outbox;
      }
  pub insert_outbox-keeps :
      (t : String) (p : Payload) (d : D)
      → transactional.committed (db.insert_outbox t p d).1 ≡ transactional.committed d
  pub insert_outbox-eq :
      (t : String) (p : Payload) (d : D)
      → (db.insert_outbox t p d).0 ≡ ok tt
      → transactional.draft (db.insert_outbox t p d).1 ≡ record {
        events = (transactional.draft d).events;
        outbox = (transactional.draft d).outbox ++ (t, normal p) ∷ [];
      }

module _ {D E : Type 0} (db : EventDatabase D) (law : IsEventDatabase db)
    (registry : EventRegistry E) (type : MessageType E) (rounds : ℕ) where
  open law use {normal, transactional}

  -- The payload that the tables keep of an event that was marshalled.
  unfoldable pub kept_of : Result Payload → Payload
  kept_of (ok p) = normal p
  kept_of (err e) = []

  -- The rows and the messages of the events of one Append, from the index `i`.
  unfoldable pub new_rows : String → ℕ → Uuid → ℕ → List E → List EventRow
  unfolding kept_of
  new_rows k n c i [] = []
  new_rows k n c i (e ∷ es) =
      record {
        stream_id = k;
        version = n + i + 1;
        commit_id = c;
        event_type = type.message_name e;
        payload = kept_of (type.marshal e);
      }
      ∷ new_rows k n c (i + 1) es

  unfoldable pub new_messages : List E → List (String × Payload)
  unfolding kept_of
  new_messages [] = []
  new_messages (e ∷ es) =
      (domain_event_topic_prefix <> type.message_name e, kept_of (type.marshal e)) ∷ new_messages es

  unfoldable pub extended : String → ℕ → Uuid → List E → Tables → Tables
  unfolding new_rows new_messages
  extended k n c es t = record {
    events = t.events ++ new_rows k n c 0 es;
    outbox = t.outbox ++ new_messages es;
  }

  answered-keeps :
      (a : Insertion) (f : Exec D Unit) (d : D)
      → transactional.committed (f d).1 ≡ transactional.committed d
      → transactional.committed ((answered a >> f) d).1 ≡ transactional.committed d
  unfolding answered
  answered-keeps inserted f d h = h
  answered-keeps unique_violation f d h = refl
  answered-keeps (refused e) f d h = refl

  answered-then :
      (a : Insertion) (f : Exec D Unit) (d : D)
      → ((answered a >> f) d).0 ≡ ok tt
      → (a ≡ inserted) × ((answered a >> f) d ≡ f d)
  unfolding answered
  answered-then inserted f d h = (refl, refl)
  answered-then unique_violation f d h = cc
  answered-then (refused e) f d h = cc

  insert_all-draft :
      (k : String) (n : ℕ) (c : Uuid) (i : ℕ) (es : List E) (d : D)
      → (insert_all db registry type rounds k n c i es d).0 ≡ ok tt
      → transactional.draft (insert_all db registry type rounds k n c i es d).1 ≡ record {
        events = (transactional.draft d).events ++ new_rows k n c i es;
        outbox = (transactional.draft d).outbox ++ new_messages es;
      }
  unfolding insert_all new_rows new_messages kept_of
  insert_all-draft k n c i [] d h = rw (append-nil, append-nil) refl
  insert_all-draft k n c i (e ∷ es) d h =
      let (p, marshalled, rest) = continue-eq_ok (type.marshal e) _ d h in
      let row : EventRow = record {
        stream_id = k;
        version = n + i + 1;
        commit_id = c;
        event_type = type.message_name e;
        payload = p;
      } in
      let t = domain_event_topic_prefix <> type.message_name e in
      let d1 = (db.insert_event row d).1 in
      let more = insert_all db registry type rounds k n c (i + 1) es in
      let (written, next) =
        answered-then (db.insert_event row d).0 (db.insert_outbox t p >> more) d1 rest in
      let (u, queued, last) =
        continue-eq_ok (db.insert_outbox t p d1).0 (λ _. more) (db.insert_outbox t p d1).1
          (rw next at rest) in
      let done = insert_all-draft k n c (i + 1) es (db.insert_outbox t p d1).1 last in
      rw
        (
          marshalled,
          next,
          queued,
          done,
          law.insert_outbox-eq t p d1 queued,
          law.insert_event-eq row d written,
          append_assoc,
          append_assoc,
        )
        refl

  insert_all-keeps :
      (k : String) (n : ℕ) (c : Uuid) (i : ℕ) (es : List E) (d : D)
      → transactional.committed (insert_all db registry type rounds k n c i es d).1
        ≡ transactional.committed d
  unfolding insert_all
  insert_all-keeps k n c i [] d = refl
  insert_all-keeps k n c i (e ∷ es) d = elim (Result-cases (type.marshal e)) [
    | inr (x, bad) ↦ rw bad refl
    | inl (p, marshalled) ↦
        let row : EventRow = record {
          stream_id = k;
          version = n + i + 1;
          commit_id = c;
          event_type = type.message_name e;
          payload = p;
        } in
        let t = domain_event_topic_prefix <> type.message_name e in
        let more = insert_all db registry type rounds k n c (i + 1) es in
        let d1 = (db.insert_event row d).1 in
        rw marshalled (
          answered-keeps (db.insert_event row d).0 (db.insert_outbox t p >> more) d1 (
            continue-keeps (λ s. transactional.committed s ≡ transactional.committed d1)
              (db.insert_outbox t p d1).0 (λ _. more) (db.insert_outbox t p d1).1
              (law.insert_outbox-keeps t p d1)
              (λ _.
                insert_all-keeps k n c (i + 1) es (db.insert_outbox t p d1).1
                ∙ law.insert_outbox-keeps t p d1))
          ∙ law.insert_event-keeps row d)
  ]

  pub append_body-keeps :
      (k : String) (n : ℕ) (c : Uuid) (es : List E) (d : D)
      → transactional.committed (append_body db registry type rounds k n c es d).1
        ≡ transactional.committed d
  unfolding append_body
  append_body-keeps k n c es d =
      continue-keeps (λ s. transactional.committed s ≡ transactional.committed d)
        (db.select_head k d).0 _ (db.select_head k d).1 (law.select_head-keeps k d)
        (λ m. elim (Bool-cases (m == n)) [
          | inl same ↦ rw same (insert_all-keeps k n c 0 es _ ∙ law.select_head-keeps k d)
          | inr other ↦ rw other (law.select_head-keeps k d)
        ])

  pub append_body-draft :
      (k : String) (n : ℕ) (c : Uuid) (es : List E) (d : D)
      → (append_body db registry type rounds k n c es d).0 ≡ ok tt
      → (max_version k (transactional.draft d).events ≡ n)
        × (transactional.draft (append_body db registry type rounds k n c es d).1
            ≡ extended k n c es (transactional.draft d))
  unfolding append_body extended
  append_body-draft k n c es d h =
      let (m, read, rest) = continue-eq_ok (db.select_head k d).0 _ _ h in
      let (same_draft, head) = law.select_head-eq k d m read in
      elim (Bool-cases (m == n)) [
        | inr other ↦ cc (rw other at rest)
        | inl same ↦
            let e : m ≡ n = (==_iff m n).0 same in
            (
              sym head ∙ e,
              rw
                  (
                    read,
                    same,
                    insert_all-draft k n c 0 es (db.select_head k d).1 (rw same at rest),
                    same_draft,
                  )
                  refl,
            )
      ]

  insert_all-marshalled :
      (k : String) (n : ℕ) (c : Uuid) (i : ℕ) (es : List E) (d : D)
      → (insert_all db registry type rounds k n c i es d).0 ≡ ok tt
      → All (λ e. (p : Payload) × (type.marshal e ≡ ok p)) es
  unfolding insert_all
  insert_all-marshalled k n c i [] d h = tt
  insert_all-marshalled k n c i (e ∷ es) d h =
      let (p, marshalled, rest) = continue-eq_ok (type.marshal e) _ d h in
      let t = domain_event_topic_prefix <> type.message_name e in
      let more = insert_all db registry type rounds k n c (i + 1) es in
      let (answer, d1) =
        db.insert_event
          (record {
            stream_id = k;
            version = n + i + 1;
            commit_id = c;
            event_type = type.message_name e;
            payload = p;
          })
          d in
      let (written, next) = answered-then answer (db.insert_outbox t p >> more) d1 rest in
      let (u, queued, last) =
        continue-eq_ok (db.insert_outbox t p d1).0 (λ _. more) (db.insert_outbox t p d1).1
          (rw next at rest) in
      ((p, marshalled), insert_all-marshalled k n c (i + 1) es (db.insert_outbox t p d1).1 last)

  -- Every event of an Append that runs to its end was marshalled.
  pub append_body-marshalled :
      (k : String) (n : ℕ) (c : Uuid) (es : List E) (d : D)
      → (append_body db registry type rounds k n c es d).0 ≡ ok tt
      → All (λ e. (p : Payload) × (type.marshal e ≡ ok p)) es
  unfolding append_body
  append_body-marshalled k n c es d h =
      let (m, read, rest) = continue-eq_ok (db.select_head k d).0 _ _ h in
      elim (Bool-cases (m == n)) [
        | inr other ↦ cc (rw other at rest)
        | inl same ↦ insert_all-marshalled k n c 0 es (db.select_head k d).1 (rw same at rest)
      ]
