-- ===== src/Muflone/PostgresEventStore.antt =====
-- internal/muflone/postgres_eventstore.go: the durable event store. The server runs the statements,
-- and is an argument; the tables are those of migrations/versions.
pub mod Table
pub mod Appending
pub mod NewRows
pub mod Decoded
pub mod Contract
use cj_beer_company.Prelude.{
  ℕ, ◌+◌, String, not, Option, none, some, List, [], ◌∷◌, ◌==◌, if◌then◌else◌,
}
use cj_beer_company.CustomTypes.{Uuid, Time}
use cj_beer_company.Outcome.{
  Error, Result, ok, err, concurrency, failed, Exec, pure, raise, lift, ◌>>=◌, ◌>>◌,
}
use cj_beer_company.Muflone.EventStore.{StoredEvent, EventStore}
use cj_beer_company.Muflone.Registry.{Payload, EventRegistry, deserialize}
use cj_beer_company.Muflone.ServiceBus.{MessageType, domain_event_topic_prefix}
use cj_beer_company.Muflone.Database.{Rows, scan_all, Transactions, in_transaction}
use Prim.Native.String.{◌++◌ as ◌<>◌}

-- A row of the table events, without occurred_at, which the server fills.
pub record EventRow : Type 0 where
  pub stream_id : String
  pub version : ℕ
  pub commit_id : Uuid
  pub event_type : String
  pub payload : Payload

pub record ScannedRow : Type 0 where
  pub row : EventRow
  pub occurred_at : Time

-- The answer to an INSERT INTO events; pgUniqueViolation is told apart.
pub data Insertion : Type 0 where
  inserted : Insertion
  unique_violation : Insertion
  refused : Error → Insertion

-- The statements of this file, as a server runs them.
pub record EventDatabase (D : Type 0) : Type 0 where
  pub tx : Transactions D
  pub select_stream : String → Exec D (Rows ScannedRow)
  pub select_streams : String → Exec D (Rows String)
  pub select_head : String → Exec D ℕ
  pub insert_event : EventRow → D → Insertion × D
  pub insert_outbox : String → Payload → Exec D Unit

answered : {D : Type 0} → Insertion → Exec D Unit
answered inserted = pure tt
answered unique_violation = raise concurrency
answered (refused e) = raise e

-- `rounds` is the fuel of Deserialize.
module _ {D E : Type 0} (db : EventDatabase D) (registry : EventRegistry E) (type : MessageType E)
    (rounds : ℕ) where
  unfoldable pub decode : String → Payload → Result E
  unfolding deserialize
  decode event_type payload = elim (deserialize rounds registry event_type payload) [
    | none ↦ err (failed "Deserialize runs on")
    | some r ↦ r
  ]

  stored_as : ScannedRow → String → E → StoredEvent E
  stored_as scanned stream_id event = record {
    stream_id = stream_id;
    version = scanned.row.version;
    commit_id = scanned.row.commit_id;
    occurred_at = scanned.occurred_at;
    event = event;
  }

  with_event :
      ScannedRow → String → Result E → Result (List (StoredEvent E)) → Result (List (StoredEvent E))
  unfolding stored_as
  with_event scanned stream_id (err e) rest = err e
  with_event scanned stream_id (ok event) (err e) = err e
  with_event scanned stream_id (ok event) (ok rest) = ok (stored_as scanned stream_id event ∷ rest)

  -- the loop of ReadStream
  pub read_rows : String → List (Result ScannedRow) → Option Error → Result (List (StoredEvent E))
  unfolding with_event decode
  read_rows stream_id [] none = ok []
  read_rows stream_id [] (some e) = err e
  read_rows stream_id (err e ∷ rows) failure = err e
  read_rows stream_id (ok scanned ∷ rows) failure =
      with_event scanned stream_id (decode scanned.row.event_type scanned.row.payload)
        (read_rows stream_id rows failure)

  unfoldable pub read_stream : String → Exec D (List (StoredEvent E))
  unfolding read_rows
  read_stream stream_id = do
    rows ← db.select_stream stream_id
    lift (read_rows stream_id rows.scanned rows.failure)

  unfoldable pub list_streams : String → Exec D (List String)
  unfolding scan_all
  list_streams stream_prefix = do
    rows ← db.select_streams (stream_prefix <> "-%")
    lift (scan_all rows.scanned rows.failure)

  -- the loop of Append, from the index `i`
  insert_all : String → ℕ → Uuid → ℕ → List E → Exec D Unit
  unfolding answered
  insert_all stream_id expected commit_id i [] = pure tt
  insert_all stream_id expected commit_id i (event ∷ events) = do
    payload ← lift (type.marshal event)
    (λ d.
        let (answer, d') =
          db.insert_event
            (record {
              stream_id = stream_id;
              version = expected + i + 1;
              commit_id = commit_id;
              event_type = type.message_name event;
              payload = payload;
            })
            d in
        answered answer d')
    db.insert_outbox (domain_event_topic_prefix <> type.message_name event) payload
    insert_all stream_id expected commit_id (i + 1) events

  -- Append between BeginTx and Commit
  pub append_body : String → ℕ → Uuid → List E → Exec D Unit
  unfolding insert_all
  append_body stream_id expected commit_id events = do
    head ← db.select_head stream_id
    if not (head == expected)
        then raise concurrency
        else insert_all stream_id expected commit_id 0 events

  unfoldable pub append : String → ℕ → Uuid → Time → List E → Exec D Unit
  unfolding append_body in_transaction
  append stream_id expected commit_id now events =
      in_transaction db.tx (append_body stream_id expected commit_id events)

  abbrev pub postgres : EventStore D E
  postgres = record { read_stream = read_stream; append = append }
