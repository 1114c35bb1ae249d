-- ===== src/Muflone/EventStore.antt =====
-- internal/muflone/eventstore.go: streams of stored events with optimistic concurrency.
pub mod Versions
use cj_beer_company.Prelude.{
  ℕ, suc, ◌+◌, String, Bool, not, Option, none, some, List, [], ◌∷◌, ◌++◌, length, ◌==◌,
  if◌then◌else◌,
}
use cj_beer_company.Prelude.Text.{has_prefix, str_le}
use cj_beer_company.CustomTypes.{Uuid, Time}
use cj_beer_company.Outcome.{Result, ok, err, concurrency, Exec}
use cj_beer_company.Dict.{Dict, lookup, insert, keys}
use Prim.Native.String.{◌++◌ as ◌<>◌}

pub record StoredEvent (E : Type 0) : Type 0 where
  pub stream_id : String
  pub version : ℕ
  pub commit_id : Uuid
  pub occurred_at : Time
  pub event : E

-- The interface EventStore, over the state that an implementation keeps. The clock reading that
-- `Append` takes is an argument.
pub record EventStore (S E : Type 0) : Type 0 where
  pub read_stream : String → Exec S (List (StoredEvent E))
  pub append : String → ℕ → Uuid → Time → List E → Exec S Unit

pub record InMemoryEventStore (E : Type 0) : Type 0 where
  pub streams : Dict (List (StoredEvent E))
  pub appended : List E

-- sort.Strings, as an insertion sort
insert_sorted : String → List String → List String
insert_sorted k [] = k ∷ []
insert_sorted k (j ∷ ks) = if str_le k j then k ∷ j ∷ ks else j ∷ insert_sorted k ks

sort_strings : List String → List String
unfolding insert_sorted
sort_strings [] = []
sort_strings (k ∷ ks) = insert_sorted k (sort_strings ks)

with_prefix : String → List String → List String
with_prefix p [] = []
with_prefix p (k ∷ ks) = let rest = with_prefix p ks in if has_prefix k p then k ∷ rest else rest

module _ {E : Type 0} where
  unfoldable pub new_in_memory_event_store : InMemoryEventStore E
  new_in_memory_event_store = record { streams = []; appended = [] }

  or_nil : Option (List (StoredEvent E)) → List (StoredEvent E)
  or_nil none = []
  or_nil (some stream) = stream

  -- `s.streams[streamID]`, which is nil where the key is missing
  unfoldable pub stream_of : String → InMemoryEventStore E → List (StoredEvent E)
  unfolding or_nil
  stream_of stream_id s = or_nil (lookup stream_id s.streams)

  unfoldable pub read_stream : String → Exec (InMemoryEventStore E) (List (StoredEvent E))
  unfolding stream_of
  read_stream stream_id s = (ok (stream_of stream_id s), s)

  -- The loop of Append, from the index `i`; it returns what the loop appends to the stream.
  unfoldable pub stamp : String → ℕ → Uuid → Time → ℕ → List E → List (StoredEvent E)
  stamp stream_id expected commit_id now i [] = []
  stamp stream_id expected commit_id now i (event ∷ events) =
      record {
        stream_id = stream_id;
        version = expected + i + 1;
        commit_id = commit_id;
        occurred_at = now;
        event = event;
      }
      ∷ stamp stream_id expected commit_id now (i + 1) events

  unfoldable pub append : String → ℕ → Uuid → Time → List E → Exec (InMemoryEventStore E) Unit
  unfolding stream_of stamp
  append stream_id expected commit_id now events s =
      let stream = stream_of stream_id s in
      if not (length stream == expected) then (err concurrency, s) else (
        ok tt,
        record {
          streams =
              insert stream_id (stream ++ stamp stream_id expected commit_id now 0 events)
                s.streams;
          appended = s.appended ++ events;
        },
      )

  unfoldable pub list_streams : String → Exec (InMemoryEventStore E) (List String)
  unfolding with_prefix sort_strings
  list_streams stream_prefix s =
      (ok (sort_strings (with_prefix (stream_prefix <> "-") (keys s.streams))), s)

  -- The loop of Seed: the version is computed from the stream that the loop is growing.
  seed_from : String → (E → Uuid) → ℕ → List (StoredEvent E) → List E → List (StoredEvent E)
  seed_from stream_id commit_of i stream [] = stream
  seed_from stream_id commit_of i stream (event ∷ events) =
      seed_from stream_id commit_of (i + 1)
        (stream
          ++ record {
            stream_id = stream_id;
            version = length stream + i + 1;
            commit_id = commit_of event;
            occurred_at = 0;
            event = event;
          }
            ∷ [])
        events

  unfoldable pub seed : String → (E → Uuid) → List E → InMemoryEventStore E → InMemoryEventStore E
  unfolding seed_from stream_of
  seed stream_id commit_of events s = record s {
    streams =
        insert stream_id (seed_from stream_id commit_of 0 (stream_of stream_id s) events) s.streams;
  }

  abbrev pub in_memory : EventStore (InMemoryEventStore E) E
  in_memory = record { read_stream = read_stream; append = append }
