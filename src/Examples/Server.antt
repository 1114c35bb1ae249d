-- ===== src/Examples/Server.antt =====
-- A server with the tables in memory, on which every statement succeeds.
use cj_beer_company.Prelude.{
  ℕ, String, ◌≡◌, ◌≢◌, refl, sym, ◌∙◌, List, [], ◌∷◌, ◌++◌, map, inr, ◌⊎◌, ap,
}
use cj_beer_company.Dict.{lookup}
use cj_beer_company.Outcome.{Result, ok, err, failed, ok-injective}
use cj_beer_company.Muflone.Registry.{Payload, EventRegistry}
use cj_beer_company.Muflone.ServiceBus.{MessageType}
use cj_beer_company.Muflone.Database.{complete-injective, complete}
use cj_beer_company.Muflone.PostgresEventStore.{
  EventRow, ScannedRow, inserted, EventDatabase, decode, append, postgres,
}
use cj_beer_company.Muflone.PostgresEventStore.Table.{max_version, in_order}
use cj_beer_company.Muflone.PostgresEventStore.Appending.{Tables, IsEventDatabase}
use cj_beer_company.Muflone.PostgresEventStore.Contract.{
  HasAppended, append-whole, postgres-IsEventStore,
}
use cj_beer_company.Muflone.Repository.Contract.{IsEventStore}

record Server : Type 0 where
  committed : Tables
  draft : Tables

abbrev pub scanned : EventRow → ScannedRow
scanned r = record { row = r; occurred_at = 0 }

abbrev server : EventDatabase Server
server = record {
  tx = record {
    begin = λ d. (ok tt, record d { draft = d.committed });
    commit = λ d. (ok tt, record d { committed = d.draft });
    rollback = λ d. record d { draft = d.committed };
  };
  select_stream = λ k d. (ok (complete (map scanned (in_order k d.committed.events))), d);
  select_streams = λ pattern d. (ok (complete []), d);
  select_head = λ k d. (ok (max_version k d.draft.events), d);
  insert_event =
      λ r d. (inserted, record d { draft = record d.draft { events = d.draft.events ++ r ∷ [] } });
  insert_outbox = λ t p d.
      (ok tt, record d { draft = record d.draft { outbox = d.draft.outbox ++ (t, p) ∷ [] } });
}

pub row-scanned : (rs : List EventRow) → map (λ x. x.row) (map scanned rs) ≡ rs
row-scanned [] = refl
row-scanned (r ∷ rs) = ap (◌∷◌ r) (row-scanned rs)

unfoldable server-IsEventDatabase : IsEventDatabase server
server-IsEventDatabase = record {
  normal = λ p. p;
  transactional = record {
    committed = λ d. d.committed;
    draft = λ d. d.draft;
    begin-keeps = λ d. refl;
    begin-draft = λ d h. refl;
    rollback-keeps = λ d. refl;
    commit-draft = λ d h. refl;
    commit-whole = λ d. inr refl;
  };
  select_stream-keeps = λ k d. refl;
  select_stream-eq = λ k d xs h.
      ap (map (λ x. x.row)) (complete-injective xs _ h)
      ∙ row-scanned (in_order k d.committed.events);
  select_head-keeps = λ k d. refl;
  select_head-eq = λ k d n h. (refl, sym (ok-injective h));
  insert_event-keeps = λ r d. refl;
  insert_event-eq = λ r d h. refl;
  insert_outbox-keeps = λ t p d. refl;
  insert_outbox-eq = λ t p d h. refl;
}

-- An event is a number, and its payload has that number alone.
abbrev ticks : MessageType ℕ
ticks = record { message_name = λ n. "ticked"; marshal = λ n. ok (n ∷ []) }

abbrev unmarshal : Payload → Result ℕ
unmarshal [] = err (failed "no number")
unmarshal (n ∷ ns) = ok n

abbrev registry : EventRegistry ℕ
registry = record { factories = ("ticked", unmarshal) ∷ []; upcasters = [] }

ticks-faithful :
    (n : ℕ) (p : Payload)
    → ticks.marshal n ≡ ok p
    → decode server registry ticks 1 (ticks.message_name n) (server-IsEventDatabase.normal p) ≡ ok n
unfolding decode lookup server-IsEventDatabase
ticks-faithful n p h = rw (← ok-injective h) refl

abbrev ticked_row : String → EventRow
ticked_row k = record {
  stream_id = k;
  version = 1;
  commit_id = 7;
  event_type = "ticked";
  payload = 5 ∷ [];
}

-- The streams a and b hold one event each, and the outbox the message of the first.
abbrev tables : Tables
tables = record {
  events = ticked_row "a" ∷ ticked_row "b" ∷ [];
  outbox = ("events.ticked", 5 ∷ []) ∷ [];
}

abbrev at_work : Server
at_work = record { committed = tables; draft = tables }

append-whole_example :
    let after = append server registry ticks 1 "a" 1 8 0 (6 ∷ 9 ∷ []) at_work in
    ((after.1.committed ≡ at_work.committed) × (after.0 ≢ ok tt))
    ⊎ HasAppended server server-IsEventDatabase registry ticks 1 "a" 1 8
        (6 ∷ 9 ∷ [])
        at_work
        after.1
unfolding append server-IsEventDatabase
append-whole_example =
    append-whole server server-IsEventDatabase registry ticks 1 "a" 1 8 0 (6 ∷ 9 ∷ []) at_work

postgres-IsEventStore_example : IsEventStore (postgres server registry ticks 1)
postgres-IsEventStore_example =
    postgres-IsEventStore server server-IsEventDatabase registry ticks 1 ticks-faithful
