-- ===== src/Examples/Published.antt =====
-- One server holds the tables of the event store and of the relay: two events join a message that
-- waits in the outbox.
use cj_beer_company.Prelude.{
  ℕ, ◌+◌, ◌≡◌, refl, sym, ap, ◌∙◌, inr, none, List, [], ◌∷◌, ◌++◌, map, map-append, take, length,
  arith,
}
use cj_beer_company.Outcome.{ok, World, ok-injective}
use cj_beer_company.Muflone.Registry.{EventRegistry}
use cj_beer_company.Muflone.ServiceBus.{MessageType}
use cj_beer_company.Muflone.Database.{
  Transactions, IsTransactional, complete, complete-injective, scan_all,
}
use cj_beer_company.Muflone.Forwarding.{PendingMessage, PendingDatabase, forward_all}
use cj_beer_company.Muflone.Forwarding.Whole.{IsPendingDatabase, message_of}
use cj_beer_company.Muflone.Outbox.{first_batch, without, dispatch_pending, run}
use cj_beer_company.Muflone.Outbox.Published.{append-Published}
use cj_beer_company.Muflone.PostgresEventStore.{EventRow, inserted, EventDatabase, append}
use cj_beer_company.Muflone.PostgresEventStore.Table.{max_version, in_order}
use cj_beer_company.Muflone.PostgresEventStore.Appending.{Tables, IsEventDatabase, new_messages}
use cj_beer_company.Examples.Relay.{Sent, bus, wire}
use cj_beer_company.Examples.Server.{scanned, row-scanned}

-- `next` is the sequence that numbers the outbox.
record Contents : Type 0 where
  events : List EventRow
  outbox : List PendingMessage
  next : ℕ

record Server : Type 0 where
  committed : Contents
  draft : Contents

abbrev tables_of : Contents → Tables
tables_of t = record { events = t.events; outbox = map message_of t.outbox }

abbrev session : Transactions Server
session = record {
  begin = λ d. (ok tt, record d { draft = d.committed });
  commit = λ d. (ok tt, record d { committed = d.draft });
  rollback = λ d. record d { draft = d.committed };
}

abbrev viewed : {T : Type 0} → (Contents → T) → IsTransactional T session
viewed view = record {
  committed = λ d. view d.committed;
  draft = λ d. view d.draft;
  begin-keeps = λ d. refl;
  begin-draft = λ d h. refl;
  rollback-keeps = λ d. refl;
  commit-draft = λ d h. refl;
  commit-whole = λ d. inr refl;
}

abbrev event_tables : EventDatabase Server
event_tables = record {
  tx = session;
  select_stream = λ k d. (ok (complete (map scanned (in_order k d.committed.events))), d);
  select_streams = λ pattern d. (ok (complete []), d);
  select_head = λ k d. (ok (max_version k d.draft.events), d);
  insert_event =
      λ r d. (inserted, record d { draft = record d.draft { events = d.draft.events ++ r ∷ [] } });
  insert_outbox = λ t p d. (
    ok tt,
    record d {
      draft = record d.draft {
        outbox = d.draft.outbox ++ record { id = d.draft.next; topic = t; payload = p } ∷ [];
        next = d.draft.next + 1;
      };
    },
  );
}

unfoldable event_tables-law : IsEventDatabase event_tables
event_tables-law = record {
  normal = λ p. p;
  transactional = viewed tables_of;
  select_stream-keeps = λ k d. refl;
  select_stream-eq = λ k d xs h.
      ap (map (λ x. x.row)) (complete-injective xs _ h)
      ∙ row-scanned (in_order k d.committed.events);
  select_head-keeps = λ k d. refl;
  select_head-eq = λ k d n h. (refl, sym (ok-injective h));
  insert_event-keeps = λ r d. refl;
  insert_event-eq = λ r d h. refl;
  insert_outbox-keeps = λ t p d. refl;
  insert_outbox-eq = λ t p d h. rw (map-append message_of d.draft.outbox) refl;
}

abbrev outbox_table : PendingDatabase Server
outbox_table = record {
  tx = session;
  select_pending = λ d. (ok (complete (first_batch d.draft.outbox)), d);
  settle =
      λ i d. (ok tt, record d { draft = record d.draft { outbox = without i d.draft.outbox } });
}

unfoldable outbox_table-law : IsPendingDatabase first_batch without outbox_table
outbox_table-law = record {
  transactional = viewed (λ t. t.outbox);
  select-keeps = λ d. refl;
  select-eq = λ d xs h. (complete-injective xs _ h, refl);
  settle-keeps = λ i d. refl;
  settle-eq = λ i d h. refl;
}

scan_all-map : (xs : List PendingMessage) → scan_all (map ok xs) none ≡ ok xs
unfolding scan_all
scan_all-map [] = refl
scan_all-map (x ∷ xs) = rw (scan_all-map xs) refl

forward_all-succeeds :
    (rows : List PendingMessage) (w : World Server Sent)
    → (forward_all bus outbox_table rows w).0 ≡ ok tt
unfolding forward_all
forward_all-succeeds [] w = refl
forward_all-succeeds (row ∷ rows) w = forward_all-succeeds rows _

dispatch_pending-succeeds :
    (w : World Server Sent) → (n : ℕ) × ((dispatch_pending bus outbox_table w).0 ≡ ok n)
unfolding dispatch_pending
dispatch_pending-succeeds w =
    let rows = take 100 w.store.committed.outbox in
    let start : World Server Sent = record w {
      store = record w.store { draft = w.store.committed };
    } in
    (length rows, rw (scan_all-map rows, forward_all-succeeds rows start) refl)

abbrev ticks : MessageType ℕ
ticks = record { message_name = λ n. "ticked"; marshal = λ n. ok (n ∷ []) }

abbrev registry : EventRegistry ℕ
registry = record { factories = []; upcasters = [] }

abbrev one_waiting : World Server Sent
one_waiting =
    let rows : Contents = record {
      events = [];
      outbox = record { id = 4; topic = "events.opened"; payload = [] } ∷ [];
      next = 5;
    } in
    record { store = record { committed = rows; draft = rows }; bus = [] }

append-Published_example :
    let w1 = record one_waiting {
      store = (append event_tables registry ticks 1 "a" 0 8 0 (6 ∷ 9 ∷ []) one_waiting.store).1;
    } in
    let w2 = run bus outbox_table 1 w1 in
    (w2.bus ≡ ("events.opened", []) ∷ ("events.ticked", 6 ∷ []) ∷ ("events.ticked", 9 ∷ []) ∷ [])
    × (w2.store.committed.outbox ≡ [])
unfolding append event_tables-law outbox_table-law max_version new_messages
append-Published_example =
    append-Published event_tables event_tables-law bus wire outbox_table outbox_table-law
      (λ d. refl) registry ticks 1 dispatch_pending-succeeds "a" 0 8 0 (6 ∷ 9 ∷ []) one_waiting refl
      1 (omega arith) (omega arith)
