-- ===== src/Muflone/Outbox/Published.antt =====
-- Where internal/muflone/postgres_eventstore.go and outbox.go meet: Append writes to the table outbox
-- what the relay publishes.
use cj_beer_company.Prelude.{ℕ, ◌*◌, ◌≤◌, String, ◌≡◌, ap, ◌∙◌, List, [], ◌++◌, map, length}
use cj_beer_company.CustomTypes.{Uuid, Time}
use cj_beer_company.Outcome.{ok, World}
use cj_beer_company.Muflone.Registry.{EventRegistry}
use cj_beer_company.Muflone.ServiceBus.{MessageType, ServiceBus}
use cj_beer_company.Muflone.Forwarding.{PendingMessage, PendingDatabase}
use cj_beer_company.Muflone.Forwarding.Whole.{IsPublisher, IsPendingDatabase, message_of}
use cj_beer_company.Muflone.Outbox.{first_batch, without, dispatch_pending, run}
use cj_beer_company.Muflone.Outbox.Delivery.{IsAscending, run-drains}
use cj_beer_company.Muflone.PostgresEventStore.{EventDatabase, append}
use cj_beer_company.Muflone.PostgresEventStore.Appending.{
  Tables, IsEventDatabase, new_messages, extended,
}
use cj_beer_company.Muflone.PostgresEventStore.Contract.{append-HasAppended}

-- One server for both, where the messages of Append are the rows of the relay without their ids.
module _ {D B E : Type 0} (db : EventDatabase D) (law : IsEventDatabase db) (bus : ServiceBus B)
    (wire : IsPublisher bus) (outbox : PendingDatabase D)
    (waiting : IsPendingDatabase first_batch without outbox)
    (shared : (d : D)
      → map message_of (waiting.transactional.committed d) ≡ (law.transactional.committed d).outbox)
    (registry : EventRegistry E) (type : MessageType E) (rounds : ℕ) where
  -- The world once the Append is done, with its outbox.
  abbrev after_append : String → ℕ → Uuid → Time → List E → World D B → World D B
  after_append k n c now es w = record w {
    store = (append db registry type rounds k n c now es w.store).1;
  }

  abbrev table_of : World D B → List PendingMessage
  table_of w = waiting.transactional.committed w.store

  -- The events that an Append to the durable store took are published once each, in their order and
  -- after the messages that waited before them, by a relay whose dispatches do not fail and that runs
  -- for a tick per hundred messages; the outbox is empty then. The ids of the outbox are distinct.
  pub append-Published :
      ((w : World D B) → (n : ℕ) × ((dispatch_pending bus outbox w).0 ≡ ok n))
      → (k : String) (n : ℕ) (c : Uuid) (now : Time) (es : List E) (w : World D B)
      → (append db registry type rounds k n c now es w.store).0 ≡ ok tt
      → (ticks : ℕ) → IsAscending (table_of (after_append k n c now es w))
      → length (table_of (after_append k n c now es w)) ≤ 100 * ticks
      → let w' = run bus outbox ticks (after_append k n c now es w) in
        (wire.sent w'.bus
          ≡ wire.sent w.bus
            ++ ((law.transactional.committed w.store).outbox
                ++ new_messages db law registry type rounds es))
        × (table_of w' ≡ [])
  unfolding extended
  append-Published healthy k n c now es w taken ticks keyed enough =
      let w1 = after_append k n c now es w in
      let (head, written) =
        append-HasAppended db law registry type rounds k n c now es w.store taken in
      let (empty, sent) = run-drains bus wire outbox waiting healthy ticks w1 keyed enough in
      (
        sent
            ∙ ap (◌++◌ (wire.sent w.bus)) (shared w1.store ∙ ap (λ (t : Tables). t.outbox) written),
        empty,
      )
