-- ===== src/Examples/Runner.antt =====
-- An order of two beers that reaches the saga, over the in-memory store and a list of what was sent.
use cj_beer_company.Prelude.{String, ◌≡◌, refl, none, some, List, [], ◌∷◌, ◌++◌}
use cj_beer_company.Outcome.{ok, err, World}
use cj_beer_company.Dict.{lookup, insert}
use cj_beer_company.Muflone.Aggregate.{clear_uncommitted_events}
use cj_beer_company.Muflone.Aggregate.Replay.{
  IsSourced, new_aggregate-IsSourced, raise_event-IsSourced,
}
use cj_beer_company.Muflone.EventStore.{
  InMemoryEventStore, new_in_memory_event_store, in_memory, list_streams, stream_of, read_stream,
  append,
}
use cj_beer_company.Muflone.Registry.{Payload}
use cj_beer_company.Muflone.Repository.{Repository, stream, get_by_id, save}
use cj_beer_company.Muflone.Repository.Contract.{in_memory-IsEventStore}
use cj_beer_company.Muflone.Repository.RoundTrip.{get_by_id-save}
use cj_beer_company.Muflone.Repository.Known.{IsReadable}
use cj_beer_company.Warehouses.Events.{WarehouseEvent, new_order_allocation_started}
use cj_beer_company.Warehouses.Commands.{command_name}
use cj_beer_company.Warehouses.IntegrationEvents.{outcome_name}
use cj_beer_company.Warehouses.AllocationSaga.{
  OrderAllocationSaga, Aggregate, saga_stream_name, router, start_order_allocation,
  new_order_allocation_saga,
}
use cj_beer_company.Warehouses.SagaHandler.{SagaHandler}
use cj_beer_company.Warehouses.SagaHandler.Steps.{
  on_sales_order_created, load, on_beer_availability_updated,
}
use cj_beer_company.Warehouses.SagaHandler.Steps.Redelivery.{IsIdle, on_sales_order_created-again}
use cj_beer_company.Muflone.Message.{new_domain_event_base}
use cj_beer_company.Warehouses.AllocationSaga.Invariant.{
  IsConsistent, start_order_allocation-IsConsistent,
}
use cj_beer_company.Warehouses.SagaHandler.Steps.Answers.{
  Answer, updated, on_answer, on_answer-again,
}
use cj_beer_company.Examples.Data.{codec, two_rows, two_row_saga, three_litres}

-- The topics and the payloads that were sent.
abbrev Sent : Type 0
Sent = List (String × Payload)

abbrev Store : Type 0
Store = InMemoryEventStore WarehouseEvent

abbrev repository : Repository OrderAllocationSaga WarehouseEvent Store Sent
repository = record {
  store = in_memory;
  router = router;
  stream_name = saga_stream_name;
  publisher = none;
}

-- Every payload is read as the order of two beers, and messages are written without content.
abbrev handler : SagaHandler Store Sent
handler = record {
  repository = repository;
  store = in_memory;
  list_streams = some list_streams;
  bus = record { publisher = λ topic payload sent. (ok tt, sent ++ (topic, payload) ∷ []) };
  commands = record { message_name = command_name; marshal = λ c. ok [] };
  outcomes = record { message_name = outcome_name; marshal = λ e. ok [] };
  unmarshal =
      λ payload. ok (record { commit_id = 1; sales_order_id = codec.to_string 7; rows = two_rows });
  format_int = λ n. "";
}

abbrev at_start : World Store Sent
at_start = record { store = new_in_memory_event_store; bus = [] }

always-IsReadable : IsReadable (in_memory {E = WarehouseEvent})
unfolding read_stream
always-IsReadable k s = (stream_of k s, refl)

on_sales_order_created-again_example :
    IsIdle codec handler in_memory-IsEventStore
      (on_sales_order_created codec handler 20 100 [] at_start).1
      (on_sales_order_created codec handler 21 200 []
        (on_sales_order_created codec handler 20 100 [] at_start).1)
unfolding on_sales_order_created read_stream lookup new_in_memory_event_store append
on_sales_order_created-again_example =
    on_sales_order_created-again codec handler in_memory-IsEventStore always-IsReadable 20 21 100
      200 [] at_start refl

abbrev saved : World Store Sent
saved = (save codec repository two_row_saga 20 100 at_start).1

two_row_saga-IsSourced :
    IsSourced router
      (in_memory-IsEventStore.view (stream codec repository 7) at_start.store)
      two_row_saga
unfolding start_order_allocation new_order_allocation_saga in_memory-IsEventStore stream_of
    new_in_memory_event_store lookup
two_row_saga-IsSourced =
    raise_event-IsSourced router [] (new_order_allocation_started codec 7 1 two_rows)
      new_order_allocation_saga (new_aggregate-IsSourced router)

abbrev saved_saga : Aggregate
saved_saga = clear_uncommitted_events two_row_saga

abbrev loaded_saga : Aggregate
loaded_saga = elim (get_by_id codec repository 7 saved).0 [ ok t ↦ t | err e ↦ two_row_saga ]

get_by_id-save_example : loaded_saga ≡ saved_saga
unfolding save read_stream lookup new_in_memory_event_store append start_order_allocation get_by_id
    insert
get_by_id-save_example =
    get_by_id-save codec repository in_memory-IsEventStore two_row_saga 20 100 at_start
      {a' = saved_saga} {b = loaded_saga} two_row_saga-IsSourced refl refl

-- The stock of the first beer is held for the order.
abbrev first_held : Answer
first_held = updated (record {
  base = new_domain_event_base 1 2;
  beer_id = record { value = 1 };
  beer_name = record { value = "ipa" };
  quantity = three_litres;
  sales_order_id = codec.to_string 7;
})

saved_saga-IsConsistent : IsConsistent codec saved_saga
unfolding clear_uncommitted_events start_order_allocation
saved_saga-IsConsistent =
    let started = (start_order_allocation-IsConsistent codec 7 1 two_rows).0 in
    record { fits = started.fits; named = started.named }

on_answer-again_example :
    IsIdle codec handler in_memory-IsEventStore
      (on_answer codec handler 21 200 first_held saved).1
      (on_answer codec handler 22 300 first_held
        (on_answer codec handler 21 200 first_held saved).1)
unfolding save read_stream lookup new_in_memory_event_store append start_order_allocation get_by_id
    insert load on_beer_availability_updated
on_answer-again_example =
    on_answer-again codec handler in_memory-IsEventStore refl always-IsReadable 21 22 200 300
      first_held saved_saga saved refl refl saved_saga-IsConsistent refl
