-- ===== src/Lib.antt =====
-- Verification of CJ-BEER-COMPANY, a modular monolith of two event-sourced modules: Sales takes
-- orders, Warehouses allocates stock to them by a saga. Both stand on a small framework, Muflone.
--
-- How the parts interact. A command handler loads an aggregate through a repository, which replays
-- the aggregate's stream from the event store, calls one operation, which raises events, and saves;
-- the repository appends the events at the version that it read and publishes them. Sales publishes
-- that an order was created; the saga of Warehouses allocates the rows of the order one at a time by
-- commands to the stock, observes the events that answer them, and after a refusal gives back what
-- was allocated; its outcome comes back to Sales as a command that settles the order. Projections
-- write the read models from the events. A failing handler is called again by a retry middleware.
--
-- Which file models which part. Names are those of the program in snake case; a method is a function
-- that takes the object and returns it changed.
--   Outcome: the error values, results, and actions on a state that may fail (internal/muflone/errors.go)
--   Dict: Go maps with text keys; CustomTypes: internal/shared/customtypes/customtypes.go
--   Muflone.Message: internal/muflone/message.go
--   Muflone.Aggregate: internal/muflone/aggregate.go (AggregateRoot, RaiseEvent, ApplyEvent)
--   Muflone.EventStore: internal/muflone/eventstore.go (InMemoryEventStore: Append, ReadStream, Seed)
--   Muflone.Repository: internal/muflone/repository.go (GetByID, Save) over any event store; the
--     Contract module says what is relied on in a store, and that the in-memory store fulfils it
--   Muflone.Retry: internal/muflone/retry.go; Muflone.Registry: internal/muflone/registry.go
--   Muflone.ServiceBus: internal/muflone/servicebus.go, what is published under which topic
--   Muflone.Subscriptions: the rest of servicebus.go, and OnDeadLetter of deadletters.go
--   Muflone.Database: transactions and result sets, as internal/muflone uses database/sql
--   Muflone.PostgresEventStore: internal/muflone/postgres_eventstore.go (ReadStream, ListStreams,
--     Append); Table has the SQL of its queries, on the rows of a table
--   Muflone.Outbox, Muflone.DeadLetters: internal/muflone/outbox.go (DispatchPending, Run) and
--     deadletters.go (Save, RedriveDeadLetters), over the transaction that they share, Forwarding;
--     Outbox.Published composes the relay with the durable store
--   Warehouses.SharedKernel, Events, Commands, IntegrationEvents: internal/warehouses/sharedkernel
--   Warehouses.Availability: internal/warehouses/domain/availability.go, the stock of one beer
--   Warehouses.AllocationSaga: internal/warehouses/domain/order_allocation_saga.go
--   Warehouses.Handlers: internal/warehouses/domain/commandhandlers/handlers.go
--   Warehouses.SagaHandler with Steps and Recovery:
--     internal/warehouses/sagas/order_allocation_saga_handler.go
--   Sales.SharedKernel, Events, Commands: internal/sales/sharedkernel
--   Sales.SalesOrder: internal/sales/domain/sales_order.go
--   Sales.Handlers: internal/sales/domain/commandhandlers
--   Sales.ReadModel: internal/sales/readmodel (the in-memory service and the projections)
--     with Settled, the contract of a read model, and InMemory, the service behind it
--   Sales.PostgresReadModel, Warehouses.PostgresReadModel: postgres_sales_order_service.go of
--     internal/sales/readmodel/services and postgres_availability_service.go of
--     internal/warehouses/readmodel/services; Tables has the SQL of their statements
--   Sales.Integration: internal/sales/integration/allocation_outcome_handler.go
--   Sales.IntegrationEvents: internal/sales/sharedkernel/integrationevents, published by
--     internal/sales/module.go
--   Sales.Facade: internal/sales/facade.go, what a request for an order becomes
--   Warehouses.ReadModel: internal/warehouses/readmodel, and internal/warehouses/rebuild.go
--   Warehouses.Facade: internal/warehouses/facade.go
--   Rest: internal/rest/auth.go, bodyLimit of middleware.go, the statuses of respondError of
--     endpoints.go, and the Principal of internal/platform/auth/auth.go; Limiter: ipRateLimiter of
--     middleware.go; Query: pageOf; Facades: the facades behind the server; Endpoints: NewRouter
--   Platform.Config: internal/platform/config/config.go; Platform.Auth: internal/platform/auth/auth.go
--   App: internal/app/app.go, the options of the HTTP server; Wiring: Register of
--     internal/sales/module.go and internal/warehouses/module.go; Supervision: startSagaSupervision
--   Sales.Registry, Warehouses.Registry: NewEventRegistry of both modules
--   Sales.Rebuild: internal/sales/rebuild.go and its part of cmd/rebuild/main.go
--   Examples: small runs, and the theorems at concrete inputs.
--
-- How state is kept. An aggregate is its identity, version, uncommitted events and state. A handler
-- is an action on a World, the state of the event store beside that of the bus; what was done before
-- an error stays done. Ids that uuid.New draws and readings of the clock are arguments. A Go panic is
-- the error `panicked`, which the retry middleware never repeats. Go's int is an integer in two's complement of 64 bits, with its wrap-around
-- in the sums and differences of quantities; versions and attempts count what memory holds, and are
-- natural numbers. A float64 is its bit pattern.
--
-- The database. The server is an argument: one function for each SQL statement, and the beginning and
-- end of a transaction, over a state of its own. What is relied on is that a rollback undoes, that a
-- commit takes effect as a whole and that each statement does what its SQL says, for one session at a
-- time; a statement or a commit may fail at any time. The columns of the projections keep an
-- id, a date and a row in a form of their own: a uuid is found by its value and read as its canonical
-- text, whatever the text it was asked for by.
--
-- Bounds and fuel. The retry loop runs on thirteen rounds of fuel, the largest budget and one more,
-- and Deserialize on as many rounds as are given; Results says when each is enough. The other loops
-- are recursions on a list.
--
-- What stands outside. uuid parsing and printing are a UuidCodec, of which one law is assumed: what
-- was printed is parsed back. encoding/json, the verb %d of fmt and the message broker are arguments
-- of the definitions that use them. Logging, tracing and the locks of the in-memory services, each
-- held for a whole method, are left out. gin, which matches a path and binds a body, the token bucket
-- of x/time/rate, the token verifier of go-oidc, and the functions of strings, strconv and time that
-- parse a float64 or a duration and lower the case of a text are arguments too. Not modelled are the
-- transports, the router of watermill with its retries and its poison queue, metrics, telemetry,
-- and the construction and the start of the application.
pub mod Prelude
pub mod Outcome
pub mod Platform
pub mod Dict
pub mod CustomTypes
pub mod Muflone
pub mod Warehouses
pub mod Sales
pub mod Rest
pub mod App
pub mod Examples
