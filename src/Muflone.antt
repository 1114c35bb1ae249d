-- ===== src/Muflone.antt =====
-- internal/muflone: the event-sourcing building blocks.
pub mod Message
pub mod Aggregate
pub mod EventStore
pub mod Repository
pub mod Retry
pub mod Registry
pub mod ServiceBus
pub mod Subscriptions
pub mod Database
pub mod PostgresEventStore
pub mod Forwarding
pub mod Outbox
pub mod DeadLetters
