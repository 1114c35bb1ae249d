-- ===== src/Warehouses.antt =====
-- internal/warehouses: the stock of each beer, and the saga that allocates it to orders.
pub mod SharedKernel
pub mod Events
pub mod Commands
pub mod IntegrationEvents
pub mod Handlers
pub mod SagaHandler
pub mod ReadModel
pub mod Facade
pub mod PostgresReadModel
pub mod Registry
pub mod Availability
pub mod AllocationSaga
