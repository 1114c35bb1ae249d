-- ===== src/Sales.antt =====
-- internal/sales: the orders of the customers.
pub mod SharedKernel
pub mod Events
pub mod Commands
pub mod SalesOrder
pub mod Handlers
pub mod ReadModel
pub mod PostgresReadModel
pub mod Registry
pub mod Rebuild
pub mod Integration
pub mod Facade
pub mod IntegrationEvents
