-- ===== src/Rest/Facades.antt =====
-- What internal/rest asks of the facades of the two modules, and the facades of internal/sales/facade.go
-- and internal/warehouses/facade.go that answer it.
use cj_beer_company.Prelude.{String, List}
use cj_beer_company.CustomTypes.{Uuid, UuidCodec, Page}
use cj_beer_company.Outcome.{Exec}
use cj_beer_company.Muflone.ServiceBus.{ServiceBus, MessageType}
use cj_beer_company.Sales.Commands.{SalesCommand}
use cj_beer_company.Sales.ReadModel.{SalesOrderDto}
use cj_beer_company.Sales.Facade.{SalesOrderJson, SalesOrderQueries, Draws, request_sales_order}
use cj_beer_company.Warehouses.Commands.{WarehouseCommand}
use cj_beer_company.Warehouses.ReadModel.{AvailabilityDto}
use cj_beer_company.Warehouses.Facade.{ProductionOrderJson, AvailabilityQueries, request_production}

-- W is what lies behind the facades.
pub record Facades (W : Type 0) : Type 0 where
  pub create_sales_order : Draws → SalesOrderJson → Exec W String
  pub get_sales_order : String → Exec W SalesOrderDto
  pub get_sales_orders : Page → Exec W (List SalesOrderDto)
  pub update_availability_due_to_production_order : Uuid → ProductionOrderJson → Exec W String
  pub get_availability : String → Exec W AvailabilityDto
  pub get_availabilities : Page → Exec W (List AvailabilityDto)

-- The read models of the modules, and the bus that they share.
pub record Modules (Q P B : Type 0) : Type 0 where
  pub sales : Q
  pub warehouses : P
  pub bus : B

module _ {Q P B A : Type 0} where
  abbrev pub on_sales : Exec Q A → Exec (Modules Q P B) A
  on_sales m w = let (r, s) = m w.sales in (r, record w { sales = s })

  abbrev pub on_warehouses : Exec P A → Exec (Modules Q P B) A
  on_warehouses m w = let (r, s) = m w.warehouses in (r, record w { warehouses = s })

  abbrev pub on_wire : Exec B A → Exec (Modules Q P B) A
  on_wire m w = let (r, s) = m w.bus in (r, record w { bus = s })

module _ {Q P B : Type 0} (uuids : UuidCodec) (bus : ServiceBus B)
    (sales_commands : MessageType SalesCommand) (warehouse_commands : MessageType WarehouseCommand)
    (orders : SalesOrderQueries Q) (stocks : AvailabilityQueries P) where
  -- NewFacade of both modules; the methods that read go through.
  unfoldable pub new_facades : Facades (Modules Q P B)
  unfolding request_sales_order request_production
  new_facades = record {
    create_sales_order =
        λ draws body. on_wire (request_sales_order uuids bus sales_commands draws body);
    get_sales_order = λ id. on_sales (orders.get_sales_order id);
    get_sales_orders = λ page. on_sales (orders.get_sales_orders page);
    update_availability_due_to_production_order =
        λ commit_id body. on_wire (request_production uuids bus warehouse_commands commit_id body);
    get_availability = λ beer_id. on_warehouses (stocks.get_availability beer_id);
    get_availabilities = λ page. on_warehouses (stocks.get_availabilities page);
  }
