-- ===== src/Sales/IntegrationEvents.antt =====
-- internal/sales/sharedkernel/integrationevents/sales_order_created.go, and the handler of
-- internal/sales/module.go that publishes it for each created order.
use cj_beer_company.Prelude.{String, List, map}
use cj_beer_company.Prelude.Int.{ℤ}
use cj_beer_company.CustomTypes.{Uuid, UuidCodec}
use cj_beer_company.Outcome.{Exec}
use cj_beer_company.Muflone.Message.{IntegrationEventBase, new_integration_event_base}
use cj_beer_company.Muflone.ServiceBus.{ServiceBus, MessageType, publish_integration_event}
use cj_beer_company.Sales.SharedKernel.{SalesOrderRowDto}
use cj_beer_company.Sales.Events.{SalesOrderCreated}

pub record SalesOrderCreatedRow : Type 0 where
  pub beer_id : String
  pub beer_name : String
  pub quantity : ℤ
  pub unit_of_measure : String

pub record OrderAnnounced : Type 0 where
  pub base : IntegrationEventBase
  pub sales_order_id : String
  pub rows : List SalesOrderCreatedRow

module _ (uuids : UuidCodec) where
  abbrev pub new_order_announced : Uuid → Uuid → List SalesOrderCreatedRow → OrderAnnounced
  new_order_announced sales_order_id commit_id rows = record {
    base = new_integration_event_base commit_id;
    sales_order_id = uuids.to_string sales_order_id;
    rows = rows;
  }

  abbrev pub announced_row : SalesOrderRowDto → SalesOrderCreatedRow
  announced_row row = record {
    beer_id = uuids.to_string row.beer_id.value;
    beer_name = row.beer_name.value;
    quantity = row.quantity.value;
    unit_of_measure = row.quantity.unit_of_measure;
  }

  -- the handler "sales.integration.sales_order_created"
  unfoldable pub announce_order :
      {B : Type 0} → ServiceBus B → MessageType OrderAnnounced → SalesOrderCreated → Exec B Unit
  unfolding publish_integration_event
  announce_order bus type event = publish_integration_event bus type (
      new_order_announced event.sales_order_id.value event.base.commit_id
        (map announced_row event.rows))
