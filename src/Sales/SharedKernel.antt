-- ===== src/Sales/SharedKernel.antt =====
-- internal/sales/sharedkernel/customtypes.go
use cj_beer_company.Prelude.{String}
use cj_beer_company.CustomTypes.{Uuid, Time, Quantity, Price}

pub record SalesOrderId : Type 0 where
  pub value : Uuid

pub record SalesOrderNumber : Type 0 where
  pub value : String

pub record OrderDate : Type 0 where
  pub value : Time

pub record CustomerId : Type 0 where
  pub value : Uuid

pub record CustomerName : Type 0 where
  pub value : String

pub record BeerId : Type 0 where
  pub value : Uuid

pub record BeerName : Type 0 where
  pub value : String

pub record SalesOrderRowDto : Type 0 where
  pub beer_id : BeerId
  pub beer_name : BeerName
  pub quantity : Quantity
  pub price : Price
