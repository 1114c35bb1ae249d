-- ===== src/Warehouses/SharedKernel.antt =====
-- internal/warehouses/sharedkernel/customtypes.go
use cj_beer_company.Prelude.{String}
use cj_beer_company.CustomTypes.{Uuid}

pub record BeerId : Type 0 where
  pub value : Uuid

pub record BeerName : Type 0 where
  pub value : String
