-- ===== src/Examples/Requests.antt =====
-- Requests that come in over HTTP.
use cj_beer_company.Prelude.{String, List, [], ◌∷◌, ◌++◌, str_eq, if◌then◌else◌}
use cj_beer_company.Prelude.Int.{pos}
use cj_beer_company.Outcome.{Result, ok, err, not_found}
use cj_beer_company.Rest.{Principal, new_principal, role_sales_manager}
use cj_beer_company.Muflone.Registry.{Payload}
use cj_beer_company.Muflone.ServiceBus.{ServiceBus, MessageType}
use cj_beer_company.Sales.Commands.{SalesCommand, sales_command_name}
use cj_beer_company.Sales.Facade.{SalesOrderJson, Draws}
use cj_beer_company.Sales.Integration.{
  AllocationOutcomeHandler, on_allocation_completed, on_allocation_rejected,
}
use cj_beer_company.Sales.Integration.Handling.{
  Handling, as_allocated, as_rejected, on_allocation-Handling,
}
use cj_beer_company.Examples.Data.{codec}

-- One token is known, of a sales manager.
abbrev pub verify : String → Result Principal
verify token =
    if str_eq token "t" then ok (new_principal "ann" (role_sales_manager ∷ [])) else err not_found

abbrev pub Sent : Type 0
Sent = List (String × Payload)

abbrev pub bus : ServiceBus Sent
bus = record { publisher = λ topic payload sent. (ok tt, sent ++ (topic, payload) ∷ []) }

abbrev pub commands : MessageType SalesCommand
commands = record { message_name = sales_command_name; marshal = λ c. ok [] }

abbrev pub draws : Draws
draws = record { order = 1; customer = 2; commit = 3; now = 4 }

abbrev pub body : SalesOrderJson
body = record {
  id = "uu";
  sales_order_number = "2024-1";
  order_date = 0;
  customer_id = "";
  customer_name = "muflone";
  rows =
      record {
        beer_id = "uuu";
        beer_name = "ipa";
        quantity = record { value = pos 3; unit_of_measure = "Lt" };
        price = record { value = 5; currency = "EUR" };
      }
      ∷ [];
}

-- Every outcome message is read as that of the order 7.
abbrev outcomes : AllocationOutcomeHandler Sent
outcomes = record {
  bus = bus;
  commands = commands;
  unmarshal = λ payload.
      ok (record { commit_id = 1; sales_order_id = codec.to_string 7; reason = "short" });
}

on_allocation-Handling_example :
    Handling codec outcomes
      (as_allocated codec outcomes)
      []
      []
      (on_allocation_completed codec outcomes [] [])
    × Handling codec outcomes
        (as_rejected codec outcomes)
        []
        []
        (on_allocation_rejected codec outcomes [] [])
on_allocation-Handling_example = on_allocation-Handling codec outcomes [] []
