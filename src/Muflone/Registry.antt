-- ===== src/Muflone/Registry.antt =====
-- internal/muflone/registry.go: stored event types, and the upcasters between their versions.
pub mod Upcasting
use cj_beer_company.Prelude.{ℕ, zero, suc, String, Option, none, some, List, []}
use cj_beer_company.Outcome.{Result, ok, err, failed}
use cj_beer_company.Dict.{Dict, lookup, insert}

-- `[]byte`
abbrev pub Payload : Type 0
Payload = List ℕ

abbrev pub Upcaster : Type 0
Upcaster = Payload → Result (String × Payload)

pub record EventRegistry (E : Type 0) : Type 0 where
  pub factories : Dict (Payload → Result E)
  pub upcasters : Dict Upcaster

module _ {E : Type 0} where
  unfoldable pub new_event_registry : EventRegistry E
  new_event_registry = record { factories = []; upcasters = [] }

  -- The decoder is `json.Unmarshal` at the event's Go type, which the caller chooses.
  unfoldable pub register_event : String → (Payload → Result E) → EventRegistry E → EventRegistry E
  register_event message_name unmarshal registry = record registry {
    factories = insert message_name unmarshal registry.factories;
  }

  unfoldable pub register_upcaster : String → Upcaster → EventRegistry E → EventRegistry E
  register_upcaster event_name upcaster registry = record registry {
    upcasters = insert event_name upcaster registry.upcasters;
  }

  unfoldable pub rehydrate : EventRegistry E → String → Payload → Result E
  rehydrate registry event_name payload = elim (lookup event_name registry.factories) [
    | none ↦ err (failed "unknown event type")
    | some factory ↦ factory payload
  ]

  -- The loop on fuel; `none` means that the fuel ran out before a name without an upcaster.
  unfoldable pub deserialize : ℕ → EventRegistry E → String → Payload → Option (Result E)
  unfolding rehydrate
  deserialize zero registry event_name payload = none
  deserialize (suc fuel) registry event_name payload = elim (lookup event_name registry.upcasters) [
    | none ↦ some (rehydrate registry event_name payload)
    | some upcaster ↦ elim (upcaster payload) [
      | err e ↦ some (err e)
      | ok (new_name, new_payload) ↦ deserialize fuel registry new_name new_payload
    ]
  ]
