-- ===== src/Muflone/Aggregate.antt =====
-- internal/muflone/aggregate.go: the base of the event-sourced aggregates.
pub mod Replay
use cj_beer_company.Prelude.{ℕ, ◌+◌, List, [], ◌∷◌, ◌++◌}
use cj_beer_company.CustomTypes.{Uuid}

-- What a concrete aggregate binds: its zero value, and `Route`, which may call `SetID`.
pub record Router (St E : Type 0) : Type 0 where
  pub initial : St
  pub route : E → Uuid → St → Uuid × St

-- `version` counts the events in memory, so it stays far below the range of an `int`.
pub record AggregateRoot (St E : Type 0) : Type 0 where
  pub id : Uuid
  pub version : ℕ
  pub uncommitted : List E
  pub state : St

module _ {St E : Type 0} (r : Router St E) where
  -- the repository's factory
  unfoldable pub new_aggregate : AggregateRoot St E
  new_aggregate = record { id = 0; version = 0; uncommitted = []; state = r.initial }

  unfoldable pub apply_event : E → AggregateRoot St E → AggregateRoot St E
  apply_event e a =
      let (id', state') = r.route e a.id a.state in
      record a { id = id'; state = state'; version = a.version + 1 }

  unfoldable pub raise_event : E → AggregateRoot St E → AggregateRoot St E
  unfolding apply_event
  raise_event e a =
      let applied = apply_event e a in
      record applied { uncommitted = applied.uncommitted ++ e ∷ [] }

module _ {St E : Type 0} where
  unfoldable pub clear_uncommitted_events : AggregateRoot St E → AggregateRoot St E
  clear_uncommitted_events a = record a { uncommitted = [] }
