-- ===== src/Muflone/Repository.antt =====
-- internal/muflone/repository.go: aggregates loaded from, and saved to, an event store.
pub mod Contract
pub mod RoundTrip
pub mod Known
use cj_beer_company.Prelude.{ℕ, ◌-◌, String, Option, none, some, List, [], ◌∷◌, foldl, length}
use cj_beer_company.CustomTypes.{Uuid, UuidCodec, Time}
use cj_beer_company.Outcome.{
  Exec, World, pure, raise, on_store, on_bus, ◌>>=◌, ◌>>◌, aggregate_not_found,
}
use cj_beer_company.Muflone.Aggregate.{
  Router, AggregateRoot, new_aggregate, apply_event, clear_uncommitted_events,
}
use cj_beer_company.Muflone.EventStore.{StoredEvent, EventStore}
use Prim.Native.String.{◌++◌ as ◌<>◌}

-- EventStoreRepository: `router` stands for the factory; the publisher is nil in durable mode.
pub record Repository (St E S B : Type 0) : Type 0 where
  pub store : EventStore S E
  pub router : Router St E
  pub stream_name : String
  pub publisher : Option (E → Exec B Unit)

unfoldable pub stream_id : String → String → String
stream_id stream_name id = stream_name <> ("-" <> id)

module _ {St E S B : Type 0} (uuids : UuidCodec) (repo : Repository St E S B) where
  unfoldable pub stream : Uuid → String
  unfolding stream_id
  stream id = stream_id repo.stream_name (uuids.to_string id)

  unfoldable pub rebuild : List (StoredEvent E) → Exec (World S B) (AggregateRoot St E)
  rebuild [] = raise aggregate_not_found
  rebuild (x ∷ xs) = pure (
      foldl (λ a record_. apply_event repo.router record_.event a) (new_aggregate repo.router)
        (x ∷ xs))

  unfoldable pub get_by_id : Uuid → Exec (World S B) (AggregateRoot St E)
  unfolding rebuild stream
  get_by_id id = do stored ← on_store (repo.store.read_stream (stream id)); rebuild stored

  -- the loop over the publisher
  unfoldable pub publish_all : Option (E → Exec B Unit) → List E → Exec (World S B) Unit
  publish_all none es = pure tt
  publish_all (some publish) [] = pure tt
  publish_all (some publish) (e ∷ es) = on_bus (publish e) >> publish_all (some publish) es

  save_events : List E → AggregateRoot St E → Uuid → Time → Exec (World S B) (AggregateRoot St E)
  unfolding publish_all stream clear_uncommitted_events
  save_events [] a commit_id now = pure a
  save_events (e ∷ es) a commit_id now = do
    on_store (repo.store.append (stream a.id) (a.version - length (e ∷ es)) commit_id now (e ∷ es))
    publish_all repo.publisher (e ∷ es)
    pure (clear_uncommitted_events a)

  -- The caller's aggregate comes back as Save leaves it. Every raise counts in `version` and in
  -- `uncommitted`, so the difference is that of the source.
  unfoldable pub save : AggregateRoot St E → Uuid → Time → Exec (World S B) (AggregateRoot St E)
  unfolding save_events
  save a commit_id now = save_events a.uncommitted a commit_id now
