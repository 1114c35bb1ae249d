-- ===== src/Muflone/Repository/Known.antt =====
-- GetByID finds exactly the aggregates that have events.
use cj_beer_company.Prelude.{◌≤◌, String, ◌≡◌, refl, ◌∙◌, List, [], ◌∷◌, arith, length}
use cj_beer_company.CustomTypes.{Uuid, UuidCodec}
use cj_beer_company.Outcome.{Result, ok, err, World, continue, continue-eq_ok}
use cj_beer_company.Muflone.Aggregate.{AggregateRoot}
use cj_beer_company.Muflone.EventStore.{StoredEvent, EventStore}
use cj_beer_company.Muflone.EventStore.Versions.{events_of}
use cj_beer_company.Muflone.Repository.{Repository, stream, rebuild, get_by_id}
use cj_beer_company.Muflone.Repository.Contract.{IsEventStore}

-- No read of the store fails.
abbrev pub IsReadable : {S E : Type 0} → EventStore S E → Type 0
IsReadable {S} {E} store =
    (k : String) (s : S) → (x : List (StoredEvent E)) × ((store.read_stream k s).0 ≡ ok x)

module _ {St E S B : Type 0} (uuids : UuidCodec) (repo : Repository St E S B) where
  rebuild-bus :
      (stored : List (StoredEvent E)) (w : World S B) → (rebuild uuids repo stored w).1.bus ≡ w.bus
  unfolding rebuild
  rebuild-bus [] w = refl
  rebuild-bus (x ∷ xs) w = refl

  -- Loading sends nothing.
  pub get_by_id-bus : (id : Uuid) (w : World S B) → (get_by_id uuids repo id w).1.bus ≡ w.bus
  unfolding get_by_id
  get_by_id-bus id w = rest (repo.store.read_stream (stream uuids repo id) w.store).0 _ refl
    where
      rest :
          (r : Result (List (StoredEvent E))) (w' : World S B)
          → w'.bus ≡ w.bus
          → (continue r (rebuild uuids repo) w').1.bus ≡ w.bus
      rest (ok x) w' e = rebuild-bus x w' ∙ e
      rest (err e) w' h = h

  rebuild-found :
      (stored : List (StoredEvent E)) (w : World S B)
      → 1 ≤ length (events_of stored)
      → (a : AggregateRoot St E) × ((rebuild uuids repo stored w).0 ≡ ok a)
  unfolding rebuild
  rebuild-found [] w le = absurd (omega (arith, le))
  rebuild-found (x ∷ xs) w le = (_, refl)

  found-rebuild :
      (stored : List (StoredEvent E)) (w : World S B) {a : AggregateRoot St E}
      → (rebuild uuids repo stored w).0 ≡ ok a
      → 1 ≤ length (events_of stored)
  unfolding rebuild
  found-rebuild [] w h = cc
  found-rebuild (x ∷ xs) w h = omega arith

  module _ (law : IsEventStore repo.store) where
    -- An aggregate that is found has events.
    pub length-get_by_id :
        (id : Uuid) (w : World S B) {a : AggregateRoot St E}
        → (get_by_id uuids repo id w).0 ≡ ok a
        → 1 ≤ length (law.view (stream uuids repo id) w.store)
    unfolding get_by_id
    length-get_by_id id w h =
        let (stored, read, built) =
          continue-eq_ok (repo.store.read_stream (stream uuids repo id) w.store).0 _ _ h in
        rw (← law.read-eq _ w.store stored read) (found-rebuild stored _ built)

    -- An aggregate that has events is found.
    pub get_by_id-found :
        (id : Uuid) (w : World S B)
        → IsReadable repo.store
        → 1 ≤ length (law.view (stream uuids repo id) w.store)
        → (a : AggregateRoot St E) × ((get_by_id uuids repo id w).0 ≡ ok a)
    unfolding get_by_id
    get_by_id-found id w readable le =
        let (stored, read) = readable (stream uuids repo id) w.store in
        let le' : 1 ≤ length (events_of stored) = rw (law.read-eq _ w.store stored read) le in
        rw read (rebuild-found stored _ le')
