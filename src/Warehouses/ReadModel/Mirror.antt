-- ===== src/Warehouses/ReadModel/Mirror.antt =====
-- The projection of a beer shows what the stock of the beer holds.
use cj_beer_company.Prelude.{
  ◌≡◌, refl, sym, ap, subst, ◌∙◌, Bool, true, false, ◌||◌, some, List, [], ◌∷◌, arith, str_eq, ◌==◌,
  eq_iff, if◌then◌else◌, Bool-cases, inl, inr, ◌⊎◌, foldl,
}
use cj_beer_company.CustomTypes.{Uuid, UuidCodec}
use cj_beer_company.Outcome.{ok}
use cj_beer_company.Dict.{lookup-insert, lookup-insert_self}
use cj_beer_company.Warehouses.Events.{
  WarehouseEvent, produced, beer_updated, quantity_not_found, compensated, allocation_started,
  step_succeeded, step_failed, step_compensated, allocation_completed, allocation_rejected,
}
use cj_beer_company.Warehouses.Availability.{Availability, route}
use cj_beer_company.Warehouses.ReadModel.{
  AvailabilityService, get_availability, project_availability,
}

-- An event of the stock of the beer.
abbrev pub is_about : Uuid → WarehouseEvent → Bool
is_about beer (produced e) = e.beer_id.value == beer
is_about beer (beer_updated e) = e.beer_id.value == beer
is_about beer (compensated e) = e.beer_id.value == beer
is_about beer (quantity_not_found e) = e.beer_id.value == beer
is_about beer _ = false

-- The history of one beer in a history of them all.
abbrev pub own : Uuid → List WarehouseEvent → List WarehouseEvent
own beer [] = []
own beer (e ∷ es) = if is_about beer e then e ∷ own beer es else own beer es

-- The event carries a quantity, which a refusal does not.
abbrev pub counts : WarehouseEvent → Bool
counts (produced e) = true
counts (beer_updated e) = true
counts (compensated e) = true
counts _ = false

abbrev pub any_counts : List WarehouseEvent → Bool
any_counts [] = false
any_counts (e ∷ es) = counts e || any_counts es

-- The state of the aggregate after further events.
abbrev pub route_all : List WarehouseEvent → Uuid × Availability → Uuid × Availability
route_all es p = foldl (λ q e. route e q.0 q.1) p es

module _ (uuids : UuidCodec) where
  abbrev pub project_all : List WarehouseEvent → AvailabilityService → AvailabilityService
  project_all es s = foldl (λ t e. project_availability uuids e t) s es

  -- The service shows the state under the id of the beer.
  abbrev pub Mirrors : Uuid → Availability → AvailabilityService → Type 0
  Mirrors beer a s =
      get_availability (uuids.to_string beer) s
      ≡ ok (record {
        beer_id = uuids.to_string beer;
        beer_name = a.beer_name.value;
        quantity = a.quantity;
      })

  to_string-ne :
      (u v : Uuid) → (u == v) ≡ false → str_eq (uuids.to_string u) (uuids.to_string v) ≡ false
  to_string-ne u v h = elim (Bool-cases (str_eq (uuids.to_string u) (uuids.to_string v))) [
    | inl same ↦
        let e : uuids.to_string u ≡ uuids.to_string v =
          ground (arith, same, eq_iff (uuids.to_string u) (uuids.to_string v)) in
        let p : some u ≡ some v =
          sym (uuids.parse-to_string u) ∙ ap uuids.parse e ∙ uuids.parse-to_string v in
        let q : u ≡ v = cc in absurd (ground (arith, h, q))
    | inr other ↦ other
  ]

  -- An event of another beer, or of no beer, leaves the projection of the beer alone.
  project-other :
      (beer : Uuid) (e : WarehouseEvent) (s : AvailabilityService)
      → is_about beer e ≡ false
      → get_availability (uuids.to_string beer) (project_availability uuids e s)
        ≡ get_availability (uuids.to_string beer) s
  unfolding get_availability project_availability
  project-other beer (produced e) s h = rw (lookup-insert, to_string-ne e.beer_id.value beer h) refl
  project-other beer (beer_updated e) s h =
      rw (lookup-insert, to_string-ne e.beer_id.value beer h) refl
  project-other beer (compensated e) s h =
      rw (lookup-insert, to_string-ne e.beer_id.value beer h) refl
  project-other beer _ s h = refl

  project-Mirrors :
      (beer : Uuid) (e : WarehouseEvent) (id : Uuid) (a : Availability) (s : AvailabilityService)
      → is_about beer e ≡ true
      → (counts e ≡ true) ⊎ Mirrors beer a s
      → Mirrors beer (route e id a).1 (project_availability uuids e s)
  unfolding get_availability project_availability route
  project-Mirrors beer (produced e) id a s of h =
      let same : e.beer_id.value ≡ beer = ground (arith, of) in
      rw (same, lookup-insert_self (uuids.to_string beer) _ s) refl
  project-Mirrors beer (beer_updated e) id a s of h =
      let same : e.beer_id.value ≡ beer = ground (arith, of) in
      elim (Bool-cases (str_eq e.sales_order_id "")) [
        | inl plain ↦ rw (same, plain, lookup-insert_self (uuids.to_string beer) _ s) refl
        | inr named ↦ rw (same, named, lookup-insert_self (uuids.to_string beer) _ s) refl
      ]
  project-Mirrors beer (compensated e) id a s of h =
      let same : e.beer_id.value ≡ beer = ground (arith, of) in
      rw (same, lookup-insert_self (uuids.to_string beer) _ s) refl
  project-Mirrors beer (quantity_not_found e) id a s of (inl h) = cc
  project-Mirrors beer (quantity_not_found e) id a s of (inr h) = h
  project-Mirrors beer (allocation_started e) id a s of h = cc
  project-Mirrors beer (step_succeeded e) id a s of h = cc
  project-Mirrors beer (step_failed e) id a s of h = cc
  project-Mirrors beer (step_compensated e) id a s of h = cc
  project-Mirrors beer (allocation_completed e) id a s of h = cc
  project-Mirrors beer (allocation_rejected e) id a s of h = cc

  Mirrors-own :
      (beer : Uuid) (es : List WarehouseEvent) (p : Uuid × Availability) (s : AvailabilityService)
      → (any_counts (own beer es) ≡ true) ⊎ Mirrors beer p.1 s
      → Mirrors beer (route_all (own beer es) p).1 (project_all es s)
  Mirrors-own beer [] p s (inl h) = cc
  Mirrors-own beer [] p s (inr h) = h
  Mirrors-own beer (e ∷ es) p s h = elim (Bool-cases (is_about beer e)) [
    | inr other ↦ rw other (
        Mirrors-own beer es p (project_availability uuids e s) (elim (rw other at h) [
          | inl later ↦ inl later
          | inr m ↦ inr (project-other beer e s other ∙ m)
        ]))
    | inl mine ↦ rw mine (
        Mirrors-own beer es (route e p.0 p.1) (project_availability uuids e s)
          (after (rw mine at h) mine (Bool-cases (counts e))))
  ]
    where
      after :
          (any_counts (e ∷ own beer es) ≡ true) ⊎ Mirrors beer p.1 s
          → is_about beer e ≡ true
          → (counts e ≡ true) ⊎ (counts e ≡ false)
          → (any_counts (own beer es) ≡ true)
            ⊎ Mirrors beer (route e p.0 p.1).1 (project_availability uuids e s)
      after h mine (inl now) = inr (project-Mirrors beer e p.0 p.1 s mine (inl now))
      after (inl later) mine (inr none_now) = inl (rw none_now at later)
      after (inr m) mine (inr none_now) = inr (project-Mirrors beer e p.0 p.1 s mine (inr m))

  -- However the events of many beers are interleaved, where those of a beer are projected in the order of
  -- its own stream, and one of them carries a quantity, the projection under the beer's id shows the
  -- name and the quantity that its aggregate has after that stream, whatever the service and the
  -- aggregate held before.
  pub project_all-Mirrors :
      (beer : Uuid) (stream es : List WarehouseEvent) (p : Uuid × Availability)
      (s : AvailabilityService)
      → own beer es ≡ stream
      → any_counts stream ≡ true
      → Mirrors beer (route_all stream p).1 (project_all es s)
  project_all-Mirrors beer stream es p s in_order counted =
      subst (λ own_events. Mirrors beer (route_all own_events p).1 (project_all es s)) in_order
        (Mirrors-own beer es p s (inl (rw (← in_order) at counted)))
