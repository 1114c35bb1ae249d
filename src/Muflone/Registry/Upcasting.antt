-- ===== src/Muflone/Registry/Upcasting.antt =====
-- Chains of upcasters: they end where the versions are ordered, and each step composes.
use cj_beer_company.Prelude.{
  ℕ, zero, suc, ◌+◌, ◌<◌, String, ◌≡◌, ◌≢◌, refl, ◌∙◌, inl, inr, none, some, arith, Option-cases,
  eq_iff,
}
use cj_beer_company.Outcome.{Error, Result, ok, err, failed, Result-cases}
use cj_beer_company.Dict.{lookup, insert, lookup-insert, lookup-insert_self}
use cj_beer_company.Muflone.Registry.{
  Payload, Upcaster, EventRegistry, register_event, register_upcaster, rehydrate, deserialize,
}

module _ {E : Type 0} (registry : EventRegistry E) where
  -- Every upcaster leads to a name of lower rank: no cycle among the versions.
  abbrev pub IsRanked : (String → ℕ) → Type 0
  IsRanked rank =
      (name : String) (upcaster : Upcaster) (payload : Payload) (name' : String)
      (payload' : Payload)
      → lookup name registry.upcasters ≡ some upcaster
      → upcaster payload ≡ ok (name', payload')
      → rank name' < rank name

  pub deserialize-upcast :
      (fuel : ℕ) (name : String) (payload : Payload) {upcaster : Upcaster} {next : String × Payload}
      → lookup name registry.upcasters ≡ some upcaster
      → upcaster payload ≡ ok next
      → deserialize (suc fuel) registry name payload ≡ deserialize fuel registry next.0 next.1
  unfolding deserialize
  deserialize-upcast fuel name payload found stepped =
      rw (found, deserialize) (rw (stepped, deserialize) refl)

  -- What a stored payload stands for, by the chain of its upcasters: a name without an upcaster is
  -- decoded by its factory or unknown; an upcaster fails, or hands on a name and a payload.
  pub data StandsFor (r : Result E) : String → Payload → Type 0 where
    decoded :
        (name : String) (payload : Payload) (factory : Payload → Result E)
        → lookup name registry.upcasters ≡ none
        → lookup name registry.factories ≡ some factory
        → r ≡ factory payload
        → StandsFor r name payload
    unknown :
        (name : String) (payload : Payload)
        → lookup name registry.upcasters ≡ none
        → lookup name registry.factories ≡ none
        → r ≡ err (failed "unknown event type")
        → StandsFor r name payload
    broken :
        (name : String) (payload : Payload) (upcaster : Upcaster) (e : Error)
        → lookup name registry.upcasters ≡ some upcaster
        → upcaster payload ≡ err e
        → r ≡ err e
        → StandsFor r name payload
    upcast :
        (name : String) (payload : Payload) (upcaster : Upcaster) (name' : String)
        (payload' : Payload)
        → lookup name registry.upcasters ≡ some upcaster
        → upcaster payload ≡ ok (name', payload')
        → StandsFor r name' payload'
        → StandsFor r name payload

  rehydrate-StandsFor :
      (name : String) (payload : Payload)
      → lookup name registry.upcasters ≡ none
      → StandsFor (rehydrate registry name payload) name payload
  unfolding rehydrate
  rehydrate-StandsFor name payload missing = elim (Option-cases (lookup name registry.factories)) [
    | inl absent ↦ unknown name payload missing absent (rw (absent, rehydrate) refl)
    | inr (factory, found) ↦ decoded name payload factory missing found (rw (found, rehydrate) refl)
  ]

  deserialize-ranked :
      (rank : String → ℕ)
      → IsRanked rank
      → (fuel : ℕ) (name : String) (payload : Payload) → rank name < fuel
      → (r : Result E) × (deserialize fuel registry name payload ≡ some r)
        × StandsFor r name payload
  unfolding deserialize
  deserialize-ranked rank ranked zero name payload h = absurd (omega arith)
  deserialize-ranked rank ranked (suc fuel) name payload h =
      elim (Option-cases (lookup name registry.upcasters)) [
        | inl missing ↦ (
          rehydrate registry name payload,
          rw (missing, deserialize) refl,
          rehydrate-StandsFor name payload missing,
        )
        | inr (upcaster, found) ↦ elim (Result-cases (upcaster payload)) [
          | inl ((name', payload'), stepped) ↦
              let (r, e, chain) =
                deserialize-ranked rank ranked fuel name' payload'
                  (omega (arith, ranked name upcaster payload name' payload' found stepped)) in
              (
                r,
                deserialize-upcast fuel name payload found stepped ∙ e,
                upcast name payload upcaster name' payload' found stepped chain,
              )
          | inr (e, fails) ↦ (
            err e,
            rw (found, deserialize) (rw (fails, deserialize) refl),
            broken name payload upcaster e found fails refl,
          )
        ]
      ]

  -- Where the versions are ranked, Deserialize ends: as many rounds as the rank, and one more, are
  -- enough fuel, and the result is what the payload stands for by the chain of its upcasters, be it
  -- an event or the error of an upcaster or of the factory.
  pub deserialize-total :
      (rank : String → ℕ)
      → IsRanked rank
      → (name : String) (payload : Payload)
      → (r : Result E) × (deserialize (rank name + 1) registry name payload ≡ some r)
        × StandsFor r name payload
  deserialize-total rank ranked name payload =
      deserialize-ranked rank ranked (rank name + 1) name payload (omega arith)

module _ {E : Type 0} (registry : EventRegistry E) (old new : String) (upcaster : Upcaster)
    (unmarshal : Payload → Result E) where
  abbrev evolved : EventRegistry E
  unfolding register_upcaster register_event
  evolved = register_upcaster old upcaster (register_event new unmarshal registry)

  current_version :
      (payload : Payload)
      → old ≢ new
      → lookup new registry.upcasters ≡ none
      → deserialize 1 evolved new payload ≡ some (unmarshal payload)
  unfolding register_upcaster register_event deserialize rehydrate
  current_version payload distinct current =
      let e : lookup new (insert old upcaster registry.upcasters) ≡ none =
        lookup-insert old new upcaster registry.upcasters ∙ ground (arith, eq_iff old new) in
      rw (e, deserialize) (rw (lookup-insert_self new unmarshal registry.factories, rehydrate) refl)

  -- An old payload under a retired name is read as the new event: with an upcaster registered for
  -- the old name, and the new name registered with its decoder and without an upcaster, the result
  -- is the decoder's on the rewritten payload.
  pub deserialize-evolved :
      (payload payload' : Payload)
      → old ≢ new
      → lookup new registry.upcasters ≡ none
      → upcaster payload ≡ ok (new, payload')
      → deserialize 2
          (register_upcaster old upcaster (register_event new unmarshal registry))
          old
          payload
        ≡ some (unmarshal payload')
  unfolding register_upcaster register_event
  deserialize-evolved payload payload' distinct current stepped =
      deserialize-upcast evolved 1 old payload (lookup-insert_self old upcaster registry.upcasters)
        stepped
      ∙ current_version payload' distinct current
