-- ===== src/Examples/Muflone.antt =====
-- Streams, retries and upcasters on concrete data.
use cj_beer_company.Prelude.{
  ℕ, String, ◌+◌, ◌*◌, ◌^◌, ◌≤◌, ◌<◌, ◌≡◌, false, some, [], ◌∷◌, length, if◌then◌else◌, ltb, str_eq,
  eq_iff, Bool-cases, inl, inr, none, refl, sym, ap, subst, ◌∙◌, arith,
}
use cj_beer_company.Prelude.Int.{pos}
use cj_beer_company.Outcome.{Result, ok, err, Exec, concurrency, ok-injective}
use cj_beer_company.Dict.{lookup, lookup-insert}
use cj_beer_company.Muflone.EventStore.{
  InMemoryEventStore, new_in_memory_event_store, append, stream_of,
}
use cj_beer_company.Muflone.EventStore.Versions.{IsWellNumbered, append-IsWellNumbered}
use cj_beer_company.Muflone.Retry.{
  retry_backoff, base_retry_interval, max_retry_interval, retry_middleware,
}
use cj_beer_company.Muflone.Retry.Bounds.{HasEnded, retry_middleware-HasEnded}
use cj_beer_company.Muflone.Retry.Backoff.{retry_backoff_lem}
use cj_beer_company.Muflone.Registry.{
  Payload, Upcaster, EventRegistry, new_event_registry, register_event, register_upcaster,
  deserialize,
}
use cj_beer_company.Muflone.Registry.Upcasting.{IsRanked, StandsFor, deserialize-total}

-- Events are numbers here.
abbrev blank : InMemoryEventStore ℕ
blank = new_in_memory_event_store

abbrev one_stream : InMemoryEventStore ℕ
one_stream = (append "a" 0 1 5 (10 ∷ 11 ∷ []) blank).1

blank-IsWellNumbered : IsWellNumbered blank
unfolding new_in_memory_event_store stream_of lookup
blank-IsWellNumbered j = tt

append-IsWellNumbered_example : IsWellNumbered one_stream
append-IsWellNumbered_example =
    append-IsWellNumbered "a" 0 1 5 (10 ∷ 11 ∷ []) blank blank-IsWellNumbered

-- A handler that conflicts until its third call.
abbrev third_time : Exec ℕ ℕ
third_time n = (if ltb n 2 then err concurrency else ok n, n + 1)

retry_middleware-HasEnded_example :
    HasEnded third_time (λ n. false) 0 0 (retry_middleware third_time (λ n. false) 0)
retry_middleware-HasEnded_example = retry_middleware-HasEnded third_time (λ n. false) 0

retry_backoff_lem_example :
    (4 < 5 → retry_backoff 4 ≡ pos (base_retry_interval * 2 ^ 4))
    × (5 ≤ 4 → retry_backoff 4 ≡ max_retry_interval)
retry_backoff_lem_example = retry_backoff_lem 4

-- Version 1 of an event becomes version 2.
abbrev to_second : Upcaster
to_second payload = ok ("order.v2", 0 ∷ payload)

abbrev decode : Payload → Result ℕ
decode payload = ok (length payload)

abbrev current : EventRegistry ℕ
unfolding register_event register_upcaster
current =
    register_upcaster "order.v1" to_second (register_event "order.v2" decode new_event_registry)

abbrev version_rank : String → ℕ
version_rank name = if str_eq name "order.v1" then 1 else 0

current-IsRanked : IsRanked current version_rank
unfolding register_event register_upcaster new_event_registry lookup
current-IsRanked name upcaster payload name' payload' found stepped =
    elim (Bool-cases (str_eq "order.v1" name)) [
      | inr other ↦
          let missing : lookup name current.upcasters ≡ none =
            lookup-insert "order.v1" name to_second [] ∙ rw other refl in
          cc (missing, found)
      | inl same ↦
          let there : lookup name current.upcasters ≡ some to_second =
            lookup-insert "order.v1" name to_second [] ∙ rw same refl in
          let is : upcaster ≡ to_second = cc (there, found) in
          let next : ("order.v2", 0 ∷ payload) ≡ (name', payload') =
            ok-injective (ap (λ u. u payload) (sym is) ∙ stepped) in
          let old : "order.v1" ≡ name = (eq_iff "order.v1" name).0 same in
          subst (λ n. version_rank name' < version_rank n) old
            (subst (λ n. version_rank n < 1) (ap (λ p. p.0) next) (omega arith))
    ]

deserialize-total_example :
    (r : Result ℕ) × (deserialize 2 current "order.v1" (9 ∷ []) ≡ some r)
    × StandsFor current r "order.v1" (9 ∷ [])
deserialize-total_example =
    deserialize-total current version_rank current-IsRanked "order.v1" (9 ∷ [])
