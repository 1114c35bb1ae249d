-- ===== src/Muflone/EventStore/Versions.antt =====
-- The streams of the in-memory store: numbered 1, 2, 3, …, and changed by one writer at a time.
use cj_beer_company.Prelude.{
  ℕ, suc, ◌+◌, String, ◌≡◌, ◌≢◌, refl, ap, inl, inr, List, [], ◌∷◌, ◌++◌, map, arith, length,
  length-append, str_eq, eq_refl, if◌then◌else◌, Bool-cases,
}
use native.Mathlib.Decide.{ℕ_discrete}
use cj_beer_company.CustomTypes.{Uuid, Time}
use cj_beer_company.Outcome.{ok, err, concurrency}
use cj_beer_company.Dict.{insert, lookup-insert}
use cj_beer_company.Muflone.EventStore.{StoredEvent, InMemoryEventStore, stream_of, stamp, append}

module _ {E : Type 0} where
  abbrev pub events_of : List (StoredEvent E) → List E
  events_of = map (λ x. x.event)

  -- The versions of the stream go on from `n`, without a gap.
  abbrev pub IsNumbered : ℕ → List (StoredEvent E) → Type 0
  IsNumbered n [] = Unit
  IsNumbered n (x ∷ xs) = (x.version ≡ n + 1) × IsNumbered (n + 1) xs

  IsNumbered-append :
      (n : ℕ) (xs ys : List (StoredEvent E))
      → IsNumbered n xs
      → IsNumbered (n + length xs) ys
      → IsNumbered n (xs ++ ys)
  IsNumbered-append n [] ys hx hy = let e : n + 0 ≡ n = omega arith in rw e at hy
  IsNumbered-append n (x ∷ xs) ys hx hy =
      let e : n + suc (length xs) ≡ n + 1 + length xs = omega arith in
      (hx.0, IsNumbered-append (n + 1) xs ys hx.1 (rw e at hy))

  stamp-IsNumbered :
      (k : String) (expected : ℕ) (c : Uuid) (now : Time) (i n : ℕ) (es : List E)
      → expected + i ≡ n
      → IsNumbered n (stamp k expected c now i es)
  unfolding stamp
  stamp-IsNumbered k expected c now i n [] h = tt
  stamp-IsNumbered k expected c now i n (e ∷ es) h =
      (omega arith, stamp-IsNumbered k expected c now (i + 1) (n + 1) es (omega arith))

  pub events_of-stamp :
      (k : String) (expected : ℕ) (c : Uuid) (now : Time) (i : ℕ) (es : List E)
      → events_of (stamp k expected c now i es) ≡ es
  unfolding stamp
  events_of-stamp k expected c now i [] = refl
  events_of-stamp k expected c now i (e ∷ es) =
      ap (◌∷◌ e) (events_of-stamp k expected c now (i + 1) es)

  pub length-stamp :
      (k : String) (expected : ℕ) (c : Uuid) (now : Time) (i : ℕ) (es : List E)
      → length (stamp k expected c now i es) ≡ length es
  unfolding stamp
  length-stamp k expected c now i [] = refl
  length-stamp k expected c now i (e ∷ es) = ap suc (length-stamp k expected c now (i + 1) es)

  pub stream_of-insert :
      (k j : String) (stream : List (StoredEvent E)) (s : InMemoryEventStore E) (es : List E)
      → stream_of j (record { streams = insert k stream s.streams; appended = es })
        ≡ (if str_eq k j then stream else stream_of j s)
  unfolding stream_of
  stream_of-insert k j stream s es = rw lookup-insert (ground arith)

  append-eq :
      (k : String) (expected : ℕ) (c : Uuid) (now : Time) (es : List E) (s : InMemoryEventStore E)
      → length (stream_of k s) ≡ expected
      → append k expected c now es s ≡ (
        ok tt,
        record {
          streams = insert k (stream_of k s ++ stamp k expected c now 0 es) s.streams;
          appended = s.appended ++ es;
        },
      )
  unfolding append
  append-eq k expected c now es s h = ground arith

  -- Append at the version that the stream has succeeds, and the stream alone grows, by the events
  -- given; at any other version it is the conflict error, and changes nothing.
  pub append_lem :
      (k : String) (expected : ℕ) (c : Uuid) (now : Time) (es : List E) (s : InMemoryEventStore E)
      → (length (stream_of k s) ≡ expected
          → ((append k expected c now es s).0 ≡ ok tt)
            × ((j : String)
                → stream_of j (append k expected c now es s).1 ≡ (
                    if str_eq k j
                    then stream_of k s ++ stamp k expected c now 0 es
                    else stream_of j s)))
        × (length (stream_of k s) ≢ expected → append k expected c now es s ≡ (err concurrency, s))
  append_lem k expected c now es s = (
    λ h. (
      rw (append-eq k expected c now es s h),
      λ j. rw (append-eq k expected c now es s h) (stream_of-insert k j _ s _),
    ),
    unfold append in λ h. ground arith,
  )

  -- Every stream of the store is numbered 1, 2, 3, ….
  abbrev pub IsWellNumbered : InMemoryEventStore E → Type 0
  IsWellNumbered s = (j : String) → IsNumbered 0 (stream_of j s)

  -- Whatever its arguments are, Append leaves every stream numbered without a gap if they all were
  -- before.
  pub append-IsWellNumbered :
      (k : String) (expected : ℕ) (c : Uuid) (now : Time) (es : List E) (s : InMemoryEventStore E)
      → IsWellNumbered s
      → IsWellNumbered (append k expected c now es s).1
  append-IsWellNumbered k expected c now es s w j =
      elim (ℕ_discrete (length (stream_of k s)) expected) [
        | yes h ↦
            rw (((append_lem k expected c now es s).0 h).1 j) (elim (Bool-cases (str_eq k j)) [
              | inl same ↦ rw same (
                  IsNumbered-append 0 (stream_of k s) _ (w k)
                    (stamp-IsNumbered k expected c now 0 _ es (omega (arith, h))))
              | inr other ↦ rw other (w j)
            ])
        | no h ↦ rw ((append_lem k expected c now es s).1 h) (w j)
      ]

  -- Two writers that read the same version: once one has written, the other is refused.
  pub append_twice :
      (k : String) (expected : ℕ) (c d : Uuid) (now later : Time) (e : E) (es fs : List E)
      (s : InMemoryEventStore E)
      → length (stream_of k s) ≡ expected
      → let after = (append k expected c now (e ∷ es) s).1 in
        append k expected d later fs after ≡ (err concurrency, after)
  append_twice k expected c d now later e es fs s h = (append_lem k expected d later fs _).1 (
      rw (((append_lem k expected c now (e ∷ es) s).0 h).1 k, eq_refl k)
        (omega (
          arith,
          length-append (stream_of k s) (stamp k expected c now 0 (e ∷ es)),
          length-stamp k expected c now 0 (e ∷ es),
        )))
