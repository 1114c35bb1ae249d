-- ===== src/Rest/Limiter.antt =====
-- internal/rest/middleware.go, ipRateLimiter: a token bucket for each client. The bucket is that of
-- golang.org/x/time/rate, and an argument; the lock is held for the whole method.
use cj_beer_company.Prelude.{
  ℕ, ◌+◌, ◌≤◌, String, ◌≡◌, refl, Bool, true, Option, none, some, [], ◌∷◌, length, ltb, str_eq,
  if◌then◌else◌, arith, Bool-cases, inl, inr, ◌⊎◌,
}
use cj_beer_company.CustomTypes.{Time}
use cj_beer_company.Dict.{Dict, lookup, insert, lookup-insert, lookup-insert_self}

-- `new_limiter` is rate.NewLimiter with the rate and the burst of the options, `allow` is Allow at a
-- reading of the clock.
pub record TokenBucket (L : Type 0) : Type 0 where
  pub new_limiter : L
  pub allow : Time → L → Bool × L

abbrev pub max_tracked_ips : ℕ
max_tracked_ips = 10_000

module _ {L : Type 0} (bucket : TokenBucket L) where
  -- l.limiters[ip], or a new one
  abbrev pub limiter_of : Option L → L
  limiter_of none = bucket.new_limiter
  limiter_of (some limiter) = limiter

  -- the map after the check of its size
  abbrev pub tracked : Dict L → Dict L
  tracked limiters = if ltb max_tracked_ips (length limiters) then [] else limiters

  unfoldable pub allow : Time → String → Dict L → Bool × Dict L
  unfolding lookup insert
  allow now ip limiters =
      let kept = tracked limiters in
      let (allowed, limiter) = bucket.allow now (limiter_of (lookup ip kept)) in
      (allowed, insert ip limiter kept)

  -- rateLimit; `limited` says that rps is positive
  unfoldable pub rate_limit : Bool → Time → String → Dict L → Bool × Dict L
  unfolding allow
  rate_limit limited now ip limiters = if limited then allow now ip limiters else (true, limiters)

  length-insert : (k : String) (l : L) (m : Dict L) → length (insert k l m) ≤ length m + 1
  unfolding insert
  length-insert k l [] = omega arith
  length-insert k l ((j, w) ∷ m) = ground (arith, length-insert k l m)

  tracked_le : (limiters : Dict L) → length (tracked limiters) ≤ 10_000
  tracked_le limiters = elim (Bool-cases (ltb max_tracked_ips (length limiters))) [
    | inl full ↦ rw full (omega arith)
    | inr room ↦ rw room (ground (arith, room))
  ]

  -- However many clients call, at most 10001 of them are tracked. Whether a client may go on is for its
  -- own bucket to say, as it was before, or for a new one where there is none or the map was full; and
  -- no call touches the bucket of another client unless the map was full.
  pub allow-IsFair :
      (now : Time) (ip other : String) (limiters : Dict L)
      → let kept = tracked limiters in
        let called = allow now ip limiters in
        let answer = bucket.allow now (limiter_of (lookup ip kept)) in
        (length called.1 ≤ 10_001)
        × (called.0 ≡ answer.0)
        × (lookup ip called.1 ≡ some answer.1)
        × ((str_eq ip other ≡ true)
            ⊎ (lookup other called.1 ≡ lookup other limiters)
            ⊎ ((ltb max_tracked_ips (length limiters) ≡ true) × (lookup other called.1 ≡ none)))
  unfolding allow lookup
  allow-IsFair now ip other limiters =
      let kept = tracked limiters in
      let limiter = (bucket.allow now (limiter_of (lookup ip kept))).1 in
      let grown = length-insert ip limiter kept in
      let below = tracked_le limiters in
      (
        omega (arith, grown, below),
        refl,
        lookup-insert_self ip limiter kept,
        elim (Bool-cases (str_eq ip other)) [
          | inl same ↦ inl same
          | inr differs ↦ inr (elim (Bool-cases (ltb max_tracked_ips (length limiters))) [
            | inl full ↦ inr (full, rw (lookup-insert ip other limiter kept, differs, full) refl)
            | inr room ↦ inl (rw (lookup-insert ip other limiter kept, differs, room) refl)
          ])
        ],
      )
