-- ===== src/Muflone/Retry/Bounds.antt =====
-- How often the retry middleware calls its handler, and after which results it calls it again.
use cj_beer_company.Prelude.{
  ℕ, zero, suc, ◌+◌, ◌≤◌, ◌<◌, ◌≡◌, refl, ◌⊎◌, Bool, true, false, Option, none, some, arith, leb,
  inl, inr, subst, Bool-cases,
}
use cj_beer_company.Outcome.{Error, Result, ok, err, Exec, Result-cases}
use cj_beer_company.Muflone.Retry.{
  Ended, budget, unwinds, after_attempt, retry_from, retry_middleware, concurrency_retries,
}

-- How often a call that ends this way may be repeated: a conflict of versions twelve times, a panic
-- never, any other error three times.
abbrev pub allowed : Error → ℕ
allowed Error.concurrency = 12
allowed Error.panicked = 0
allowed _ = 3

-- The code allows as much.
allowed-cases :
    (e : Error)
    → (allowed e ≤ 12)
      × (((unwinds e ≡ true) × (allowed e ≡ 0)) ⊎ ((unwinds e ≡ false) × (allowed e ≡ budget e)))
unfolding unwinds budget
allowed-cases Error.concurrency = (omega arith, inr (refl, refl))
allowed-cases Error.panicked = (omega arith, inl (refl, refl))
allowed-cases (Error.invalid message) = (omega arith, inr (refl, refl))
allowed-cases Error.not_found = (omega arith, inr (refl, refl))
allowed-cases Error.aggregate_not_found = (omega arith, inr (refl, refl))
allowed-cases (Error.failed message) = (omega arith, inr (refl, refl))

module _ {S A : Type 0} (h : Exec S A) (cancelled : ℕ → Bool) where
  -- What n calls of the handler, one after the other, make of the state, and what the next returns.
  abbrev pub state_at : ℕ → S → S
  state_at zero s = s
  state_at (suc n) s = state_at n (h s).1

  abbrev pub result_at : ℕ → S → Result A
  result_at n s = (h (state_at n s)).0

  -- The call of this attempt may be repeated, and the context was not done before it was.
  abbrev pub IsRetried : ℕ → Result A → Type 0
  IsRetried attempt (ok a) = ⊥
  IsRetried attempt (err e) = (attempt < allowed e) × (cancelled attempt ≡ false)

  -- The call of this attempt is the last one.
  abbrev pub IsLast : ℕ → Result A → Type 0
  IsLast attempt (ok a) = Unit {0}
  IsLast attempt (err e) = (allowed e ≤ attempt) ⊎ (cancelled attempt ≡ true)

  -- A loop that was entered at `attempt` has called the handler n times for a retry and once more.
  abbrev pub HasEnded : ℕ → S → Option (Ended S A) → Type 0
  HasEnded attempt s none = ⊥
  HasEnded attempt s (some r) =
      (n : ℕ) × (r.calls ≡ attempt + n + 1)
      × (r.calls ≤ 13)
      × (r.result ≡ result_at n s)
      × (r.state ≡ state_at (suc n) s)
      × ((i : ℕ) → i < n → IsRetried (attempt + i) (result_at i s))
      × IsLast (attempt + n) r.result

  HasEnded-earlier :
      (attempt : ℕ) (s : S) (rest : Option (Ended S A))
      → IsRetried attempt (h s).0
      → HasEnded (attempt + 1) (h s).1 rest
      → HasEnded attempt s rest
  HasEnded-earlier attempt s none now ended = ended
  HasEnded-earlier attempt s (some r) now (n, calls, few, result, state, before, last) = (
    suc n,
    omega (arith, calls),
    few,
    result,
    state,
    retried,
    subst (λ k. IsLast k r.result) (omega arith) last,
  )
    where
      retried : (i : ℕ) → i < suc n → IsRetried (attempt + i) (result_at i s)
      retried zero small = subst (λ k. IsRetried k (h s).0) (omega arith) now
      retried (suc i) small =
          subst (λ k. IsRetried k (result_at i (h s).1)) (omega arith)
            (before i (omega (arith, small)))

  at_once :
      (attempt : ℕ) (s : S)
      → attempt ≤ concurrency_retries
      → IsLast attempt (h s).0
      → HasEnded attempt s
          (some (record { result = (h s).0; state = (h s).1; calls = attempt + 1 }))
  at_once attempt s small last = (
    0,
    omega arith,
    omega (arith, small),
    refl,
    refl,
    λ i none_left. absurd (omega (arith, none_left)),
    subst (λ k. IsLast k (h s).0) (omega arith) last,
  )

  after_attempt-HasEnded :
      (attempt : ℕ) (s : S) (rest : Option (Ended S A))
      → attempt ≤ concurrency_retries
      → (attempt < concurrency_retries → HasEnded (attempt + 1) (h s).1 rest)
      → HasEnded attempt s (after_attempt h cancelled attempt (h s).0 (h s).1 rest)
  unfolding after_attempt
  after_attempt-HasEnded attempt s rest small later = elim (Result-cases (h s).0) [
    | inl (a, good) ↦ let end = at_once attempt s small (rw good tt) in rw good (rw good at end)
    | inr (e, bad) ↦
        let (few, kind) = allowed-cases e in
        let stop : IsLast attempt (err e)
            → HasEnded attempt s
                (some (record { result = err e; state = (h s).1; calls = attempt + 1 })) =
          λ last. (let end = at_once attempt s small (rw bad last) in rw bad at end) in
        rw bad (elim kind [
          | inl (unwound, never) ↦ rw unwound (stop (inl (omega (arith, never))))
          | inr (returned, same) ↦ rw returned (elim (Bool-cases (leb (budget e) attempt)) [
            | inl spent ↦ rw spent (stop (inl (ground (arith, same))))
            | inr left ↦ rw left (elim (Bool-cases (cancelled attempt)) [
              | inl done ↦ rw done (stop (inr done))
              | inr waited ↦
                  let free : attempt < allowed e = ground (arith, same) in
                  rw waited (
                    HasEnded-earlier attempt s rest (rw bad (free, waited))
                      (later (omega (arith, free, few))))
            ])
          ])
        ])
  ]

  retry_from-HasEnded :
      (fuel attempt : ℕ) (s : S)
      → attempt ≤ concurrency_retries
      → concurrency_retries < attempt + fuel
      → HasEnded attempt s (retry_from h cancelled fuel attempt s)
  unfolding retry_from
  retry_from-HasEnded zero attempt s small enough = omega arith
  retry_from-HasEnded (suc fuel) attempt s small enough =
      after_attempt-HasEnded attempt s _ small
        (λ more. retry_from-HasEnded fuel (attempt + 1) (h s).1 (omega arith) (omega arith))

  -- The middleware ends after at most thirteen calls of the handler, each on the state that the one
  -- before left, with the result and the state of the last. Each call before the last failed, as one of
  -- the first twelve for a conflict of versions or as one of the first three for another error that is
  -- no panic, and the context was not done; the last succeeded, panicked, failed later than that, or
  -- the context was done.
  pub retry_middleware-HasEnded : (s : S) → HasEnded 0 s (retry_middleware h cancelled s)
  unfolding retry_middleware
  retry_middleware-HasEnded s =
      retry_from-HasEnded (concurrency_retries + 1) 0 s (omega arith) (omega arith)
