-- ===== src/Muflone/Retry.antt =====
-- internal/muflone/retry.go: the middleware that calls a failing handler again.
pub mod Bounds
pub mod Backoff
use cj_beer_company.Prelude.{
  ℕ, zero, suc, ◌+◌, ◌*◌, ◌^◌, Bool, true, false, ◌||◌, Option, none, some, leb, if◌then◌else◌,
}
use cj_beer_company.Prelude.Int.{ℤ, pos, ltb_ℤ, leb_ℤ, wrap64}
use cj_beer_company.Outcome.{Error, concurrency, panicked, Result, ok, err, Exec}

abbrev pub generic_retries : ℕ
generic_retries = 3

abbrev pub concurrency_retries : ℕ
concurrency_retries = 12

-- A `time.Duration` is an int64 of nanoseconds.
abbrev pub base_retry_interval : ℕ
base_retry_interval = 50_000_000

abbrev pub max_retry_interval : ℤ
max_retry_interval = pos 1_000_000_000

unfoldable pub budget : Error → ℕ
budget concurrency = concurrency_retries
budget _ = generic_retries

unfoldable pub retry_backoff : ℕ → ℤ
retry_backoff attempt =
    let interval = wrap64 (pos (base_retry_interval * 2 ^ attempt)) in
    if ltb_ℤ max_retry_interval interval || leb_ℤ interval (pos 0)
    then max_retry_interval
    else interval

-- A panic unwinds the middleware at once: it is no error that a call returns.
unfoldable pub unwinds : Error → Bool
unwinds panicked = true
unwinds _ = false

-- How the middleware ended: the last result, the state, and how often the handler was called.
pub record Ended (S A : Type 0) : Type 0 where
  pub result : Result A
  pub state : S
  pub calls : ℕ

module _ {S A : Type 0} (h : Exec S A) (cancelled : ℕ → Bool) where
  -- What follows the call of one attempt; `rest` is the loop's next round. `cancelled` says at
  -- which waits the message's context is done before the backoff has passed.
  unfoldable pub after_attempt : ℕ → Result A → S → Option (Ended S A) → Option (Ended S A)
  unfolding budget unwinds
  after_attempt attempt (ok a) s rest =
      some (record { result = ok a; state = s; calls = attempt + 1 })
  after_attempt attempt (err e) s rest =
      let stop : Option (Ended S A) =
        some (record { result = err e; state = s; calls = attempt + 1 }) in
      if unwinds e
      then stop
      else if leb (budget e) attempt
      then stop
      else if cancelled attempt
      then stop
      else rest

  -- The loop on fuel; `none` means that the fuel ran out.
  unfoldable pub retry_from : ℕ → ℕ → S → Option (Ended S A)
  unfolding after_attempt
  retry_from zero attempt s = none
  retry_from (suc fuel) attempt s =
      let (r, s') = h s in
      let rest = retry_from fuel (attempt + 1) s' in after_attempt attempt r s' rest

  -- The attempts 0 to `concurrency_retries` are all that the budgets allow.
  unfoldable pub retry_middleware : S → Option (Ended S A)
  unfolding retry_from
  retry_middleware s = retry_from (concurrency_retries + 1) 0 s
