-- ===== src/Muflone/Retry/Backoff.antt =====
-- The waiting time between two attempts, at every attempt and across the shift's overflow.
use native.Mathlib.Nat.{pow-suc, suc-add}
use cj_beer_company.Prelude.{
  ℕ, zero, suc, ◌+◌, ◌-◌, ◌*◌, ◌%◌, ◌^◌, ◌≤◌, ◌<◌, ◌≡◌, refl, Bool, true, ◌&&◌, arith,
}
use native.Mathlib.Decide.{dec_lt}
use cj_beer_company.Prelude.Int.{pos, leb_ℤ, wrap64}
use cj_beer_company.Muflone.Retry.{base_retry_interval, retry_backoff, max_retry_interval}

-- From attempt 57 on the shift pushes every bit out of the int64.
shifted : (k : ℕ) → (q : ℕ) × (base_retry_interval * 2 ^ (k + 57) ≡ 2 ^ 64 * q)
shifted zero = (390625, refl)
shifted (suc k) =
    let (q, e) = shifted k in
    let doubled : 2 ^ (suc k + 57) ≡ 2 ^ (k + 57) * 2 = rw suc-add (pow-suc 2 (k + 57)) in
    (2 * q, omega (arith, doubled, e))

backoff_overflowed : (k : ℕ) → retry_backoff (k + 57) ≡ max_retry_interval
unfolding retry_backoff wrap64
backoff_overflowed k =
    let (q, e) = shifted k in
    let gone : 2 ^ 64 * q % 2 ^ 64 ≡ 0 = omega arith in rw e (rw gone refl)

is_capped : ℕ → Bool
is_capped k =
    leb_ℤ max_retry_interval (retry_backoff (k + 5))
    && leb_ℤ (retry_backoff (k + 5)) max_retry_interval

all_below : ℕ → (ℕ → Bool) → Bool
all_below zero p = true
all_below (suc n) p = p n && all_below n p

all_below_sound : (n : ℕ) (p : ℕ → Bool) (k : ℕ) → all_below n p ≡ true → k < n → p k ≡ true
unfolding all_below
all_below_sound zero p k h lt = absurd (omega arith)
all_below_sound (suc n) p k h lt = ground (arith, all_below_sound n p k)

capped_table : all_below 52 is_capped ≡ true
unfolding all_below is_capped retry_backoff wrap64
capped_table = refl

-- `retry_backoff` is shut: only its value at `k + 5` is compared.
capped_early : (k : ℕ) → k < 52 → retry_backoff (k + 5) ≡ max_retry_interval
unfolding is_capped
capped_early k h = ground (arith, all_below_sound 52 is_capped k capped_table h)

capped_late : (k : ℕ) → 5 ≤ k → retry_backoff k ≡ max_retry_interval
capped_late k h = elim (dec_lt k 57) [
  | yes small ↦ let e : k ≡ k - 5 + 5 = omega arith in rw e (capped_early (k - 5) (omega arith))
  | no large ↦ let e : k ≡ k - 57 + 57 = omega arith in rw e (backoff_overflowed (k - 57))
]

doubling : (k : ℕ) → k < 5 → retry_backoff k ≡ pos (base_retry_interval * 2 ^ k)
unfolding retry_backoff wrap64
doubling zero h = refl
doubling (suc zero) h = refl
doubling (suc (suc zero)) h = refl
doubling (suc (suc (suc zero))) h = refl
doubling (suc (suc (suc (suc zero)))) h = refl
doubling (suc (suc (suc (suc (suc k))))) h = absurd (omega arith)

-- The waits double from 50 ms at the first attempt to 800 ms at the fifth, and from then on every
-- wait is the cap of one second, however far the shift overflows.
pub retry_backoff_lem :
    (k : ℕ)
    → (k < 5 → retry_backoff k ≡ pos (base_retry_interval * 2 ^ k))
      × (5 ≤ k → retry_backoff k ≡ max_retry_interval)
retry_backoff_lem k = (doubling k, capped_late k)
