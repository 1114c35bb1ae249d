-- ===== src/Sales/SalesOrder/Settlement.antt =====
-- An order is settled once, one way.
use cj_beer_company.Prelude.{String, ◌≡◌, ◌⊎◌, refl, inl, inr, Bool, List, [], ◌∷◌, ◌∙◌, ap}
use cj_beer_company.CustomTypes.{Uuid}
use cj_beer_company.Outcome.{Result, ok, err}
use cj_beer_company.Sales.SalesOrder.{
  AllocationStatus, pending, allocated, rejected, Aggregate, mark_allocated, mark_allocated_at,
  mark_allocation_rejected, mark_allocation_rejected_at,
}

-- The two messages that settle an order.
pub data Verdict : Type 0 where
  accept : Verdict
  refuse : String → Verdict

unfoldable pub settle : Uuid → Verdict → Aggregate → Result (Aggregate × Bool)
unfolding mark_allocated mark_allocation_rejected
settle c accept s = mark_allocated c s
settle c (refuse reason) s = mark_allocation_rejected c reason s

abbrev pub outcome_of : Verdict → AllocationStatus
outcome_of accept = allocated
outcome_of (refuse reason) = rejected

-- The aggregate of an answer; an error leaves the aggregate as it was.
abbrev pub left_by : Aggregate → Result (Aggregate × Bool) → Aggregate
left_by s (ok (t, changed)) = t
left_by s (err e) = s

-- The verdicts, in the order in which they arrive.
unfoldable pub settle_all : List (Uuid × Verdict) → Aggregate → Aggregate
unfolding settle
settle_all [] s = s
settle_all ((c, v) ∷ vs) s = settle_all vs (left_by s (settle c v s))

abbrev IsSettledAs : AllocationStatus → Aggregate → Type 0
IsSettledAs t s = (s.state.allocation ≡ t) × ((t ≡ allocated) ⊎ (t ≡ rejected))

accept-settled :
    (c : Uuid) (t : AllocationStatus) (s : Aggregate)
    → (t ≡ allocated) ⊎ (t ≡ rejected)
    → left_by s (mark_allocated_at t c s) ≡ s
unfolding mark_allocated_at
accept-settled c t s (inl e) = rw e refl
accept-settled c t s (inr e) = rw e refl

refuse-settled :
    (c : Uuid) (reason : String) (t : AllocationStatus) (s : Aggregate)
    → (t ≡ allocated) ⊎ (t ≡ rejected)
    → left_by s (mark_allocation_rejected_at t c reason s) ≡ s
unfolding mark_allocation_rejected_at
refuse-settled c reason t s (inl e) = rw e refl
refuse-settled c reason t s (inr e) = rw e refl

settle-settled :
    (c : Uuid) (v : Verdict) (s : Aggregate)
    → (s.state.allocation ≡ allocated) ⊎ (s.state.allocation ≡ rejected)
    → left_by s (settle c v s) ≡ s
unfolding settle mark_allocated mark_allocation_rejected
settle-settled c accept s h = accept-settled c s.state.allocation s h
settle-settled c (refuse reason) s h = refuse-settled c reason s.state.allocation s h

settle_all-settled :
    (vs : List (Uuid × Verdict)) (s : Aggregate)
    → (s.state.allocation ≡ allocated) ⊎ (s.state.allocation ≡ rejected)
    → settle_all vs s ≡ s
unfolding settle_all
settle_all-settled [] s h = refl
settle_all-settled ((c, v) ∷ vs) s h =
    ap (settle_all vs) (settle-settled c v s h) ∙ settle_all-settled vs s h

settle-pending :
    (c : Uuid) (v : Verdict) (s : Aggregate)
    → s.state.allocation ≡ pending
    → (left_by s (settle c v s)).state.allocation ≡ outcome_of v
unfolding settle mark_allocated mark_allocation_rejected mark_allocated_at
    mark_allocation_rejected_at
settle-pending c accept s h = rw h refl
settle-pending c (refuse reason) s h = rw h refl

-- Of all the verdicts that reach a pending order, the first decides: the order has its outcome, and
-- the later ones, equal or contrary, leave the aggregate as the first left it.
pub settle_all-first :
    (c : Uuid) (v : Verdict) (vs : List (Uuid × Verdict)) (s : Aggregate)
    → s.state.allocation ≡ pending
    → (settle_all ((c, v) ∷ vs) s ≡ left_by s (settle c v s))
      × ((settle_all ((c, v) ∷ vs) s).state.allocation ≡ outcome_of v)
unfolding settle_all
settle_all-first c v vs s h =
    let first = settle-pending c v s h in
    let same = settle_all-settled vs (left_by s (settle c v s)) (decided v first) in
    (same, ap (λ (a : Aggregate). a.state.allocation) same ∙ first)
  where
    decided :
        {t : AllocationStatus} (v : Verdict) → t ≡ outcome_of v → (t ≡ allocated) ⊎ (t ≡ rejected)
    decided accept e = inl e
    decided (refuse reason) e = inr e
