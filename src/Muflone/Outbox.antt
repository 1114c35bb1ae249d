-- ===== src/Muflone/Outbox.antt =====
-- internal/muflone/outbox.go: the relay from the table outbox to the bus. The logging is left out.
pub mod Delivery
pub mod Published
use cj_beer_company.Prelude.{ℕ, zero, suc, Bool, not, List, [], ◌∷◌, ◌==◌, take, if◌then◌else◌}
use cj_beer_company.Outcome.{Exec, World}
use cj_beer_company.Muflone.ServiceBus.{ServiceBus}
use cj_beer_company.Muflone.Forwarding.{PendingMessage, PendingDatabase, forward}

-- SELECT … FROM outbox ORDER BY id LIMIT 100, on the rows in the order of their ids
abbrev pub first_batch : List PendingMessage → List PendingMessage
first_batch = take 100

-- DELETE FROM outbox WHERE id = i
unfoldable pub without : ℕ → List PendingMessage → List PendingMessage
without i [] = []
without i (r ∷ rs) = let rest = without i rs in if r.id == i then rest else r ∷ rest

module _ {D B : Type 0} (bus : ServiceBus B) (db : PendingDatabase D) where
  unfoldable pub dispatch_pending : Exec (World D B) ℕ
  unfolding forward
  dispatch_pending = forward bus db

  -- Run, by the number of ticks before the context is done; a dispatch that fails waits for the next.
  unfoldable pub run : ℕ → World D B → World D B
  unfolding dispatch_pending
  run zero w = w
  run (suc ticks) w = run ticks (dispatch_pending w).1
