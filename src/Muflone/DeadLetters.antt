-- ===== src/Muflone/DeadLetters.antt =====
-- internal/muflone/deadletters.go: poison messages that are kept and sent again. The logging is left
-- out.
pub mod Redrive
use cj_beer_company.Prelude.{ℕ, String, Bool, true, false, not, List, [], ◌∷◌, ◌==◌, if◌then◌else◌}
use cj_beer_company.Outcome.{Exec, World}
use cj_beer_company.Muflone.Registry.{Payload}
use cj_beer_company.Muflone.ServiceBus.{ServiceBus}
use cj_beer_company.Muflone.Forwarding.{PendingMessage, PendingDatabase, forward}

-- A row of the table dead_letters; `redriven` says that redriven_at is not null.
pub record DeadLetter : Type 0 where
  pub message : PendingMessage
  pub reason : String
  pub redriven : Bool

-- The statements of this file, as a server runs them.
pub record DeadLetterDatabase (D : Type 0) : Type 0 where
  pub pending : PendingDatabase D
  pub insert : String → Payload → String → Exec D Unit

-- WHERE redriven_at IS NULL ORDER BY id, on the rows in the order of their ids
unfoldable pub parked : List DeadLetter → List PendingMessage
parked [] = []
parked (r ∷ rs) = let rest = parked rs in if r.redriven then rest else r.message ∷ rest

-- UPDATE dead_letters SET redriven_at = now() WHERE id = i
unfoldable pub stamp : ℕ → List DeadLetter → List DeadLetter
stamp i [] = []
stamp i (r ∷ rs) = (if r.message.id == i then record r { redriven = true } else r) ∷ stamp i rs

module _ {D B : Type 0} (bus : ServiceBus B) (db : DeadLetterDatabase D) where
  -- DeadLetterStore.Save
  unfoldable pub save : String → Payload → String → Exec D Unit
  save topic payload reason = db.insert topic payload reason

  unfoldable pub redrive_dead_letters : Exec (World D B) ℕ
  unfolding forward
  redrive_dead_letters = forward bus db.pending
