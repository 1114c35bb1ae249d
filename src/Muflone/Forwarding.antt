-- ===== src/Muflone/Forwarding.antt =====
-- The transaction that internal/muflone/outbox.go and deadletters.go share: the pending messages of a
-- table are published one by one, and each is settled in the table after it was published.
pub mod Whole
pub mod Grows
use cj_beer_company.Prelude.{ℕ, String, Option, none, some, List, [], ◌∷◌, length}
use cj_beer_company.Outcome.{
  Result, ok, err, Exec, World, pure, lift, on_store, on_bus, ◌>>=◌, ◌>>◌,
}
use cj_beer_company.Muflone.Registry.{Payload}
use cj_beer_company.Muflone.ServiceBus.{ServiceBus}
use cj_beer_company.Muflone.Database.{Rows, scan_all, Transactions, in_transaction}

-- pendingMessage of DispatchPending, and deadLetter of RedriveDeadLetters
pub record PendingMessage : Type 0 where
  pub id : ℕ
  pub topic : String
  pub payload : Payload

-- The SELECT … FOR UPDATE SKIP LOCKED, and the statement by which a message that was published leaves
-- the pending ones.
pub record PendingDatabase (D : Type 0) : Type 0 where
  pub tx : Transactions D
  pub select_pending : Exec D (Rows PendingMessage)
  pub settle : ℕ → Exec D Unit

module _ {D B : Type 0} where
  -- The transaction is the server's; what was published stays published.
  abbrev pub with_bus : Transactions D → Transactions (World D B)
  with_bus tx = record {
    begin = on_store tx.begin;
    commit = on_store tx.commit;
    rollback = λ w. record w { store = tx.rollback w.store };
  }

  module _ (bus : ServiceBus B) (db : PendingDatabase D) where
    -- the loop over the pending messages
    unfoldable pub forward_all : List PendingMessage → Exec (World D B) Unit
    forward_all [] = pure tt
    forward_all (row ∷ rows) = do
      on_bus (bus.publisher row.topic row.payload)
      on_store (db.settle row.id)
      forward_all rows

    unfoldable pub forward_body : Exec (World D B) ℕ
    unfolding forward_all scan_all
    forward_body = do
      rows ← on_store db.select_pending
      pending ← lift (scan_all rows.scanned rows.failure)
      forward_all pending
      pure (length pending)

    unfoldable pub forward : Exec (World D B) ℕ
    unfolding forward_body in_transaction
    forward = in_transaction (with_bus db.tx) forward_body
