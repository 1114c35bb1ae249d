-- ===== src/Examples/Relay.antt =====
-- Two messages wait in the outbox, and of two dead letters one was sent again already.
use cj_beer_company.Prelude.{
  ℕ, String, ◌≡◌, ◌≢◌, refl, ◌⊎◌, inl, inr, true, false, List, [], ◌∷◌, ◌++◌, map, arith,
}
use cj_beer_company.Prelude.Members.{In}
use cj_beer_company.Outcome.{ok, World}
use cj_beer_company.Muflone.Registry.{Payload}
use cj_beer_company.Muflone.ServiceBus.{ServiceBus}
use cj_beer_company.Muflone.Database.{complete, complete-injective}
use cj_beer_company.Muflone.Forwarding.{PendingMessage, PendingDatabase}
use cj_beer_company.Muflone.Forwarding.Whole.{IsPublisher, IsPendingDatabase, message_of}
use cj_beer_company.Muflone.Outbox.{first_batch, without, run}
use cj_beer_company.Muflone.Outbox.Delivery.{table, run-NothingLost}
use cj_beer_company.Muflone.DeadLetters.{
  DeadLetter, DeadLetterDatabase, parked, stamp, redrive_dead_letters,
}
use cj_beer_company.Muflone.DeadLetters.Redrive.{letters, redrive_dead_letters-whole}

record Table (T : Type 0) : Type 0 where
  committed : T
  draft : T

abbrev pub Sent : Type 0
Sent = List (String × Payload)

abbrev pub bus : ServiceBus Sent
bus = record { publisher = λ topic payload sent. (ok tt, sent ++ (topic, payload) ∷ []) }

abbrev pub wire : IsPublisher bus
wire = record {
  sent = λ b. b;
  publish-ok = λ t p b h. refl;
  publish-grows = λ t p b. ((t, p) ∷ [], refl);
}

-- A server on which every statement succeeds.
module _ {T : Type 0} (pending : T → List PendingMessage) (settled : ℕ → T → T) where
  abbrev pending_server : PendingDatabase (Table T)
  pending_server = record {
    tx = record {
      begin = λ d. (ok tt, record d { draft = d.committed });
      commit = λ d. (ok tt, record d { committed = d.draft });
      rollback = λ d. record d { draft = d.committed };
    };
    select_pending = λ d. (ok (complete (pending d.draft)), d);
    settle = λ i d. (ok tt, record d { draft = settled i d.draft });
  }

  unfoldable server-law : IsPendingDatabase pending settled pending_server
  server-law = record {
    transactional = record {
      committed = λ d. d.committed;
      draft = λ d. d.draft;
      begin-keeps = λ d. refl;
      begin-draft = λ d h. refl;
      rollback-keeps = λ d. refl;
      commit-draft = λ d h. refl;
      commit-whole = λ d. inr refl;
    };
    select-keeps = λ d. refl;
    select-eq = λ d xs h. (complete-injective xs _ h, refl);
    settle-keeps = λ i d. refl;
    settle-eq = λ i d h. refl;
  }

abbrev message : ℕ → String → PendingMessage
message i topic = record { id = i; topic = topic; payload = i ∷ [] }

abbrev outbox : PendingDatabase (Table (List PendingMessage))
outbox = pending_server first_batch without

abbrev two_waiting : World (Table (List PendingMessage)) Sent
two_waiting =
    let rows : List PendingMessage = message 3 "events.a" ∷ message 5 "events.b" ∷ [] in
    record { store = record { committed = rows; draft = rows }; bus = [] }

run-NothingLost_example :
    let w' = run bus outbox 4 two_waiting in
    In (message 5 "events.b") (table bus wire outbox (server-law first_batch without) w')
    ⊎ In ("events.b", 5 ∷ []) w'.bus
unfolding server-law
run-NothingLost_example =
    run-NothingLost bus wire outbox (server-law first_batch without) 4 (message 5 "events.b")
      two_waiting (omega arith) (inr (inl refl))

abbrev archive : DeadLetterDatabase (Table (List DeadLetter))
archive = record {
  pending = pending_server parked stamp;
  insert = λ topic payload reason d. (ok tt, d);
}

abbrev two_letters : World (Table (List DeadLetter)) Sent
two_letters =
    let rows : List DeadLetter =
      record { message = message 1 "commands.a"; reason = "timeout"; redriven = true }
      ∷ record { message = message 2 "commands.b"; reason = "timeout"; redriven = false }
      ∷ [] in
    record { store = record { committed = rows; draft = rows }; bus = [] }

redrive_dead_letters-whole_example :
    let w' = (redrive_dead_letters bus archive two_letters).1 in
    let before = letters bus wire archive (server-law parked stamp) two_letters in
    let after = letters bus wire archive (server-law parked stamp) w' in
    ((after ≡ before) × ((n : ℕ) → (redrive_dead_letters bus archive two_letters).0 ≢ ok n))
    ⊎ ((parked after ≡ [])
        × (w'.bus ≡ map message_of (parked before))
        × (map (λ r. r.message) after ≡ map (λ r. r.message) before))
unfolding parked server-law
redrive_dead_letters-whole_example =
    redrive_dead_letters-whole bus wire archive (server-law parked stamp) two_letters (omega arith)
