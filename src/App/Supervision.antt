-- ===== src/App/Supervision.antt =====
-- internal/app/app.go, startSagaSupervision: sagas that are in flight are resumed at the start, and steps
-- that take too long are failed at each tick. The logging of errors is left out.
use cj_beer_company.Prelude.{◌-◌, List, [], ◌∷◌, if◌then◌else◌}
use cj_beer_company.Prelude.Int.{ℤ, pos, pos_part, leb_ℤ}
use cj_beer_company.CustomTypes.{Uuid, UuidCodec, Time}
use cj_beer_company.Outcome.{World}
use cj_beer_company.Warehouses.AllocationSaga.{Aggregate}
use cj_beer_company.Warehouses.SagaHandler.{SagaHandler}
use cj_beer_company.Warehouses.SagaHandler.Recovery.{resume_in_flight, timeout_in_flight}

-- A tick of the watchdog: the clock, and the ids that uuid.New returns for each saga.
pub record Tick : Type 0 where
  pub now : Time
  pub fresh_commit : Aggregate → Uuid
  pub fresh_save : Aggregate → Uuid

module _ {S B : Type 0} (uuids : UuidCodec) (h : SagaHandler S B) (saga_step_timeout : ℤ) where
  -- The ticks before the context is done; an error waits for the next.
  watch : List Tick → World S B → World S B
  unfolding timeout_in_flight
  watch [] w = w
  watch (t ∷ ticks) w =
      let cutoff = t.now - pos_part saga_step_timeout in
      watch ticks (timeout_in_flight uuids h t.fresh_commit t.fresh_save t.now cutoff w).1

  unfoldable pub start_saga_supervision : (Aggregate → Uuid) → List Tick → World S B → World S B
  unfolding watch resume_in_flight
  start_saga_supervision fresh ticks w =
      let resumed = (resume_in_flight uuids h fresh w).1 in
      if leb_ℤ saga_step_timeout (pos 0) then resumed else watch ticks resumed
