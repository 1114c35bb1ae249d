-- ===== src/Warehouses/Handlers/Redelivery.antt =====
-- A saga step that the handler of the warehouse is sent again.
use cj_beer_company.Prelude.{
  String, ◌≡◌, ◌≢◌, refl, sym, ap, ◌∙◌, subst, List, Bool, true, false, if◌then◌else◌,
}
use cj_beer_company.Prelude.Int.{pos, ◌≤ℤ◌, leb_ℤ, ltb_ℤ, sub64}
use cj_beer_company.CustomTypes.{Uuid, UuidCodec, Time, Quantity, new_quantity}
use cj_beer_company.Outcome.{Result, ok, err, World, continue-eq_ok}
use cj_beer_company.Muflone.Aggregate.{raise_event, apply_event, clear_uncommitted_events}
use cj_beer_company.Muflone.Aggregate.Replay.{IsSourced, raise_event-IsSourced}
use cj_beer_company.Muflone.Repository.{Repository, stream, get_by_id, save}
use cj_beer_company.Muflone.Repository.Contract.{IsEventStore}
use cj_beer_company.Muflone.Repository.RoundTrip.{
  view-save, view-get_by_id, get_by_id-IsSourced, get_by_id-save,
}
use cj_beer_company.Warehouses.Events.{
  WarehouseEvent, new_beer_availability_updated, new_quantity_not_found,
}
use cj_beer_company.Warehouses.Commands.{UpdateAvailabilityDueToSalesOrder}
use cj_beer_company.Warehouses.Availability.{
  Availability, Aggregate, router, route, err_invalid_quantity, update_due_to_sales_order,
}
use cj_beer_company.Warehouses.Availability.Held.{contains}
use cj_beer_company.Warehouses.Availability.Stock.{
  IsStocked, Allocation, repeated, refused, moved, update_due_to_sales_order-HasStepped,
}
use cj_beer_company.Warehouses.Availability.Idempotence.{Allocation-idem, stocked_after}
use cj_beer_company.Warehouses.Handlers.{save_it, sold_with, handle_sales_order}

-- An answer of the aggregate that its events explain, under the id of the beer.
abbrev Out : List WarehouseEvent → Uuid → Result Aggregate → Type 0
Out history id (ok b) = IsSourced router history b × (b.id ≡ id)
Out history id (err e) = Unit {0}

raised-Out :
    (history : List WarehouseEvent) (id : Uuid) (a : Aggregate) (e : WarehouseEvent)
    → IsSourced router history a
    → (raise_event router e a).id ≡ id
    → Out history id (ok (raise_event router e a))
raised-Out history id a e h named = (raise_event-IsSourced router history e a h, named)

Out-if :
    (history : List WarehouseEvent) (id : Uuid) (x : Bool) (r t : Result Aggregate)
    → Out history id r
    → Out history id t
    → Out history id (if x then r else t)
Out-if history id true r t h k = h
Out-if history id false r t h k = k

update_due_to_sales_order-Out :
    (c : Uuid) (q : Quantity) (order : String) (a : Aggregate) (history : List WarehouseEvent)
    → IsSourced router history a
    → Out history a.state.beer_id.value (update_due_to_sales_order c q order a)
unfolding update_due_to_sales_order raise_event route apply_event
update_due_to_sales_order-Out c q order a history h =
    let s = a.state in
    let updated =
      λ (amount : Quantity). new_beer_availability_updated s.beer_id c s.beer_name amount order in
    let remaining = new_quantity (sub64 s.quantity.value q.value) s.quantity.unit_of_measure in
    let refused = new_quantity_not_found s.beer_id c order q s.quantity in
    let out = λ (e : WarehouseEvent). ok (raise_event router e a) in
    let fits =
      Out-if history s.beer_id.value (ltb_ℤ s.quantity.value q.value) (out refused)
        (out (updated remaining)) (raised-Out history s.beer_id.value a refused h refl)
        (raised-Out history s.beer_id.value a (updated remaining) h refl) in
    let known =
      Out-if history s.beer_id.value (contains order s.held) (out (updated s.quantity)) _
        (raised-Out history s.beer_id.value a (updated s.quantity) h refl) fits in
    Out-if history s.beer_id.value (leb_ℤ q.value (pos 0)) (err err_invalid_quantity) _ tt known

beer_after :
    {q : Quantity} {order : String} {s t : Availability}
    → Allocation q order s t
    → t.beer_id ≡ s.beer_id
beer_after (repeated _ e) = ap (λ (x : Availability). x.beer_id) e
beer_after (refused _ _ e) = ap (λ (x : Availability). x.beer_id) e
beer_after (moved _ _ e) = ap (λ (x : Availability). x.beer_id) e

module _ {S B : Type 0} (uuids : UuidCodec)
    (repository : Repository Availability WarehouseEvent S B) (law : IsEventStore repository.store)
    (routed : repository.router ≡ router) (command : UpdateAvailabilityDueToSalesOrder) where
  abbrev id : Uuid
  id = command.base.aggregate_id

  abbrev answer_to : Aggregate → Result Aggregate
  answer_to a =
      update_due_to_sales_order command.base.commit_id command.quantity command.sales_order_id a

  -- The beer that is stored is explained by its stream.
  found-IsSourced :
      (w : World S B) {a : Aggregate}
      → (get_by_id uuids repository id w).0 ≡ ok a
      → IsSourced router
          (law.view (stream uuids repository id) (get_by_id uuids repository id w).1.store)
          a
  found-IsSourced w {a} found =
      let k = stream uuids repository id in
      subst (λ es. IsSourced router es a) (sym (view-get_by_id uuids repository law k id w))
        (subst (λ r. IsSourced r (law.view k w.store) a) routed
          (get_by_id-IsSourced uuids repository law id w found).0)

  module _ (fresh : Uuid) (now : Time) where
    -- What is loaded after a Save under the id of the command is what was saved.
    load-save :
        (w : World S B) (a x b : Aggregate)
        → IsSourced router (law.view (stream uuids repository id) w.store) a
        → a.id ≡ id
        → (save uuids repository a fresh now w).0 ≡ ok x
        → (get_by_id uuids repository id (save uuids repository a fresh now w).1).0 ≡ ok b
        → b.state ≡ a.state
    unfolding clear_uncommitted_events
    load-save w a x b sourced named saved loaded =
        let own : IsSourced repository.router (law.view (stream uuids repository a.id) w.store) a =
          subst (λ r. IsSourced r (law.view (stream uuids repository a.id) w.store) a) (sym routed)
            (subst (λ j. IsSourced router (law.view (stream uuids repository j) w.store) a)
              (sym named) sourced) in
        let there =
          subst
            (λ j. (get_by_id uuids repository j (save uuids repository a fresh now w).1).0 ≡ ok b)
            (sym named) loaded in
        let (cleared, _) = view-save uuids repository law "" a fresh now w saved in
        ap (λ (t : Aggregate). t.state)
          (get_by_id-save uuids repository law a fresh now w own saved there ∙ cleared)

    -- A step that was handled without an error has stored what the aggregate answered.
    handled :
        (w : World S B) (a b : Aggregate)
        → (get_by_id uuids repository id w).0 ≡ ok a
        → a.state.beer_id.value ≡ id
        → (handle_sales_order uuids repository fresh now command w).0 ≡ ok tt
        → (get_by_id uuids repository id
            (handle_sales_order uuids repository fresh now command w).1).0
          ≡ ok b
        → (t : Aggregate) × (answer_to a ≡ ok t) × (b.state ≡ t.state)
    unfolding handle_sales_order sold_with save_it
    handled w a b found beer done loaded =
        let w' = (get_by_id uuids repository id w).1 in
        let done' : (sold_with uuids repository fresh now command (ok a) w').0 ≡ ok tt =
          rw found at done in
        let (t, stepped, rest) =
          continue-eq_ok (answer_to a) (save_it uuids repository fresh now) w' done' in
        let (x, saved, _) = continue-eq_ok (save uuids repository t fresh now w').0 _ _ rest in
        let history = law.view (stream uuids repository id) w'.store in
        let out : Out history a.state.beer_id.value (ok t) = rw stepped at (
          update_due_to_sales_order-Out command.base.commit_id command.quantity
            command.sales_order_id a history (found-IsSourced w found)) in
        (
          t,
          stepped,
          load-save w' t x b out.0 (out.1 ∙ beer) saved (rw (found, stepped, saved) at loaded),
        )

  answered :
      (a t : Aggregate)
      → IsStocked a
      → pos 1 ≤ℤ command.quantity.value
      → command.sales_order_id ≢ ""
      → answer_to a ≡ ok t
      → Allocation command.quantity command.sales_order_id a.state t.state
  answered a t stocked positive named stepped = rw stepped at (
      update_due_to_sales_order-HasStepped command.base.commit_id command.quantity
        command.sales_order_id a stocked positive named)

  -- A command to allocate a beer to an order that the handler takes twice, each time without an
  -- error, whatever ids and times the two handlings draw: the beer `b` that is loaded after the
  -- first has allocated the amount, refused it, or held it already, and the beer `d` that is loaded
  -- after the second has the state of `b`: the same quantity, and the same orders that hold stock.
  -- The beer that is loaded first is in range and has the id that the command names, the amount is
  -- positive and the order has an id; the repository replays by the beer's own router.
  pub handle_sales_order-again :
      (fresh fresh' : Uuid) (now now' : Time) (w : World S B) (a b d : Aggregate)
      → let first = handle_sales_order uuids repository fresh now command w in
        let again = handle_sales_order uuids repository fresh' now' command first.1 in
        pos 1 ≤ℤ command.quantity.value
        → command.sales_order_id ≢ ""
        → IsStocked a
        → a.state.beer_id.value ≡ id
        → (get_by_id uuids repository id w).0 ≡ ok a
        → first.0 ≡ ok tt
        → (get_by_id uuids repository id first.1).0 ≡ ok b
        → again.0 ≡ ok tt
        → (get_by_id uuids repository id again.1).0 ≡ ok d
        → Allocation command.quantity command.sales_order_id a.state b.state × (d.state ≡ b.state)
  handle_sales_order-again fresh fresh' now now' w a b d positive named stocked beer at_first done
        loaded done' loaded' =
      let order = command.sales_order_id in
      let (t, stepped, e) = handled fresh now w a b at_first beer done loaded in
      let step : Allocation command.quantity order a.state b.state =
        rw e (answered a t stocked positive named stepped) in
      let beer' : b.state.beer_id.value ≡ id = ap (λ x. x.value) (beer_after step) ∙ beer in
      let (u, stepped', e') =
        handled fresh' now' (handle_sales_order uuids repository fresh now command w).1 b d loaded
          beer' done' loaded' in
      let step' : Allocation command.quantity order b.state u.state =
        answered b u (stocked_after stocked positive step) positive named stepped' in
      (step, e' ∙ Allocation-idem step step')
