-- ===== src/Warehouses/SagaHandler/Steps/Told.antt =====
-- A stored saga that is told an observation by a step of the handler, and then the same again.
use cj_beer_company.Prelude.{
  ◌≤◌, String, ◌≡◌, refl, sym, ap, subst, ◌∙◌, Bool, true, false, some, [], ◌++◌, arith, length,
  length-append, eq_refl,
}
use cj_beer_company.CustomTypes.{Uuid, UuidCodec, Time}
use cj_beer_company.Outcome.{Result, ok, err, Exec, World, continue-eq_ok, ◌>>=◌}
use cj_beer_company.Muflone.Aggregate.{clear_uncommitted_events}
use cj_beer_company.Muflone.Aggregate.Replay.{IsSourced, clear-IsSourced, IsSourced-unique}
use cj_beer_company.Muflone.Repository.{stream, get_by_id, save}
use cj_beer_company.Muflone.Repository.Contract.{IsEventStore}
use cj_beer_company.Muflone.Repository.RoundTrip.{view-save, view-get_by_id, get_by_id-IsSourced}
use cj_beer_company.Muflone.Repository.Known.{
  IsReadable, get_by_id-bus, length-get_by_id, get_by_id-found,
}
use cj_beer_company.Warehouses.AllocationSaga.{Aggregate, router}
use cj_beer_company.Warehouses.AllocationSaga.Invariant.{
  IsConsistent, Observation, observe, observe-HasObserved,
}
use cj_beer_company.Warehouses.AllocationSaga.Redelivery.{observe-Changed}
use cj_beer_company.Warehouses.AllocationSaga.Sourced.{observe-IsSourced}
use cj_beer_company.Warehouses.SagaHandler.{SagaHandler}
use cj_beer_company.Warehouses.SagaHandler.Steps.{load_at, loaded, step_of, saved_then}
use cj_beer_company.Warehouses.SagaHandler.Steps.Redelivery.{IsIdle}

module _ {S B : Type 0} (uuids : UuidCodec) (h : SagaHandler S B)
    (law : IsEventStore h.repository.store) (routed : h.repository.router ≡ router) (id : Uuid)
    (c : Uuid) (o : Observation) where
  abbrev home : String
  home = stream uuids h.repository id

  -- The stored saga of the order does nothing when it is told the observation.
  pub record IsTold (w : World S B) (t : Aggregate) : Type 0 where
    known : 1 ≤ length (law.view home w.store)
    sourced : IsSourced router (law.view home w.store) t
    committed : t.uncommitted ≡ []
    ignored : observe uuids c o t ≡ ok (t, false)

  abbrev pub tell : Uuid → Time → (Aggregate → Exec (World S B) Unit) → Exec (World S B) Unit
  tell fresh now next =
      load_at uuids h (some id) >>= step_of uuids h fresh now (observe uuids c o) next

  found-IsSourced :
      (w : World S B) {s : Aggregate}
      → (get_by_id uuids h.repository id w).0 ≡ ok s
      → IsSourced router (law.view home w.store) s × (s.uncommitted ≡ [])
  found-IsSourced w {s} found =
      subst (λ r. IsSourced r (law.view home w.store) s × (s.uncommitted ≡ [])) routed
        (get_by_id-IsSourced uuids h.repository law id w found)

  pub tell-IsIdle :
      IsReadable h.repository.store
      → (fresh : Uuid) (now : Time) (next : Aggregate → Exec (World S B) Unit) (w : World S B)
        (t : Aggregate)
      → IsTold w t
      → IsIdle uuids h law w (tell fresh now next w)
  unfolding load_at loaded step_of saved_then
  tell-IsIdle readable fresh now next w t told =
      let (b, found) = get_by_id-found uuids h.repository law id w readable told.known in
      let (sb, ub) = found-IsSourced w found in
      let same : b ≡ t = IsSourced-unique router _ b t sb told.sourced (ub ∙ sym told.committed) in
      rw (found, same, told.ignored)
        (
          refl,
          get_by_id-bus uuids h.repository id w,
          λ j. view-get_by_id uuids h.repository law j id w,
        )

  module _ (fresh : Uuid) (now : Time) (next : Aggregate → Exec (World S B) Unit)
      (keeps : (a : Aggregate) (w : World S B) → (next a w).1.store ≡ w.store) where
    -- A change was saved.
    moved-IsTold :
        (w : World S B) (t : Aggregate)
        → t.id ≡ id
        → 1 ≤ length (law.view home w.store)
        → IsSourced router (law.view home w.store) t
        → ((u : Aggregate) → u.state ≡ t.state → observe uuids c o u ≡ ok (u, false))
        → (saved_then uuids h fresh now next (ok (t, true)) w).0 ≡ ok tt
        → IsTold (saved_then uuids h fresh now next (ok (t, true)) w).1 (clear_uncommitted_events t)
    unfolding saved_then clear_uncommitted_events
    moved-IsTold w t named le sourced ignores done =
        let (a, saved, rest) = continue-eq_ok (save uuids h.repository t fresh now w).0 _ _ done in
        let k = stream uuids h.repository t.id in
        let (_, grown) = view-save uuids h.repository law k t fresh now w saved in
        let store = (save uuids h.repository t fresh now w).1.store in
        let own : law.view k store ≡ law.view k w.store ++ t.uncommitted =
          rw (eq_refl k) at grown in
        let there : law.view home store ≡ law.view home w.store ++ t.uncommitted =
          subst (λ j. law.view j store ≡ law.view j w.store ++ t.uncommitted)
            (ap (stream uuids h.repository) named) own in
        let left : law.view home (saved_then uuids h fresh now next (ok (t, true)) w).1.store
            ≡ law.view home w.store ++ t.uncommitted =
          rw (saved, keeps a _) there in
        record {
          known =
              rw (left, length-append (law.view home w.store) t.uncommitted) (omega (arith, le));
          sourced = rw left (clear-IsSourced router (law.view home w.store) t sourced);
          committed = refl;
          ignored = ignores _ refl;
        }

    -- After an answer that was handled without an error the saga has been told it.
    saved-IsTold :
        (w : World S B) (s : Aggregate) (r : Result (Aggregate × Bool))
        → IsConsistent uuids s
        → s.id ≡ id
        → 1 ≤ length (law.view home w.store)
        → IsSourced router (law.view home w.store) s
        → s.uncommitted ≡ []
        → observe uuids c o s ≡ r
        → (saved_then uuids h fresh now next r w).0 ≡ ok tt
        → (t : Aggregate) × IsTold (saved_then uuids h fresh now next r w).1 t
    unfolding saved_then
    saved-IsTold w s (err e) consistent named le sourced committed observed done = cc
    saved-IsTold w s (ok (t, false)) consistent named le sourced committed observed done =
        let (k, i, same) = rw observed at (observe-HasObserved uuids c o s consistent) in
        (
          s,
          record {
            known = le;
            sourced = sourced;
            committed = committed;
            ignored = observed ∙ ap (λ x. ok (x, false)) (same refl);
          },
        )
    saved-IsTold w s (ok (t, true)) consistent named le sourced committed observed done =
        let (k, i, same) = rw observed at (observe-HasObserved uuids c o s consistent) in
        (
          _,
          moved-IsTold w t (i ∙ named) le
              (rw observed at (observe-IsSourced uuids c s (law.view home w.store) o sourced))
              ((rw observed at (observe-Changed uuids c c o s)) refl) done,
        )

    pub tell-IsTold :
        (w : World S B) (s : Aggregate)
        → (get_by_id uuids h.repository id w).0 ≡ ok s
        → IsConsistent uuids s
        → s.id ≡ id
        → (tell fresh now next w).0 ≡ ok tt
        → (t : Aggregate) × IsTold (tell fresh now next w).1 t
    unfolding load_at loaded step_of
    tell-IsTold w s found consistent named done =
        let w' = (get_by_id uuids h.repository id w).1 in
        let (sourced, committed) = found-IsSourced w found in
        let kept = view-get_by_id uuids h.repository law home id w in
        rw found (
          saved-IsTold w' s (observe uuids c o s) consistent named
            (rw kept (length-get_by_id uuids h.repository law id w found)) (rw kept sourced)
            committed refl (rw found at done))
