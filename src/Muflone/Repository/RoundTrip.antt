-- ===== src/Muflone/Repository/RoundTrip.antt =====
-- Save and GetByID over any event store: what is loaded is what was saved.
use cj_beer_company.Prelude.{
  ◌-◌, String, ◌≡◌, refl, sym, ap, subst, ◌∙◌, Option, none, some, List, [], ◌∷◌, ◌++◌,
  append_assoc, foldl, arith, length, append-nil, str_eq, eq_refl, eq_iff, if◌then◌else◌,
}
use cj_beer_company.CustomTypes.{Uuid, UuidCodec, Time}
use cj_beer_company.Outcome.{
  Result, ok-injective, ok, Exec, World, on_store, continue-keeps, continue-eq_ok,
}
use cj_beer_company.Muflone.Aggregate.{
  Router, AggregateRoot, new_aggregate, apply_event, clear_uncommitted_events,
}
use cj_beer_company.Muflone.Aggregate.Replay.{
  IsSourced, new_aggregate-IsSourced, apply_event-IsSourced, clear-IsSourced, IsSourced-unique,
}
use cj_beer_company.Muflone.EventStore.{StoredEvent}
use cj_beer_company.Muflone.EventStore.Versions.{events_of}
use cj_beer_company.Muflone.Repository.{
  Repository, stream, rebuild, get_by_id, publish_all, save, save_events,
}
use cj_beer_company.Muflone.Repository.Contract.{IsEventStore}

module _ {St E : Type 0} (r : Router St E) where
  apply_all-uncommitted :
      (stored : List (StoredEvent E)) (a : AggregateRoot St E)
      → (foldl (λ a record_. apply_event r record_.event a) a stored).uncommitted ≡ a.uncommitted
  unfolding apply_event
  apply_all-uncommitted [] a = refl
  apply_all-uncommitted (x ∷ xs) a = apply_all-uncommitted xs (apply_event r x.event a)

  apply_all-IsSourced :
      (stored : List (StoredEvent E)) (history : List E) (a : AggregateRoot St E)
      → a.uncommitted ≡ []
      → IsSourced r history a
      → IsSourced r
          (history ++ events_of stored)
          (foldl (λ a record_. apply_event r record_.event a) a stored)
  apply_all-IsSourced [] history a u s = rw (append-nil history) s
  apply_all-IsSourced (x ∷ xs) history a u s =
      rw (append_assoc history (x.event ∷ []) (events_of xs)) at (
        apply_all-IsSourced xs (history ++ x.event ∷ []) (apply_event r x.event a)
          (apply_all-uncommitted (x ∷ []) a ∙ u) (apply_event-IsSourced r history x.event a u s))

module _ {St E S B : Type 0} (uuids : UuidCodec) (repo : Repository St E S B) where
  rebuild-IsSourced :
      (stored : List (StoredEvent E)) (w : World S B) {a : AggregateRoot St E}
      → (rebuild uuids repo stored w).0 ≡ ok a
      → IsSourced repo.router (events_of stored) a × (a.uncommitted ≡ [])
  unfolding rebuild new_aggregate
  rebuild-IsSourced [] w h = cc
  rebuild-IsSourced (x ∷ xs) w h = rw (← ok-injective h) (
    apply_all-IsSourced repo.router (x ∷ xs) [] _ refl (new_aggregate-IsSourced repo.router),
    apply_all-uncommitted repo.router (x ∷ xs) (new_aggregate repo.router),
  )

  rebuild-keeps :
      (stored : List (StoredEvent E)) (w : World S B) → (rebuild uuids repo stored w).1 ≡ w
  unfolding rebuild
  rebuild-keeps [] w = refl
  rebuild-keeps (x ∷ xs) w = refl

  module _ (law : IsEventStore repo.store) where
    -- A load that succeeds is the replay of the whole stream, with nothing uncommitted.
    pub get_by_id-IsSourced :
        (id : Uuid) (w : World S B) {a : AggregateRoot St E}
        → (get_by_id uuids repo id w).0 ≡ ok a
        → IsSourced repo.router (law.view (stream uuids repo id) w.store) a × (a.uncommitted ≡ [])
    unfolding get_by_id
    get_by_id-IsSourced id w {a} h =
        let (stored, read, built) =
          continue-eq_ok (repo.store.read_stream (stream uuids repo id) w.store).0 _ _ h in
        let (s, u) = rebuild-IsSourced stored _ built in
        (subst (λ es. IsSourced repo.router es a) (law.read-eq _ w.store stored read) s, u)

    -- Loading changes no stream.
    pub view-get_by_id :
        (j : String) (id : Uuid) (w : World S B)
        → law.view j (get_by_id uuids repo id w).1.store ≡ law.view j w.store
    unfolding get_by_id
    view-get_by_id j id w =
        continue-keeps (λ w'. law.view j w'.store ≡ law.view j w.store) _ (rebuild uuids repo) _
          (law.view-read j _ w.store)
          (λ stored.
            ap (λ (v : World S B). law.view j v.store) (rebuild-keeps stored _)
            ∙ law.view-read j _ w.store)

  publish_all-store :
      (p : Option (E → Exec B Unit)) (es : List E) (w : World S B)
      → (publish_all uuids repo p es w).1.store ≡ w.store
  unfolding publish_all
  publish_all-store none es w = refl
  publish_all-store (some publish) [] w = refl
  publish_all-store (some publish) (e ∷ es) w =
      continue-keeps (λ (w' : World S B). w'.store ≡ w.store) (publish e w.bus).0 _ _ refl
        (λ _. publish_all-store (some publish) es _)

  -- What Save does to the store is what its Append does, also when publishing fails.
  save_events-store :
      (e : E) (es : List E) (a : AggregateRoot St E) (c : Uuid) (now : Time) (w : World S B)
      → (save_events uuids repo (e ∷ es) a c now w).1.store
        ≡ (repo.store.append
            (stream uuids repo a.id)
            (a.version - length (e ∷ es))
            c
            now
            (e ∷ es)
            w.store).1
  unfolding save_events
  save_events-store e es a c now w =
      let k = stream uuids repo a.id in
      let appended : Result Unit × World S B =
        on_store (repo.store.append k (a.version - length (e ∷ es)) c now (e ∷ es)) w in
      let kept = publish_all-store repo.publisher (e ∷ es) appended.1 in
      continue-keeps (λ (w' : World S B). w'.store ≡ appended.1.store) appended.0 _ appended.1 refl
        (λ _.
          continue-keeps (λ (w' : World S B). w'.store ≡ appended.1.store)
            (publish_all uuids repo repo.publisher (e ∷ es) appended.1).0 _
            (publish_all uuids repo repo.publisher (e ∷ es) appended.1).1 kept (λ _. kept))

  save_events-eq_ok :
      (e : E) (es : List E) (a : AggregateRoot St E) (c : Uuid) (now : Time) (w : World S B)
      {a' : AggregateRoot St E}
      → (save_events uuids repo (e ∷ es) a c now w).0 ≡ ok a'
      → ((repo.store.append
            (stream uuids repo a.id)
            (a.version - length (e ∷ es))
            c
            now
            (e ∷ es)
            w.store).0
          ≡ ok tt)
        × (a' ≡ clear_uncommitted_events a)
  unfolding save_events
  save_events-eq_ok e es a c now w h =
      let (u, appended, rest) =
        continue-eq_ok (repo.store.append _ _ c now (e ∷ es) w.store).0 _ _ h in
      let (v, published, done) =
        continue-eq_ok (publish_all uuids repo repo.publisher (e ∷ es) _).0 _ _ rest in
      (appended, sym (ok-injective done))

  module _ (law : IsEventStore repo.store) where
    view-save_events :
        (j : String) (es : List E) (a : AggregateRoot St E) (c : Uuid) (now : Time) (w : World S B)
        {a' : AggregateRoot St E}
        → a.uncommitted ≡ es
        → (save_events uuids repo es a c now w).0 ≡ ok a'
        → (a' ≡ clear_uncommitted_events a)
          × (law.view j (save_events uuids repo es a c now w).1.store ≡ (
              if str_eq (stream uuids repo a.id) j
              then law.view (stream uuids repo a.id) w.store ++ es
              else law.view j w.store))
    unfolding save_events clear_uncommitted_events
    view-save_events j [] a c now w u h = (
      cc,
      ground (
        arith,
        eq_iff (stream uuids repo a.id) j,
        append-nil (law.view (stream uuids repo a.id) w.store),
      ),
    )
    view-save_events j (e ∷ es) a c now w u h =
        let (appended, cleared) = save_events-eq_ok e es a c now w h in
        (
          cleared,
          rw (save_events-store e es a c now w)
              (law.view-append j _ _ c now (e ∷ es) w.store appended),
        )

    -- A Save that succeeds appends the uncommitted events to the aggregate's own stream, touches no
    -- other stream, and leaves the aggregate as it was with nothing uncommitted.
    pub view-save :
        (j : String) (a : AggregateRoot St E) (c : Uuid) (now : Time) (w : World S B)
        {a' : AggregateRoot St E}
        → (save uuids repo a c now w).0 ≡ ok a'
        → (a' ≡ clear_uncommitted_events a)
          × (law.view j (save uuids repo a c now w).1.store ≡ (
              if str_eq (stream uuids repo a.id) j
              then law.view (stream uuids repo a.id) w.store ++ a.uncommitted
              else law.view j w.store))
    unfolding save
    view-save j a c now w h = view-save_events j a.uncommitted a c now w refl h

    -- What a load returns after a successful Save of an aggregate that holds what its stream and
    -- its uncommitted events say is exactly the aggregate that Save left.
    pub get_by_id-save :
        (a : AggregateRoot St E) (c : Uuid) (now : Time) (w : World S B) {a' b : AggregateRoot St E}
        → IsSourced repo.router (law.view (stream uuids repo a.id) w.store) a
        → (save uuids repo a c now w).0 ≡ ok a'
        → (get_by_id uuids repo a.id (save uuids repo a c now w).1).0 ≡ ok b
        → b ≡ a'
    unfolding clear_uncommitted_events
    get_by_id-save a c now w {b = b} s saved loaded =
        let k = stream uuids repo a.id in
        let (cleared, grown) = view-save k a c now w saved in
        let (t, u) = get_by_id-IsSourced law a.id _ loaded in
        let grown' : law.view k (save uuids repo a c now w).1.store
            ≡ law.view k w.store ++ a.uncommitted =
          rw (eq_refl k) at grown in
        IsSourced-unique repo.router (law.view k w.store ++ a.uncommitted) b _
          (subst (λ es. IsSourced repo.router es b) grown' t) (clear-IsSourced repo.router _ a s) u
        ∙ sym cleared
