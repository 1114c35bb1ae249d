-- ===== src/Muflone/Aggregate/Replay.antt =====
-- The state of an aggregate is the replay of its history, for raised and for stored events alike.
use cj_beer_company.Prelude.{
  ◌+◌, ◌≡◌, refl, sym, ap, ◌∙◌, List, [], ◌∷◌, ◌++◌, foldl, append-nil, append_assoc, arith, length,
  length-append, foldl-append_lem,
}
use cj_beer_company.CustomTypes.{Uuid}
use cj_beer_company.Muflone.Aggregate.{
  Router, AggregateRoot, new_aggregate, apply_event, raise_event, clear_uncommitted_events,
}

module _ {St E : Type 0} (r : Router St E) where
  -- The identity and the state after a list of events.
  unfoldable pub replay : List E → Uuid × St
  replay = foldl (λ s e. r.route e s.0 s.1) (0, r.initial)

  pub replay-snoc :
      (es : List E) (e : E) → replay (es ++ e ∷ []) ≡ r.route e (replay es).0 (replay es).1
  unfolding replay
  replay-snoc es e = foldl-append_lem _ (0, r.initial) es (e ∷ [])

  -- The aggregate holds what its stored history and its uncommitted events say.
  pub record IsSourced (history : List E) (a : AggregateRoot St E) : Type 0 where
    pub counted : a.version ≡ length history + length a.uncommitted
    pub replayed : (a.id, a.state) ≡ replay (history ++ a.uncommitted)

  pub new_aggregate-IsSourced : IsSourced [] (new_aggregate r)
  unfolding new_aggregate replay
  new_aggregate-IsSourced = record { counted = omega arith; replayed = refl }

  route_of-replay :
      (es : List E) (e : E) {s : Uuid × St}
      → s ≡ replay es
      → r.route e s.0 s.1 ≡ replay (es ++ e ∷ [])
  route_of-replay es e h = ap (λ (p : Uuid × St). r.route e p.0 p.1) h ∙ sym (replay-snoc es e)

  -- Applying a stored event extends the history.
  pub apply_event-IsSourced :
      (history : List E) (e : E) (a : AggregateRoot St E)
      → a.uncommitted ≡ []
      → IsSourced history a
      → IsSourced (history ++ e ∷ []) (apply_event r e a)
  unfolding apply_event
  apply_event-IsSourced history e a u s = record {
    counted = omega (arith, s.counted, ap length u, length-append history (e ∷ []));
    replayed =
        route_of-replay history e (s.replayed ∙ ap replay (rw u (append-nil history)))
        ∙ ap replay (rw u (sym (append-nil (history ++ e ∷ []))));
  }

  -- Raising an event extends what is uncommitted.
  pub raise_event-IsSourced :
      (history : List E) (e : E) (a : AggregateRoot St E)
      → IsSourced history a
      → IsSourced history (raise_event r e a)
  unfolding raise_event
  raise_event-IsSourced history e a s = record {
    counted = omega (arith, s.counted, length-append a.uncommitted (e ∷ []));
    replayed =
        route_of-replay (history ++ a.uncommitted) e s.replayed
        ∙ ap replay (append_assoc history a.uncommitted (e ∷ []));
  }

  -- A committed aggregate: its uncommitted events have become history.
  pub clear-IsSourced :
      (history : List E) (a : AggregateRoot St E)
      → IsSourced history a
      → IsSourced (history ++ a.uncommitted) (clear_uncommitted_events a)
  unfolding clear_uncommitted_events
  clear-IsSourced history a s = record {
    counted = omega (arith, s.counted, length-append history a.uncommitted);
    replayed = s.replayed ∙ ap replay (sym (append-nil (history ++ a.uncommitted)));
  }

  same_version :
      (history : List E) (a b : AggregateRoot St E)
      → IsSourced history a
      → IsSourced history b
      → a.uncommitted ≡ b.uncommitted
      → a.version ≡ b.version
  same_version history a b s t e = omega (arith, s.counted, t.counted, ap length e)

  -- The history and the uncommitted events determine the aggregate.
  pub IsSourced-unique :
      (history : List E) (a b : AggregateRoot St E)
      → IsSourced history a
      → IsSourced history b
      → a.uncommitted ≡ b.uncommitted
      → a ≡ b
  IsSourced-unique history a b s t e =
      let same : (a.id, a.state) ≡ (b.id, b.state) =
        s.replayed ∙ ap (λ u. replay (history ++ u)) e ∙ sym t.replayed in
      cc (
        ap (λ (p : Uuid × St). p.0) same,
        ap (λ (p : Uuid × St). p.1) same,
        same_version history a b s t e,
        e,
      )
