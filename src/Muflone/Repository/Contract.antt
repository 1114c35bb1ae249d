-- ===== src/Muflone/Repository/Contract.antt =====
-- What the repository relies on in an event store, and the in-memory store's fulfilment of it.
use cj_beer_company.Prelude.{
  ℕ, ◌+◌, String, ◌≡◌, length-append, eq_refl, arith, refl, ap, ◌∙◌, List, ◌++◌, length, str_eq,
  if◌then◌else◌, Bool-cases, inl, inr, map-append,
}
use native.Mathlib.Decide.{ℕ_discrete}
use cj_beer_company.CustomTypes.{Uuid, Time}
use cj_beer_company.Outcome.{ok}
use cj_beer_company.Muflone.EventStore.{
  StoredEvent, EventStore, InMemoryEventStore, stream_of, read_stream, append, stamp, in_memory,
}
use cj_beer_company.Muflone.EventStore.Versions.{
  events_of, events_of-stamp, append_lem, length-stamp,
}

-- `view` is the history of a stream as the store's state has it, `head` the version of the stream.
pub record IsEventStore {S E : Type 0} (store : EventStore S E) : Type 0 where
  pub view : String → S → List E
  pub head : String → S → ℕ
  pub read-eq :
      (k : String) (s : S) (stored : List (StoredEvent E))
      → (store.read_stream k s).0 ≡ ok stored
      → events_of stored ≡ view k s
  pub view-read : (j k : String) (s : S) → view j (store.read_stream k s).1 ≡ view j s
  -- an append that succeeds was made at the head of the stream, and moves it
  pub append-head :
      (k : String) (n : ℕ) (c : Uuid) (now : Time) (es : List E) (s : S)
      → (store.append k n c now es s).0 ≡ ok tt
      → head k s ≡ n
  pub head-append :
      (k : String) (n : ℕ) (c : Uuid) (now : Time) (es : List E) (s : S)
      → (store.append k n c now es s).0 ≡ ok tt
      → head k (store.append k n c now es s).1 ≡ n + length es
  pub view-append :
      (j k : String) (n : ℕ) (c : Uuid) (now : Time) (es : List E) (s : S)
      → (store.append k n c now es s).0 ≡ ok tt
      → view j (store.append k n c now es s).1 ≡ (if str_eq k j then view k s ++ es else view j s)

module _ {E : Type 0} where
  abbrev pub in_memory_view : String → InMemoryEventStore E → List E
  in_memory_view k s = events_of (stream_of k s)

  pub in_memory-append_head :
      (k : String) (n : ℕ) (c : Uuid) (now : Time) (es : List E) (s : InMemoryEventStore E)
      → (append k n c now es s).0 ≡ ok tt
      → length (stream_of k s) ≡ n
  in_memory-append_head k n c now es s h = elim (ℕ_discrete (length (stream_of k s)) n) [
    | yes e ↦ e
    | no e ↦ cc (h, (append_lem k n c now es s).1 e)
  ]

  pub in_memory-view_append :
      (j k : String) (n : ℕ) (c : Uuid) (now : Time) (es : List E) (s : InMemoryEventStore E)
      → (append k n c now es s).0 ≡ ok tt
      → in_memory_view j (append k n c now es s).1
        ≡ (if str_eq k j then in_memory_view k s ++ es else in_memory_view j s)
  in_memory-view_append j k n c now es s h =
      rw (((append_lem k n c now es s).0 (in_memory-append_head k n c now es s h)).1 j)
        (elim (Bool-cases (str_eq k j)) [
          | inl same ↦ rw same (
              map-append (λ x. x.event) (stream_of k s) (stamp k n c now 0 es)
              ∙ ap (◌++◌ (events_of (stream_of k s))) (events_of-stamp k n c now 0 es))
          | inr other ↦ rw other
        ])

  pub in_memory-head_append :
      (k : String) (n : ℕ) (c : Uuid) (now : Time) (es : List E) (s : InMemoryEventStore E)
      → (append k n c now es s).0 ≡ ok tt
      → length (stream_of k (append k n c now es s).1) ≡ n + length es
  in_memory-head_append k n c now es s h =
      let same = in_memory-append_head k n c now es s h in
      rw (((append_lem k n c now es s).0 same).1 k, eq_refl k)
        (omega (
          arith,
          same,
          length-append (stream_of k s) (stamp k n c now 0 es),
          length-stamp k n c now 0 es,
        ))

  unfoldable pub in_memory-IsEventStore : IsEventStore (in_memory {E = E})
  unfolding read_stream
  in_memory-IsEventStore = record {
    view = in_memory_view;
    read-eq = λ k s stored h. cc;
    view-read = λ j k s. refl;
    head = λ k s. length (stream_of k s);
    append-head = in_memory-append_head;
    head-append = in_memory-head_append;
    view-append = in_memory-view_append;
  }
