-- ===== src/Muflone/PostgresEventStore/Decoded.antt =====
-- What ReadStream makes of the rows of a stream.
use cj_beer_company.Prelude.{
  ℕ, String, ◌≡◌, refl, sym, ap, ◌∙◌, Option, none, some, List, [], ◌∷◌, ◌++◌, map, All, ◌+◌, inl,
  inr,
}
use cj_beer_company.CustomTypes.{Uuid}
use cj_beer_company.Outcome.{Error, Result, ok, err, ok-injective, Result-cases}
use cj_beer_company.Muflone.EventStore.{StoredEvent}
use cj_beer_company.Muflone.EventStore.Versions.{events_of}
use cj_beer_company.Muflone.Registry.{Payload, EventRegistry}
use cj_beer_company.Muflone.ServiceBus.{MessageType}
use cj_beer_company.Muflone.PostgresEventStore.{
  EventRow, ScannedRow, EventDatabase, decode, stored_as, read_rows,
}
use cj_beer_company.Muflone.PostgresEventStore.Appending.{IsEventDatabase, kept_of, new_rows}

module _ {D E : Type 0} (db : EventDatabase D) (law : IsEventDatabase db)
    (registry : EventRegistry E) (type : MessageType E) (rounds : ℕ) where
  kept : Result E → List E → List E
  kept (ok e) es = e ∷ es
  kept (err x) es = es

  -- The events that rows of the table are decoded to.
  pub decoded : List EventRow → List E
  unfolding kept
  decoded [] = []
  decoded (r ∷ rs) = kept (decode db registry type rounds r.event_type r.payload) (decoded rs)

  kept-append : (r : Result E) (xs ys : List E) → kept r (xs ++ ys) ≡ kept r xs ++ ys
  unfolding kept
  kept-append (ok e) xs ys = refl
  kept-append (err x) xs ys = refl

  pub decoded-append : (xs ys : List EventRow) → decoded (xs ++ ys) ≡ decoded xs ++ decoded ys
  unfolding decoded
  decoded-append [] ys = refl
  decoded-append (x ∷ xs) ys =
      ap (kept (decode db registry type rounds x.event_type x.payload)) (decoded-append xs ys)
      ∙ kept-append (decode db registry type rounds x.event_type x.payload) (decoded xs)
          (decoded ys)

  -- What ReadStream returns are the decoded rows of a result set that was read to its end.
  abbrev pub WasRead : List (Result ScannedRow) → Option Error → List E → Type 0
  WasRead rows failure es =
      (xs : List ScannedRow) × (rows ≡ map ok xs)
      × (failure ≡ none)
      × (es ≡ decoded (map (λ x. x.row) xs))

  pub read_rows-WasRead :
      (k : String) (rows : List (Result ScannedRow)) (failure : Option Error)
      {stored : List (StoredEvent E)}
      → read_rows db registry type rounds k rows failure ≡ ok stored
      → WasRead rows failure (events_of stored)
  unfolding read_rows decoded stored_as
  read_rows-WasRead k [] none h = ([], refl, refl, ap events_of (sym (ok-injective h)))
  read_rows-WasRead k [] (some e) h = cc
  read_rows-WasRead k (err e ∷ rows) failure h = cc
  read_rows-WasRead k (ok x ∷ rows) failure h =
      elim (Result-cases (decode db registry type rounds x.row.event_type x.row.payload)) [
        | inr (e, bad) ↦ cc (rw bad at h)
        | inl (e, good) ↦ elim (Result-cases (read_rows db registry type rounds k rows failure)) [
          | inr (f, worse) ↦ cc (rw (good, worse) at h)
          | inl (rest, fine) ↦
              let (xs, all, end, same) = read_rows-WasRead k rows failure fine in
              (
                x ∷ xs,
                ap (◌∷◌ (ok x)) all,
                end,
                rw good
                    (ap events_of (sym (ok-injective (rw (good, fine) at h))) ∙ ap (◌∷◌ e) same),
              )
        ]
      ]

  module _
      (faithful : (e : E) (p : Payload)
        → type.marshal e ≡ ok p
        → decode db registry type rounds (type.message_name e) (law.normal p) ≡ ok e) where
    pub decoded-new_rows :
        (k : String) (n : ℕ) (c : Uuid) (i : ℕ) (es : List E)
        → All (λ e. (p : Payload) × (type.marshal e ≡ ok p)) es
        → decoded (new_rows db law registry type rounds k n c i es) ≡ es
    unfolding decoded new_rows kept_of
    decoded-new_rows k n c i [] h = refl
    decoded-new_rows k n c i (e ∷ es) ((p, marshalled), h) =
        rw (marshalled, faithful e p marshalled, decoded-new_rows k n c (i + 1) es h) refl
