-- ===== src/Muflone/PostgresEventStore/NewRows.antt =====
-- The rows that an Append adds come last in the order of their stream, and in no other stream.
use cj_beer_company.Prelude.{
  ℕ, ◌+◌, ◌≤◌, String, ◌≡◌, refl, sym, ap, ◌∙◌, false, List, [], ◌∷◌, ◌++◌, arith, length, str_eq,
  eq_refl, append-nil, append_assoc,
}
use cj_beer_company.CustomTypes.{Uuid}
use cj_beer_company.Muflone.Registry.{EventRegistry}
use cj_beer_company.Muflone.ServiceBus.{MessageType}
use cj_beer_company.Muflone.PostgresEventStore.{EventRow, EventDatabase}
use cj_beer_company.Muflone.PostgresEventStore.Table.{
  max_version, in_order, in_order-snoc, in_order-other, max_version-snoc,
}
use cj_beer_company.Muflone.PostgresEventStore.Appending.{IsEventDatabase, kept_of, new_rows}

module _ {D E : Type 0} (db : EventDatabase D) (law : IsEventDatabase db)
    (registry : EventRegistry E) (type : MessageType E) (rounds : ℕ) where
  pub in_order-new_rows :
      (k : String) (n : ℕ) (c : Uuid) (i : ℕ) (es : List E) (rs : List EventRow)
      → max_version k rs ≤ n + i
      → in_order k (rs ++ new_rows db law registry type rounds k n c i es)
        ≡ in_order k rs ++ new_rows db law registry type rounds k n c i es
  unfolding new_rows
  in_order-new_rows k n c i [] rs h = rw (append-nil, append-nil) refl
  in_order-new_rows k n c i (e ∷ es) rs h =
      let row : EventRow = record {
        stream_id = k;
        version = n + i + 1;
        commit_id = c;
        event_type = type.message_name e;
        payload = kept_of db law registry type rounds (type.marshal e);
      } in
      let rest = new_rows db law registry type rounds k n c (i + 1) es in
      let grown : max_version k (rs ++ row ∷ []) ≤ n + (i + 1) =
        rw (max_version-snoc k row rs, eq_refl k) (ground arith) in
      ap (in_order k) (sym (append_assoc rs (row ∷ []) rest))
      ∙ in_order-new_rows k n c (i + 1) es (rs ++ row ∷ []) grown
      ∙ ap (λ xs. xs ++ rest) (in_order-snoc k row rs (eq_refl k) (omega (arith, h)))
      ∙ append_assoc (in_order k rs) (row ∷ []) rest

  pub in_order-new_other :
      (k j : String) (n : ℕ) (c : Uuid) (i : ℕ) (es : List E) (rs : List EventRow)
      → str_eq k j ≡ false
      → in_order j (rs ++ new_rows db law registry type rounds k n c i es) ≡ in_order j rs
  unfolding new_rows
  in_order-new_other k j n c i [] rs other = rw append-nil refl
  in_order-new_other k j n c i (e ∷ es) rs other =
      let row : EventRow = record {
        stream_id = k;
        version = n + i + 1;
        commit_id = c;
        event_type = type.message_name e;
        payload = kept_of db law registry type rounds (type.marshal e);
      } in
      ap (in_order j) (sym (append_assoc rs (row ∷ []) _))
      ∙ in_order-new_other k j n c (i + 1) es (rs ++ row ∷ []) other
      ∙ in_order-other j row rs other

  pub max_version-new_rows :
      (k : String) (n : ℕ) (c : Uuid) (i : ℕ) (es : List E) (rs : List EventRow)
      → max_version k rs ≡ n + i
      → max_version k (rs ++ new_rows db law registry type rounds k n c i es) ≡ n + i + length es
  unfolding new_rows
  max_version-new_rows k n c i [] rs h = rw append-nil (omega (arith, h))
  max_version-new_rows k n c i (e ∷ es) rs h =
      let row : EventRow = record {
        stream_id = k;
        version = n + i + 1;
        commit_id = c;
        event_type = type.message_name e;
        payload = kept_of db law registry type rounds (type.marshal e);
      } in
      let grown : max_version k (rs ++ row ∷ []) ≡ n + (i + 1) =
        rw (max_version-snoc k row rs, eq_refl k) (ground arith) in
      ap (max_version k) (sym (append_assoc rs (row ∷ []) _))
      ∙ max_version-new_rows k n c (i + 1) es (rs ++ row ∷ []) grown
      ∙ omega arith
