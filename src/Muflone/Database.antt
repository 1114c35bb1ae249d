-- ===== src/Muflone/Database.antt =====
-- What internal/muflone uses of database/sql: transactions, and result sets that are read row by row.
-- The server is outside: an implementation is an argument, and `IsTransactional` is what is relied on.
use cj_beer_company.Prelude.{
  ◌≡◌, refl, sym, ap, ◌∙◌, ◌⊎◌, inl, inr, List, [], ◌∷◌, Option, none, some, map,
}
use cj_beer_company.Outcome.{
  Error, Result, ok, err, Exec, pure, continue, continue-eq_ok, Result-cases, ok-injective, ◌>>◌,
}

-- What Query returns: each Next with its Scan, and what rows.Err says after the last.
pub record Rows (A : Type 0) : Type 0 where
  pub scanned : List (Result A)
  pub failure : Option Error

-- A result set that is read to its end without an error.
abbrev pub complete : {A : Type 0} → List A → Rows A
complete xs = record { scanned = map ok xs; failure = none }

values : {A : Type 0} → List (Result A) → List A
values [] = []
values (ok x ∷ xs) = x ∷ values xs
values (err e ∷ xs) = values xs

values-map : {A : Type 0} (xs : List A) → values (map ok xs) ≡ xs
unfolding values
values-map [] = refl
values-map (x ∷ xs) = ap (◌∷◌ x) (values-map xs)

-- Two queries that were answered in full with the same answer found the same rows.
pub complete-injective :
    {A : Type 0} (xs ys : List A) → ok (complete ys) ≡ ok (complete xs) → xs ≡ ys
complete-injective xs ys h =
    let same : complete ys ≡ complete xs = ok-injective h in
    sym (values-map xs) ∙ sym (ap (λ (r : Rows _). values r.scanned) same) ∙ values-map ys

-- The loop over a result set that only collects its rows.
unfoldable pub scan_all : {A : Type 0} → List (Result A) → Option Error → Result (List A)
scan_all [] none = ok []
scan_all [] (some e) = err e
scan_all (err e ∷ rows) failure = err e
scan_all (ok a ∷ rows) failure = elim (scan_all rows failure) [
  | err e ↦ err e
  | ok rest ↦ ok (a ∷ rest)
]

-- A scan that succeeds has read the whole result set.
pub scan_all_complete :
    {A : Type 0} (rows : List (Result A)) (failure : Option Error) (xs : List A)
    → scan_all rows failure ≡ ok xs
    → (rows ≡ map ok xs) × (failure ≡ none)
unfolding scan_all
scan_all_complete [] none xs h = rw (← ok-injective h) (refl, refl)
scan_all_complete [] (some e) xs h = cc
scan_all_complete (err e ∷ rows) failure xs h = cc
scan_all_complete (ok a ∷ rows) failure xs h = elim (Result-cases (scan_all rows failure)) [
  | inr (e, bad) ↦ cc (rw bad at h)
  | inl (rest, good) ↦
      let (all, end) = scan_all_complete rows failure rest good in
      (ap (◌∷◌ (ok a)) all ∙ ap (map ok) (ok-injective (rw good at h)), end)
]

-- BeginTx, Commit and Rollback, over the state of the server with the open transaction in it.
pub record Transactions (D : Type 0) : Type 0 where
  pub begin : Exec D Unit
  pub commit : Exec D Unit
  pub rollback : D → D

module _ {D A : Type 0} (tx : Transactions D) where
  -- The deferred Rollback does nothing once the transaction is done.
  ended : Result A → Exec D A
  ended (ok a) = tx.commit >> pure a
  ended (err e) = λ d. (err e, tx.rollback d)

  -- `tx, err := BeginTx; defer tx.Rollback(); body; tx.Commit()`
  unfoldable pub in_transaction : Exec D A → Exec D A
  unfolding ended
  in_transaction body = tx.begin >> (λ d. let (r, d') = body d in ended r d')

-- `committed` is what every session sees, `draft` what the open transaction sees; T is the content of
-- the tables. A Commit that reports an error may have taken effect.
pub record IsTransactional (T : Type 0) {D : Type 0} (tx : Transactions D) : Type 0 where
  pub committed : D → T
  pub draft : D → T
  pub begin-keeps : (d : D) → committed (tx.begin d).1 ≡ committed d
  pub begin-draft : (d : D) → (tx.begin d).0 ≡ ok tt → draft (tx.begin d).1 ≡ committed d
  pub rollback-keeps : (d : D) → committed (tx.rollback d) ≡ committed d
  pub commit-draft : (d : D) → (tx.commit d).0 ≡ ok tt → committed (tx.commit d).1 ≡ draft d
  pub commit-whole :
      (d : D) → (committed (tx.commit d).1 ≡ committed d) ⊎ (committed (tx.commit d).1 ≡ draft d)

module _ {D A : Type 0} where
  commit_state : (r : Result Unit) (a : A) (d : D) → (continue r (λ (_ : Unit {0}). pure a) d).1 ≡ d
  commit_state (ok u) a d = refl
  commit_state (err e) a d = refl

module _ {D A T : Type 0} (tx : Transactions D) (law : IsTransactional T tx) (body : Exec D A) where
  -- The body ran to its end, and what it makes of the tables takes effect.
  abbrev pub HasCommitted : D → D → Type 0
  HasCommitted d d' =
      ((tx.begin d).0 ≡ ok tt)
      × ((a : A) × ((body (tx.begin d).1).0 ≡ ok a))
      × (law.committed d' ≡ law.draft (body (tx.begin d).1).1)

  committed_after :
      (r : Result Unit) (a : A) (d : D) {b : A} → (continue r (λ _. pure a) d).0 ≡ ok b → r ≡ ok tt
  committed_after (ok u) a d h = refl
  committed_after (err e) a d h = cc

  ended-ok :
      (r : Result A) (d : D) {a : A}
      → (ended tx r d).0 ≡ ok a
      → (r ≡ ok a) × (law.committed (ended tx r d).1 ≡ law.draft d)
  unfolding ended
  ended-ok (err e) d h = cc
  ended-ok (ok b) d h =
      let (u, committed, rest) = continue-eq_ok (tx.commit d).0 _ _ h in
      (rest, rw (commit_state (tx.commit d).0 b (tx.commit d).1) (law.commit-draft d committed))

  -- Whatever the end, the tables are as before or as the whole body left them.
  ended-whole :
      (r : Result A) (d : D)
      → (law.committed (ended tx r d).1 ≡ law.committed d)
        ⊎ (((a : A) × (r ≡ ok a)) × (law.committed (ended tx r d).1 ≡ law.draft d))
  unfolding ended
  ended-whole (err e) d = inl (law.rollback-keeps d)
  ended-whole (ok b) d =
      let same = commit_state (tx.commit d).0 b (tx.commit d).1 in
      elim (law.commit-whole d) [
        | inl before ↦ inl (rw same before)
        | inr after ↦ inr ((b, refl), rw same after)
      ]

  -- A transaction that returns has committed.
  pub in_transaction-ok :
      (d : D) {a : A}
      → (in_transaction tx body d).0 ≡ ok a
      → HasCommitted d (in_transaction tx body d).1 × ((body (tx.begin d).1).0 ≡ ok a)
  unfolding in_transaction
  in_transaction-ok d {a} h =
      let (u, begun, rest) = continue-eq_ok (tx.begin d).0 _ _ h in
      let (returned, state) = ended-ok (body (tx.begin d).1).0 (body (tx.begin d).1).1 rest in
      rw begun ((refl, (a, returned), state), returned)

  -- A transaction takes effect as a whole or not at all, whatever error it ends with.
  pub in_transaction-whole :
      ((d : D) → law.committed (body d).1 ≡ law.committed d)
      → (d : D)
      → (law.committed (in_transaction tx body d).1 ≡ law.committed d)
        ⊎ HasCommitted d (in_transaction tx body d).1
  unfolding in_transaction
  in_transaction-whole keeps d = elim (Result-cases (tx.begin d).0) [
    | inl (u, begun) ↦
        rw begun (elim (ended-whole (body (tx.begin d).1).0 (body (tx.begin d).1).1) [
          | inl before ↦ inl (before ∙ keeps _ ∙ law.begin-keeps d)
          | inr (returned, after) ↦ inr (refl, returned, after)
        ])
    | inr (e, refused) ↦ rw refused (inl (law.begin-keeps d))
  ]

module _ {D A X : Type 0} (tx : Transactions D) (body : Exec D A) (F : D → X)
    (commit-keeps : (d : D) → F (tx.commit d).1 ≡ F d)
    (rollback-keeps : (d : D) → F (tx.rollback d) ≡ F d) where
  ended-carries : (r : Result A) (d : D) → F (ended tx r d).1 ≡ F d
  unfolding ended
  ended-carries (err e) d = rollback-keeps d
  ended-carries (ok a) d = ap F (commit_state (tx.commit d).0 a (tx.commit d).1) ∙ commit-keeps d

  -- What the end of a transaction does not touch is as the body left it.
  pub in_transaction-carries :
      (d : D) → (tx.begin d).0 ≡ ok tt → F (in_transaction tx body d).1 ≡ F (body (tx.begin d).1).1
  unfolding in_transaction
  in_transaction-carries d begun =
      rw begun (ended-carries (body (tx.begin d).1).0 (body (tx.begin d).1).1)
