-- ===== src/Prelude/Members.antt =====
-- Membership with its position kept, which proofs take apart.
use Prim.Native.Nat.{ℕ, zero, suc}
use mathlib.Core.Path.{◌≡◌, refl, ap}
use mathlib.Core.Logic.{◌⊎◌, inl, inr}
use mathlib.Core.List.{List, [], ◌∷◌, ◌++◌, map}
use cj_beer_company.Prelude.Lists.{take, drop}

-- The element is in the list.
abbrev pub In : {A : Type 0} → A → List A → Type 0
In x [] = ⊥
In x (y ∷ ys) = (y ≡ x) ⊎ In x ys

module _ {A : Type 0} (x : A) where
  pub In-append : (xs ys : List A) → In x (xs ++ ys) → In x xs ⊎ In x ys
  In-append [] ys h = inr h
  In-append (y ∷ xs) ys (inl same) = inl (inl same)
  In-append (y ∷ xs) ys (inr h) = elim (In-append xs ys h) [ inl l ↦ inl (inr l) | inr r ↦ inr r ]

  pub In-left : (xs ys : List A) → In x xs → In x (xs ++ ys)
  In-left [] ys h = absurd h
  In-left (y ∷ xs) ys (inl same) = inl same
  In-left (y ∷ xs) ys (inr h) = inr (In-left xs ys h)

  pub In-right : (xs ys : List A) → In x ys → In x (xs ++ ys)
  In-right [] ys h = h
  In-right (y ∷ xs) ys h = inr (In-right xs ys h)

  pub In-map : {C : Type 0} (f : A → C) (xs : List A) → In x xs → In (f x) (map f xs)
  In-map f [] h = absurd h
  In-map f (y ∷ xs) (inl same) = inl (ap f same)
  In-map f (y ∷ xs) (inr h) = inr (In-map f xs h)

pub take-append-drop : {A : Type 0} (n : ℕ) (xs : List A) → take n xs ++ drop n xs ≡ xs
take-append-drop zero xs = refl
take-append-drop (suc n) [] = refl
take-append-drop (suc n) (x ∷ xs) = ap (◌∷◌ x) (take-append-drop n xs)
