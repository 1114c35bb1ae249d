-- ===== src/Warehouses/ReadModel/Listing.antt =====
-- internal/warehouses/readmodel/services/availability_service.go, GetAvailabilities: the projections by
-- the name of the beer.
use cj_beer_company.Prelude.{
  ◌≤◌, String, ◌≡◌, refl, true, false, ◌&&◌, ◌||◌, List, [], ◌∷◌, take, drop, if◌then◌else◌, arith,
  Bool-cases, inl, inr,
}
use cj_beer_company.Prelude.Int.{ℤ, pos, ltb_ℤ, pos_part}
use cj_beer_company.Prelude.Text.{str_le}
use cj_beer_company.CustomTypes.{Page, new_page}
use cj_beer_company.Outcome.{Result, ok, err, panicked}
use cj_beer_company.Warehouses.ReadModel.{AvailabilityDto}
use cj_beer_company.Sales.ReadModel.Paging.{in_bounds, new_page-InBounds}
use mathlib.Core.List.{Perm, Permᴰ}
use mathlib.Core.List.Permᴰ

insert_by_name : AvailabilityDto → List AvailabilityDto → List AvailabilityDto
insert_by_name a [] = a ∷ []
insert_by_name a (b ∷ bs) =
    if str_le a.beer_name b.beer_name then a ∷ b ∷ bs else b ∷ insert_by_name a bs

-- sort.Slice, which leaves equal names in any order, as the range over the map does before it.
unfoldable pub sort_by_name : List AvailabilityDto → List AvailabilityDto
unfolding insert_by_name
sort_by_name [] = []
sort_by_name (a ∷ as_) = insert_by_name a (sort_by_name as_)

-- `ranged` are the projections in the order in which the range over the map yields them. `make` panics
-- on a negative limit, the index on a negative offset, if the loop is entered.
unfoldable pub get_availabilities : List AvailabilityDto → Page → Result (List AvailabilityDto)
unfolding sort_by_name
get_availabilities ranged page =
    if ltb_ℤ page.limit (pos 0) || (ltb_ℤ page.offset (pos 0) && ltb_ℤ (pos 0) page.limit)
    then err panicked
    else ok (take (pos_part page.limit) (drop (pos_part page.offset) (sort_by_name ranged)))

-- Each name comes at or before the next one.
abbrev pub IsOrdered : List AvailabilityDto → Type 0
IsOrdered [] = Unit {0}
IsOrdered (a ∷ []) = Unit {0}
IsOrdered (a ∷ b ∷ bs) = (str_le a.beer_name b.beer_name ≡ true) × IsOrdered (b ∷ bs)

str_le_total : (s t : String) → str_le s t ≡ false → str_le t s ≡ true
unfolding str_le
str_le_total String.[] t h = cc
str_le_total (String.◌∷◌ c s) String.[] h = refl
str_le_total (String.◌∷◌ c s) (String.◌∷◌ d t) h = ground (arith, str_le_total s t)

before-IsOrdered :
    (a b : AvailabilityDto) (bs : List AvailabilityDto)
    → IsOrdered (b ∷ bs)
    → str_le b.beer_name a.beer_name ≡ true
    → IsOrdered (b ∷ insert_by_name a bs)
unfolding insert_by_name
before-IsOrdered a b [] h below = (below, tt)
before-IsOrdered a b (c ∷ cs) (le, h) below = elim (Bool-cases (str_le a.beer_name c.beer_name)) [
  | inl first ↦ rw first (below, (first, h))
  | inr later ↦
      rw later (le, before-IsOrdered a c cs h (str_le_total a.beer_name c.beer_name later))
]

insert_by_name-IsOrdered :
    (a : AvailabilityDto) (bs : List AvailabilityDto)
    → IsOrdered bs
    → IsOrdered (insert_by_name a bs)
unfolding insert_by_name
insert_by_name-IsOrdered a [] h = tt
insert_by_name-IsOrdered a (b ∷ bs) h = elim (Bool-cases (str_le a.beer_name b.beer_name)) [
  | inl first ↦ rw first (first, h)
  | inr later ↦ rw later (before-IsOrdered a b bs h (str_le_total a.beer_name b.beer_name later))
]

sort_by_name-IsOrdered : (xs : List AvailabilityDto) → IsOrdered (sort_by_name xs)
unfolding sort_by_name
sort_by_name-IsOrdered [] = tt
sort_by_name-IsOrdered (x ∷ xs) =
    insert_by_name-IsOrdered x (sort_by_name xs) (sort_by_name-IsOrdered xs)

insert_by_name-Perm :
    (a : AvailabilityDto) (bs : List AvailabilityDto) → Permᴰ (insert_by_name a bs) (a ∷ bs)
unfolding insert_by_name
insert_by_name-Perm a [] = Permᴰ.cons refl Permᴰ.nil
insert_by_name-Perm a (b ∷ bs) = elim (Bool-cases (str_le a.beer_name b.beer_name)) [
  | inl first ↦ rw first (Permᴰ.refl (a ∷ b ∷ bs))
  | inr later ↦
      rw later (Permᴰ.trans (Permᴰ.cons refl (insert_by_name-Perm a bs)) (Permᴰ.swap refl refl))
]

sort_by_name-Perm : (xs : List AvailabilityDto) → Permᴰ (sort_by_name xs) xs
unfolding sort_by_name
sort_by_name-Perm [] = Permᴰ.nil
sort_by_name-Perm (x ∷ xs) =
    Permᴰ.trans (insert_by_name-Perm x (sort_by_name xs)) (Permᴰ.cons refl (sort_by_name-Perm xs))

-- Whatever limit and offset a request asks for, and in whatever order the map is ranged over, listing
-- the page that NewPage makes of them does not panic: it returns at most 200 of the projections, a
-- section of an arrangement of all of them in which the names ascend.
pub get_availabilities-new_page :
    (limit offset : ℤ) (ranged : List AvailabilityDto)
    → let page = new_page limit offset in
      (all : List AvailabilityDto) × IsOrdered all
      × Perm all ranged
      × (get_availabilities ranged page
          ≡ ok (take (pos_part page.limit) (drop (pos_part page.offset) all)))
      × (pos_part page.limit ≤ 200)
unfolding get_availabilities
get_availabilities-new_page limit offset ranged =
    let page = new_page limit offset in
    let (low, high, from) = new_page-InBounds limit offset in
    (
      sort_by_name ranged,
      sort_by_name-IsOrdered ranged,
      ∣ sort_by_name-Perm ranged ∣₁,
      rw (in_bounds page.limit page.offset low from) refl,
      ground (arith, high),
    )
