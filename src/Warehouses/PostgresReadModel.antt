-- ===== src/Warehouses/PostgresReadModel.antt =====
-- internal/warehouses/readmodel/services/postgres_availability_service.go: the durable read model. The
-- server runs the statements, and is an argument; the table is that of migrations/versions.
use cj_beer_company.Prelude.{
  String, ◌≡◌, sym, ap, ◌∙◌, Option, none, some, List, str_eq, if◌then◌else◌,
}
use cj_beer_company.CustomTypes.{Page}
use cj_beer_company.Outcome.{
  ok, not_found, continue-eq_ok, ok-injective, Exec, pure, raise, lift, ◌>>=◌,
}
use cj_beer_company.Muflone.Database.{Rows, scan_all}
use cj_beer_company.Warehouses.ReadModel.{AvailabilityDto}

-- The statements of this file, as a server runs them; `select_availability` gives none for
-- sql.ErrNoRows.
pub record AvailabilityDatabase (D : Type 0) : Type 0 where
  pub upsert : AvailabilityDto → Exec D Unit
  pub delete_all : Exec D Unit
  pub select_availability : String → Exec D (Option AvailabilityDto)
  pub select_availabilities : Page → Exec D (Rows AvailabilityDto)

found_or_missing : {D : Type 0} → Option AvailabilityDto → Exec D AvailabilityDto
found_or_missing none = raise not_found
found_or_missing (some availability) = pure availability

module _ {D : Type 0} (db : AvailabilityDatabase D) where
  unfoldable pub upsert_availability : AvailabilityDto → Exec D Unit
  upsert_availability availability = db.upsert availability

  unfoldable pub reset : Exec D Unit
  reset = db.delete_all

  unfoldable pub get_availability : String → Exec D AvailabilityDto
  unfolding found_or_missing
  get_availability beer_id = db.select_availability beer_id >>= found_or_missing

  unfoldable pub get_availabilities : Page → Exec D (List AvailabilityDto)
  unfolding scan_all
  get_availabilities page = do
    rows ← db.select_availabilities page
    lift (scan_all rows.scanned rows.failure)

-- What is relied on in the server, for one session at a time: the table is a map from the key, a uuid
-- that is found by its value and read as its canonical text.
pub record IsAvailabilityDatabase {D : Type 0} (db : AvailabilityDatabase D) : Type 0 where
  pub canonical : String → String
  pub stored : String → D → Option AvailabilityDto
  pub upsert-eq :
      (a : AvailabilityDto) (k : String) (d : D)
      → (db.upsert a d).0 ≡ ok tt
      → stored k (db.upsert a d).1 ≡ (
          if str_eq (canonical a.beer_id) (canonical k)
          then some (record a { beer_id = canonical a.beer_id })
          else stored k d)
  pub delete_all-eq :
      (k : String) (d : D) → (db.delete_all d).0 ≡ ok tt → stored k (db.delete_all d).1 ≡ none
  pub select_availability-eq :
      (k : String) (d : D) (found : Option AvailabilityDto)
      → (db.select_availability k d).0 ≡ ok found
      → found ≡ stored k d

module _ {D : Type 0} (db : AvailabilityDatabase D) (law : IsAvailabilityDatabase db) where
  found-eq :
      (found : Option AvailabilityDto) (d : D) (dto : AvailabilityDto)
      → (found_or_missing found d).0 ≡ ok dto
      → found ≡ some dto
  unfolding found_or_missing
  found-eq none d dto h = cc
  found-eq (some a) d dto h = ap some (ok-injective h)

  -- What is shown of a beer is what was projected of it last.
  pub get_availability-upsert_availability :
      (a dto : AvailabilityDto) (k : String) (d : D)
      → (upsert_availability db a d).0 ≡ ok tt
      → (get_availability db k (upsert_availability db a d).1).0 ≡ ok dto
      → (if str_eq (law.canonical a.beer_id) (law.canonical k)
          then some (record a { beer_id = law.canonical a.beer_id })
          else law.stored k d)
        ≡ some dto
  unfolding upsert_availability get_availability
  get_availability-upsert_availability a dto k d h shown =
      let d₁ = (db.upsert a d).1 in
      let (found, one, rest) = continue-eq_ok (db.select_availability k d₁).0 _ _ shown in
      sym (law.upsert-eq a k d h)
      ∙ sym (law.select_availability-eq k d₁ found one)
      ∙ found-eq found _ dto rest
