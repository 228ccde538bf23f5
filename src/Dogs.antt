-- ===== src/Dogs.antt =====
-- The dog profiles of a user: app/domain/dogs/model.py and app/domain/dogs/service.py, with the check of
-- attached images of app/domain/media/model.py.
--
-- The table is the list of its rows; a call that raises has no rows to give, as its transaction is
-- rolled back. `draw i` is the id that the i-th new row gets. The schema's validation of an item, and
-- the row locks of the image check, are not modelled.
pub mod Upsert
mod Tests
use puppytalk_be.Base.{
  ℕ, suc, ◌+◌, ◌-◌, Bool, true, false, not, ◌&&◌, Option, none, some, String, List, [], ◌∷◌, ◌++◌,
  length, map, get_elem?, is_none, ◌==◌, where_rows, exists_row, if◌then◌else◌, Result, ok, err,
}
use puppytalk_be.Errors.{AppError}
use puppytalk_be.Db.Statements.{update_where, is_in}

-- `DogProfile`
pub record Dog : Type 0 where
  pub id : ℕ
  pub owner_id : ℕ
  pub name : String
  pub breed : String
  pub gender : String
  pub birth_date : ℕ
  pub profile_image_id : Option ℕ
  pub is_representative : Bool
  pub created_at : ℕ
  pub updated_at : ℕ

-- The columns of `Image` that the check reads.
pub record Image : Type 0 where
  pub id : ℕ
  pub deleted_at : Option ℕ

-- `DogProfileUpsertItem`; `has_image` tells whether `profile_image_id` is in `model_fields_set`.
pub record Item : Type 0 where
  pub id : Option ℕ
  pub name : String
  pub breed : String
  pub gender : String
  pub birth_date : ℕ
  pub profile_image_id : Option ℕ
  pub has_image : Bool
  pub is_representative : Bool

-- `DogProfilesRepository.get_ids_by_owner_id`
unfoldable pub get_ids_by_owner_id : ℕ → List Dog → List ℕ
get_ids_by_owner_id owner rows =
    map (λ (d : Dog). d.id) (where_rows (λ d. d.owner_id == owner) rows)

-- `DogProfilesRepository.get_owned_ids_in`
unfoldable pub get_owned_ids_in : ℕ → List ℕ → List Dog → List ℕ
get_owned_ids_in owner ids rows =
    map (λ (d : Dog). d.id) (where_rows (λ d. d.owner_id == owner && is_in d.id ids) rows)

-- The row that `create_many` makes of an item.
abbrev pub new_dog : ℕ → ℕ → ℕ → Item → Dog
new_dog id owner now item = record {
  id = id;
  owner_id = owner;
  name = item.name;
  breed = item.breed;
  gender = item.gender;
  birth_date = item.birth_date;
  profile_image_id = item.profile_image_id;
  is_representative = false;
  created_at = now;
  updated_at = now;
}

abbrev pub prepend_id :
    ℕ → Result AppError (List ℕ × List Dog) → Result AppError (List ℕ × List Dog)
prepend_id id (ok (ids, rows)) = ok (id ∷ ids, rows)
prepend_id id (err e) = err e

module _ (draw : ℕ → ℕ) where
  -- `DogProfilesRepository.create_many`: the ids of the new rows in order, and the table with them. An
  -- id that is taken violates the primary key.
  unfoldable pub create_many :
      ℕ → ℕ → ℕ → List Item → List Dog → Result AppError (List ℕ × List Dog)
  create_many i owner now [] rows = ok ([], rows)
  create_many i owner now (item ∷ items) rows =
      let rest = create_many (suc i) owner now items (new_dog (draw i) owner now item ∷ rows) in
      if exists_row (λ (d : Dog). d.id == draw i) rows
      then err AppError.integrity_error
      else prepend_id (draw i) rest

-- The SET clause of `bulk_update_by_owner`.
abbrev pub set_columns : ℕ → Item → Dog → Dog
set_columns now item d = record d {
  name = item.name;
  breed = item.breed;
  gender = item.gender;
  birth_date = item.birth_date;
  is_representative = false;
  profile_image_id = if item.has_image then item.profile_image_id else d.profile_image_id;
  updated_at = now;
}

-- `DogProfilesRepository.bulk_update_by_owner`: the statement is run for one row of values at a time.
unfoldable pub bulk_update_by_owner : ℕ → ℕ → List (ℕ × Item) → List Dog → List Dog
bulk_update_by_owner owner now [] rows = rows
bulk_update_by_owner owner now ((dog_id, item) ∷ items) rows =
    bulk_update_by_owner owner now items
      (update_where (λ d. d.owner_id == owner && d.id == dog_id) (set_columns now item) rows)

-- `DogProfilesRepository.bulk_delete_by_owner_ids`
unfoldable pub bulk_delete_by_owner_ids : ℕ → List ℕ → List Dog → List Dog
bulk_delete_by_owner_ids owner ids rows =
    where_rows (λ d. not (d.owner_id == owner && is_in d.id ids)) rows

-- `DogProfilesRepository.set_representative`: whether the dog was found, and the table after it.
unfoldable pub set_representative : ℕ → ℕ → ℕ → List Dog → Bool × List Dog
set_representative owner dog_id now rows =
    let cleared =
      update_where (λ d. d.owner_id == owner) (λ d. record d { is_representative = false }) rows in
    let chosen : Dog → Bool = λ d. d.id == dog_id && d.owner_id == owner in
    (
      exists_row chosen cleared,
      update_where chosen (λ d. record d { is_representative = true; updated_at = now }) cleared,
    )

-- `MediaRepository.assert_images_attachable`, as a test
unfoldable pub are_attachable : List ℕ → List Image → Bool
are_attachable [] images = true
are_attachable (id ∷ ids) images =
    let rest = are_attachable ids images in
    exists_row (λ (m : Image). m.id == id && is_none m.deleted_at) images && rest

-- The local variables of `upsert_dog_profile` that its loop fills.
pub record Batch : Type 0 where
  pub create_rows : List Item
  pub update_rows : List (ℕ × Item)
  pub representative_existing_id : Option ℕ
  pub representative_new_index : Option ℕ
  pub attached_image_ids : List ℕ

abbrev pub no_rows : Batch
no_rows = record {
  create_rows = [];
  update_rows = [];
  representative_existing_id = none;
  representative_new_index = none;
  attached_image_ids = [];
}

-- `if touch_dog_image and item.profile_image_id is not None`
abbrev pub attach : Bool → Option ℕ → List ℕ → List ℕ
attach true (some id) ids = ids ++ id ∷ []
attach true none ids = ids
attach false image ids = ids

-- The two arms of the loop's body.
abbrev pub sort_item : Option ℕ → Item → Batch → Batch
sort_item none item b = record b {
  create_rows = b.create_rows ++ item ∷ [];
  representative_new_index =
      if item.is_representative then some (length b.create_rows) else b.representative_new_index;
  representative_existing_id =
      if item.is_representative then none else b.representative_existing_id;
  attached_image_ids = attach item.has_image item.profile_image_id b.attached_image_ids;
}
sort_item (some dog_id) item b = record b {
  update_rows = b.update_rows ++ (dog_id, item) ∷ [];
  representative_existing_id =
      if item.is_representative then some dog_id else b.representative_existing_id;
  representative_new_index = if item.is_representative then none else b.representative_new_index;
  attached_image_ids = attach item.has_image item.profile_image_id b.attached_image_ids;
}

-- `for raw in items`
unfoldable pub sort_items : List Item → Batch → Batch
sort_items [] b = b
sort_items (item ∷ items) b = sort_items items (sort_item item.id item b)

-- `set(ids)`, in some order
abbrev pub distinct_ids : List ℕ → List ℕ
distinct_ids [] = []
distinct_ids (k ∷ ids) = let rest = distinct_ids ids in if is_in k rest then rest else k ∷ rest

-- The choice of `representative_id` at the end of `upsert_dog_profile`.
abbrev pub representative_of : Option ℕ → Option ℕ → List ℕ → Option ℕ
representative_of existing none created = existing
representative_of existing (some i) created = get_elem? created i

-- `if representative_id and requested_ids`
abbrev pub assign : ℕ → ℕ → Option ℕ → List ℕ → List Dog → List Dog
assign owner now none requested rows = rows
assign owner now (some dog_id) [] rows = rows
assign owner now (some dog_id) (k ∷ requested) rows = (set_representative owner dog_id now rows).1

-- `upsert_dog_profile` from the result of `create_many` on; `existing` are the ids it read first.
unfoldable pub finish_upsert :
    ℕ → ℕ → List ℕ → Batch → Result AppError (List ℕ × List Dog) → Result AppError (List Dog)
finish_upsert owner now existing b (err e) = err e
finish_upsert owner now existing b (ok (created, rows)) =
    let requested : List ℕ = map (λ (r : ℕ × Item). r.0) b.update_rows ++ created in
    let delete_ids : List ℕ = where_rows (λ k. not (is_in k requested)) existing in
    ok (
      assign owner now
        (representative_of b.representative_existing_id b.representative_new_index created)
        requested (bulk_delete_by_owner_ids owner delete_ids rows))

-- `DogService.upsert_dog_profile`
unfoldable pub upsert_dog_profile :
    (ℕ → ℕ) → ℕ → ℕ → List Item → List Image → List Dog → Result AppError (List Dog)
upsert_dog_profile draw now owner items images rows =
    let b : Batch = sort_items items no_rows in
    let update_ids : List ℕ = map (λ (r : ℕ × Item). r.0) b.update_rows in
    if not (length (get_owned_ids_in owner update_ids rows) == length (distinct_ids update_ids))
    then err AppError.forbidden
    else if not (are_attachable b.attached_image_ids images)
    then err AppError.invalid_request
    else finish_upsert owner now (get_ids_by_owner_id owner rows) b (
        create_many draw 0 owner now b.create_rows
          (bulk_update_by_owner owner now b.update_rows rows))
