-- ===== src/Dogs/Tests.antt =====
-- One replacement of a user's dog profiles, and the theorem at it.
use puppytalk_be.Base.{
  ℕ, ◌+◌, ◌≡◌, refl, Bool, true, false, Option, none, some, List, [], ◌∷◌, ok, err,
}
use puppytalk_be.Errors.{AppError}
use puppytalk_be.Dogs.{
  Dog, Image, Item, get_ids_by_owner_id, get_owned_ids_in, create_many, bulk_update_by_owner,
  bulk_delete_by_owner_ids, set_representative, are_attachable, sort_items, finish_upsert,
  upsert_dog_profile,
}
use puppytalk_be.Dogs.Upsert.{others, HasOne, upsert_keeps_one_representative}

abbrev dog : ℕ → ℕ → Bool → Dog
dog id owner chosen = record {
  id = id;
  owner_id = owner;
  name = "Bori";
  breed = "Jindo";
  gender = "male";
  birth_date = 1;
  profile_image_id = none;
  is_representative = chosen;
  created_at = 2;
  updated_at = 2;
}

abbrev item : Option ℕ → Option ℕ → Bool → Item
item id image chosen = record {
  id = id;
  name = "Bori";
  breed = "Jindo";
  gender = "male";
  birth_date = 1;
  profile_image_id = image;
  has_image = true;
  is_representative = chosen;
}

abbrev rows : List Dog
rows = dog 5 1 true ∷ dog 6 1 false ∷ dog 7 2 true ∷ []

-- Dog 6 is flagged first, and the new dog after it.
abbrev items : List Item
items = item (some 6) none true ∷ item none (some 30) true ∷ []

abbrev images : List Image
images = record { id = 30; deleted_at = none } ∷ []

abbrev draw : ℕ → ℕ
draw i = 20 + i

abbrev new_dog_20 : Dog
new_dog_20 = record (dog 20 1 true) { profile_image_id = some 30; created_at = 9; updated_at = 9 }

abbrev after : List Dog
after = new_dog_20 ∷ record (dog 6 1 false) { updated_at = 9 } ∷ dog 7 2 true ∷ []

replaced : upsert_dog_profile draw 9 1 items images rows ≡ ok after
unfolding upsert_dog_profile get_owned_ids_in sort_items are_attachable finish_upsert create_many
    bulk_update_by_owner bulk_delete_by_owner_ids set_representative get_ids_by_owner_id
replaced = refl

-- Another user's dog cannot be updated.
foreign_dog_refused :
    upsert_dog_profile draw 9 1 (item (some 7) none false ∷ []) images rows ≡ err AppError.forbidden
unfolding upsert_dog_profile get_owned_ids_in sort_items
foreign_dog_refused = refl

-- An image that is not there cannot be attached.
unknown_image_refused :
    upsert_dog_profile draw 9 1 (item none (some 31) false ∷ []) images rows
    ≡ err AppError.invalid_request
unfolding upsert_dog_profile get_owned_ids_in sort_items are_attachable
unknown_image_refused = refl

upsert_keeps_one_representative_example : (others 1 after ≡ others 1 rows) × HasOne 1 after
upsert_keeps_one_representative_example =
    upsert_keeps_one_representative draw 9 1 items images rows after (5, (refl, (refl, (refl, tt))))
      replaced
