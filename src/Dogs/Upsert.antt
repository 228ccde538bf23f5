-- ===== src/Dogs/Upsert.antt =====
-- Replacing a user's dog profiles touches no one else's, and leaves one representative at most:
-- app/domain/dogs/service.py.
use mathlib.Core.Path.{subst}
use puppytalk_be.Base.{
  ℕ, suc, ◌≡◌, refl, ◌∙◌, arith, Bool, true, false, not, ◌&&◌, Option, none, some, List, [], ◌∷◌,
  ◌++◌, map, ◌==◌, where_rows, exists_row, if◌then◌else◌, All, Bool-cases, inl, inr, Result, ok,
  err, ==_refl, length,
}
use puppytalk_be.Errors.{AppError}
use puppytalk_be.Db.Statements.{update_where, is_in}
use puppytalk_be.Db.Laws.{All-update_where, All-where_rows}
use puppytalk_be.Dogs.{
  Dog, Image, Item, Batch, new_dog, prepend_id, create_many, set_columns, bulk_update_by_owner,
  bulk_delete_by_owner_ids, set_representative, assign, representative_of, finish_upsert,
  upsert_dog_profile, sort_items, no_rows, get_owned_ids_in, distinct_ids, are_attachable,
  get_ids_by_owner_id,
}

-- The rows of the other users.
abbrev pub others : ℕ → List Dog → List Dog
others owner rows = where_rows (λ d. not (d.owner_id == owner)) rows

-- No dog of the owner but `r` is a representative.
abbrev pub IsOnly : ℕ → ℕ → Dog → Type 0
IsOnly owner r d = (d.owner_id == owner && (d.is_representative && not (d.id == r))) ≡ false

-- The owner has one representative dog at most.
abbrev pub HasOne : ℕ → List Dog → Type 0
HasOne owner rows = (r : ℕ) × All (IsOnly owner r) rows

-- What holds of a table when the statements on this owner's dogs have made it from another.
abbrev IsKept : ℕ → ℕ → List Dog → List Dog → Type 0
IsKept owner r rows rows' = (others owner rows' ≡ others owner rows) × All (IsOnly owner r) rows'

-- A call that returned has passed the guard.
passed :
    {A : Type 0} (guard : Bool) (x : AppError) (rest : Result AppError A) (a : A)
    → (if guard then err x else rest) ≡ ok a
    → rest ≡ ok a
passed true x rest a e = absurd cc
passed false x rest a e = e

module _ (owner : ℕ) where
  module _ (cond : Dog → Bool) (f : Dog → Dog)
      (own : (d : Dog) → cond d ≡ true → (d.owner_id == owner) ≡ true)
      (kept : (d : Dog) → (f d).owner_id ≡ d.owner_id) where
    update-others : (rows : List Dog) → others owner (update_where cond f rows) ≡ others owner rows
    update-others [] = refl
    update-others (d ∷ rows) = elim (Bool-cases (cond d)) [
      | inl e ↦ rw (e, kept d, own d e, update-others rows) refl
      | inr e ↦ rw (e, update-others rows) refl
    ]

  delete-others :
      (ids : List ℕ) (rows : List Dog)
      → others owner (bulk_delete_by_owner_ids owner ids rows) ≡ others owner rows
  unfolding bulk_delete_by_owner_ids
  delete-others ids [] = refl
  delete-others ids (d ∷ rows) = ground (arith, delete-others ids rows)

  bulk_update-IsKept :
      (r now : ℕ) (items : List (ℕ × Item)) (rows : List Dog)
      → All (IsOnly owner r) rows
      → IsKept owner r rows (bulk_update_by_owner owner now items rows)
  unfolding bulk_update_by_owner
  bulk_update-IsKept r now [] rows h = (refl, h)
  bulk_update-IsKept r now ((dog_id, item) ∷ items) rows h =
      let cond : Dog → Bool = λ d. d.owner_id == owner && d.id == dog_id in
      let here : All (IsOnly owner r) (update_where cond (set_columns now item) rows) =
        All-update_where (IsOnly owner r) (IsOnly owner r) cond (set_columns now item)
          (λ d p. ground arith) rows h in
      let (same, only) =
        bulk_update-IsKept r now items (update_where cond (set_columns now item) rows) here in
      (
        same ∙ update-others cond (set_columns now item) (λ d e. ground arith) (λ d. refl) rows,
        only,
      )

  new-others :
      (id now : ℕ) (item : Item) (rows : List Dog)
      → others owner (new_dog id owner now item ∷ rows) ≡ others owner rows
  new-others id now item rows = rw (==_refl owner) refl

  -- What `prepend_id` gave, it gave from a table.
  prepended :
      (id : ℕ) {created : List ℕ} {rows' : List Dog} (result : Result AppError (List ℕ × List Dog))
      → prepend_id id result ≡ ok (created, rows')
      → (ids : List ℕ) × (result ≡ ok (ids, rows'))
  prepended id (ok (ids, rows)) e = (ids, cc)
  prepended id (err x) e = absurd cc

  create_many-IsKept :
      (draw : ℕ → ℕ) (r i now : ℕ) (items : List Item) (rows : List Dog) (created : List ℕ)
      (rows' : List Dog)
      → All (IsOnly owner r) rows
      → create_many draw i owner now items rows ≡ ok (created, rows')
      → IsKept owner r rows rows'
  unfolding create_many
  create_many-IsKept draw r i now [] rows created rows' h e =
      let same : rows ≡ rows' = cc in subst (IsKept owner r rows) same (refl, h)
  create_many-IsKept draw r i now (item ∷ items) rows created rows' h e =
      let d : Dog = new_dog (draw i) owner now item in
      let rest = create_many draw (suc i) owner now items (d ∷ rows) in
      let taken : Bool = exists_row (λ (d : Dog). d.id == draw i) rows in
      let (ids, made) =
        prepended (draw i) rest
          (passed taken AppError.integrity_error (prepend_id (draw i) rest) (created, rows') e) in
      let (same, only) =
        create_many-IsKept draw r (suc i) now items (d ∷ rows) ids rows' (ground arith, h) made in
      (same ∙ new-others (draw i) now item rows, only)

  set_representative-others :
      (dog_id now : ℕ) (rows : List Dog)
      → others owner (set_representative owner dog_id now rows).1 ≡ others owner rows
  unfolding set_representative
  set_representative-others dog_id now rows =
      let clear : Dog → Dog = λ d. record d { is_representative = false } in
      let own : Dog → Bool = λ d. d.owner_id == owner in
      update-others (λ d. d.id == dog_id && d.owner_id == owner)
        (λ d. record d { is_representative = true; updated_at = now }) (λ d e. ground arith)
        (λ d. refl) (update_where own clear rows)
      ∙ update-others own clear (λ d e. e) (λ d. refl) rows

  -- After the first statement no dog of the owner is a representative.
  abbrev IsClear : Dog → Type 0
  IsClear d = (d.owner_id == owner && d.is_representative) ≡ false

  cleared_rows :
      (rows : List Dog)
      → All IsClear (
          update_where
            (λ d. d.owner_id == owner)
            (λ d. record d { is_representative = false })
            rows)
  cleared_rows [] = tt
  cleared_rows (d ∷ rows) = (ground arith, cleared_rows rows)

  set_representative-All :
      (dog_id now : ℕ) (rows : List Dog)
      → All (IsOnly owner dog_id) (set_representative owner dog_id now rows).1
  unfolding set_representative
  set_representative-All dog_id now rows =
      All-update_where IsClear (IsOnly owner dog_id) (λ d. d.id == dog_id && d.owner_id == owner)
        (λ d. record d { is_representative = true; updated_at = now }) (λ d p. ground arith)
        (update_where (λ d. d.owner_id == owner) (λ d. record d { is_representative = false }) rows)
        (cleared_rows rows)

  -- The end of the upsert keeps the other rows, and gives the one representative.
  assign-others :
      (now : ℕ) (dog : Option ℕ) (requested : List ℕ) (rows : List Dog)
      → others owner (assign owner now dog requested rows) ≡ others owner rows
  assign-others now none requested rows = refl
  assign-others now (some dog_id) [] rows = refl
  assign-others now (some dog_id) (k ∷ requested) rows = set_representative-others dog_id now rows

  assign-HasOne :
      (now : ℕ) (dog : Option ℕ) (requested : List ℕ) (rows : List Dog)
      → HasOne owner rows
      → HasOne owner (assign owner now dog requested rows)
  assign-HasOne now none requested rows h = h
  assign-HasOne now (some dog_id) [] rows h = h
  assign-HasOne now (some dog_id) (k ∷ requested) rows h =
      (dog_id, set_representative-All dog_id now rows)

  finish_upsert_keeps :
      (now r : ℕ) (existing : List ℕ) (b : Batch) (rows : List Dog)
      (made : Result AppError (List ℕ × List Dog)) (rows' : List Dog)
      → ((created : List ℕ) (after : List Dog)
          → made ≡ ok (created, after)
          → IsKept owner r rows after)
      → finish_upsert owner now existing b made ≡ ok rows'
      → (others owner rows' ≡ others owner rows) × HasOne owner rows'
  unfolding finish_upsert bulk_delete_by_owner_ids
  finish_upsert_keeps now r existing b rows (err x) rows' kept e = absurd cc
  finish_upsert_keeps now r existing b rows (ok (created, after)) rows' kept e =
      let (same, only) = kept created after refl in
      let requested : List ℕ = map (λ (r : ℕ × Item). r.0) b.update_rows ++ created in
      let delete_ids : List ℕ = where_rows (λ k. not (is_in k requested)) existing in
      let dog : Option ℕ =
        representative_of b.representative_existing_id b.representative_new_index created in
      let left : List Dog = bulk_delete_by_owner_ids owner delete_ids after in
      let result : assign owner now dog requested left ≡ rows' = cc in
      subst (λ x. (others owner x ≡ others owner rows) × HasOne owner x) result
        (
          assign-others now dog requested left ∙ (delete-others delete_ids after ∙ same),
          assign-HasOne now dog requested left (
            r,
            All-where_rows (IsOnly owner r)
                (λ d. not (d.owner_id == owner && is_in d.id delete_ids)) after only,
          ),
        )

-- When at most one id is that of a representative dog of the owner, and replacing the owner's dog
-- profiles succeeds, at most one is afterwards, whichever items the request flags as representative;
-- and the rows of every other user are what they were, in the same order.
pub upsert_keeps_one_representative :
    (draw : ℕ → ℕ) (now owner : ℕ) (items : List Item) (images : List Image) (rows rows' : List Dog)
    → HasOne owner rows
    → upsert_dog_profile draw now owner items images rows ≡ ok rows'
    → (others owner rows' ≡ others owner rows) × HasOne owner rows'
unfolding upsert_dog_profile
upsert_keeps_one_representative draw now owner items images rows rows' (r, h) e =
    let b : Batch = sort_items items no_rows in
    let updated : List Dog = bulk_update_by_owner owner now b.update_rows rows in
    let (same, only) = bulk_update-IsKept owner r now b.update_rows rows h in
    let update_ids : List ℕ = map (λ (r : ℕ × Item). r.0) b.update_rows in
    let foreign : Bool =
      not (length (get_owned_ids_in owner update_ids rows) == length (distinct_ids update_ids)) in
    let refused : Bool = not (are_attachable b.attached_image_ids images) in
    let finished : Result AppError (List Dog) =
      finish_upsert owner now (get_ids_by_owner_id owner rows) b
        (create_many draw 0 owner now b.create_rows updated) in
    finish_upsert_keeps owner now r (get_ids_by_owner_id owner rows) b rows
      (create_many draw 0 owner now b.create_rows updated) rows'
      (λ created after made.
        let (same', only') =
          create_many-IsKept owner draw r 0 now b.create_rows updated created after only made in
        (same' ∙ same, only'))
      (passed refused AppError.invalid_request finished rows' (
        passed foreign AppError.forbidden
          (if refused then err AppError.invalid_request else finished) rows' e))
