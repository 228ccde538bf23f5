-- ===== src/Users/Masking.antt =====
-- The names of withdrawn users: `_mask_for_withdrawal` of app/domain/users/model.py.
use puppytalk_be.Base.{
  ℕ, ◌+◌, ◌-◌, ◌≤◌, ◌≡◌, ◌≢◌, refl, sym, ap, ◌∙◌, arith, List, [], ◌∷◌, ◌++◌, length, take,
  length-append, length-take, take_all,
}
use puppytalk_be.Ids.{codes}
use puppytalk_be.Users.{name_max_len, mask_for_withdrawal, deleted_at_suffix}

module _ {ℓ} {A : Type ℓ} where
  same_front :
      (xs ys s t : List A) → xs ++ s ≡ ys ++ t → length xs ≡ length ys → (xs ≡ ys) × (s ≡ t)
  same_front [] [] s t e h = (refl, e)
  same_front [] (y ∷ ys) s t e h = absurd (omega arith)
  same_front (x ∷ xs) [] s t e h = absurd (omega arith)
  same_front (x ∷ xs) (y ∷ ys) s t e h =
      let whole : x ∷ (xs ++ s) ≡ y ∷ (ys ++ t) = e in
      let head : x ≡ y = cc in
      let (front, back) = same_front xs ys s t (cc) (omega arith) in (cc, back)

  same_back : (xs ys s t : List A) → xs ++ s ≡ ys ++ t → length s ≡ length t → s ≡ t
  same_back xs ys s t e h =
      (same_front xs ys s t e
        (omega (arith, length-append xs s, length-append ys t, h, ap length e))).1

-- A masked name ends in the whole suffix when it has room.
mask_suffix :
    (value suffix : List ℕ)
    → length suffix ≤ 255
    → mask_for_withdrawal value suffix ≡ take (name_max_len - length suffix) value ++ suffix
mask_suffix value suffix room =
    take_all name_max_len (take (name_max_len - length suffix) value ++ suffix) (
      omega (
        arith,
        room,
        length-append (take (name_max_len - length suffix) value) suffix,
        length-take (name_max_len - length suffix) value,
      ))

-- A masked name fits the column of 255 characters.
pub mask_bounded : (value suffix : List ℕ) → length (mask_for_withdrawal value suffix) ≤ 255
mask_bounded value suffix =
    omega (arith, length-take name_max_len (take (name_max_len - length suffix) value ++ suffix))

-- The text of a UUID: 36 characters, and another one for another id.
pub record IsUuidText (uuid_text : ℕ → List ℕ) : Type 0 where
  pub size : (u : ℕ) → length (uuid_text u) ≡ 36
  pub distinct : (u v : ℕ) → uuid_text u ≡ uuid_text v → u ≡ v

-- Two users who withdraw get different names whatever their old ones were, so that neither the email
-- nor the nickname column refuses the second, where the two times have the same number of digits, at
-- most 200.
pub withdrawn_names_differ :
    (uuid_text decimal : ℕ → List ℕ)
    → IsUuidText uuid_text
    → (u v t t' : ℕ) (name name' : List ℕ) → u ≢ v
    → length (decimal t) ≡ length (decimal t')
    → length (decimal t) ≤ 200
    → mask_for_withdrawal name (deleted_at_suffix uuid_text decimal u t)
      ≢ mask_for_withdrawal name' (deleted_at_suffix uuid_text decimal v t')
withdrawn_names_differ uuid_text decimal text u v t t' name name' other digits few e =
    other (text.distinct u v ids)
  where
    suffix_size :
        (w : ℕ) (s : ℕ) → length (deleted_at_suffix uuid_text decimal w s) ≡ 46 + length (decimal s)
    suffix_size w s = omega (
      arith,
      length-append (codes "_deleted_") (uuid_text w ++ (codes "_" ++ decimal s)),
      length-append (uuid_text w) (codes "_" ++ decimal s),
      length-append (codes "_") (decimal s),
      text.size w,
    )

    suffixes : deleted_at_suffix uuid_text decimal u t ≡ deleted_at_suffix uuid_text decimal v t'
    suffixes =
        same_back (take (name_max_len - length (deleted_at_suffix uuid_text decimal u t)) name)
          (take (name_max_len - length (deleted_at_suffix uuid_text decimal v t')) name')
          (deleted_at_suffix uuid_text decimal u t) (deleted_at_suffix uuid_text decimal v t')
          (sym (
              mask_suffix name (deleted_at_suffix uuid_text decimal u t)
                (omega (arith, suffix_size u t, few)))
            ∙ e
            ∙ mask_suffix name' (deleted_at_suffix uuid_text decimal v t')
                (omega (arith, suffix_size v t', few, digits)))
          (omega (arith, suffix_size u t, suffix_size v t', digits))

    ids : uuid_text u ≡ uuid_text v
    ids =
        (same_front (uuid_text u) (uuid_text v) (codes "_" ++ decimal t) (codes "_" ++ decimal t')
          (same_front (codes "_deleted_") (codes "_deleted_")
            (uuid_text u ++ (codes "_" ++ decimal t)) (uuid_text v ++ (codes "_" ++ decimal t'))
            suffixes refl).1
          (text.size u ∙ sym (text.size v))).0
