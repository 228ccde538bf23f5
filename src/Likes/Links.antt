-- ===== src/Likes/Links.antt =====
-- The link rows of app/domain/likes/model.py as a set with one row for each target and user.
use puppytalk_be.Base.{
  ℕ, ◌+◌, ◌≤◌, ◌≡◌, refl, Bool, true, false, ◌&&◌, not, List, [], ◌∷◌, arith, where_rows,
  count_rows, exists_row, ◌==◌, if◌then◌else◌, Bool-cases, inl, inr,
}
use puppytalk_be.Db.Rows.{Like}

-- How many likes a target has.
abbrev pub likes_of : List Like → ℕ → ℕ
likes_of links t = count_rows (λ l. l.target_id == t) links

-- The WHERE clause for one link.
abbrev pub is_link : ℕ → ℕ → Like → Bool
is_link t u l = l.target_id == t && l.user_id == u

-- The primary key: no target and user has two rows.
abbrev pub HasUniqueLinks : List Like → Type 0
HasUniqueLinks [] = Unit
HasUniqueLinks (l ∷ links) =
    (exists_row (is_link l.target_id l.user_id) links ≡ false) × HasUniqueLinks links

pub none_exists-count {ℓ} :
    {A : Type ℓ} (p : A → Bool) (rows : List A) → exists_row p rows ≡ false → count_rows p rows ≡ 0
none_exists-count p [] h = refl
none_exists-count p (r ∷ rows) h = ground (arith, none_exists-count p rows)

pub exists-count {ℓ} :
    {A : Type ℓ} (p : A → Bool) (rows : List A) → exists_row p rows ≡ true → 1 ≤ count_rows p rows
exists-count p [] h = cc
exists-count p (r ∷ rows) h = ground (arith, exists-count p rows)

exists-same :
    (t u t' u' : ℕ) (links : List Like)
    → (t' == t && u' == u) ≡ true
    → exists_row (is_link t' u') links ≡ false
    → exists_row (is_link t u) links ≡ false
exists-same t u t' u' [] e h = refl
exists-same t u t' u' (l ∷ links) e h = ground (arith, exists-same t u t' u' links e)

-- Of one link there is one row at most.
pub count-is_link :
    (t u : ℕ) (links : List Like) → HasUniqueLinks links → count_rows (is_link t u) links ≤ 1
count-is_link t u [] h = omega arith
count-is_link t u (l ∷ links) h = elim (Bool-cases (is_link t u l)) [
  | inl same ↦ rw same (
      omega (
        arith,
        none_exists-count (is_link t u) links
            (exists-same t u l.target_id l.user_id links same h.0),
      ))
  | inr other ↦ rw other (omega (arith, count-is_link t u links h.1))
]

-- What a DELETE of one link takes from each target.
pub likes_of-delete :
    (t u j : ℕ) (links : List Like)
    → likes_of links j
      ≡ likes_of (where_rows (λ l. not (is_link t u l)) links) j
        + (if t == j then count_rows (is_link t u) links else 0)
likes_of-delete t u j [] = ground arith
likes_of-delete t u j (l ∷ links) = ground (arith, likes_of-delete t u j links)

exists-where_rows :
    (p q : Like → Bool) (links : List Like)
    → exists_row p links ≡ false
    → exists_row p (where_rows q links) ≡ false
exists-where_rows p q [] h = refl
exists-where_rows p q (l ∷ links) h = ground (arith, exists-where_rows p q links)

pub where_rows-HasUniqueLinks :
    (q : Like → Bool) (links : List Like)
    → HasUniqueLinks links
    → HasUniqueLinks (where_rows q links)
where_rows-HasUniqueLinks q [] h = tt
where_rows-HasUniqueLinks q (l ∷ links) h = elim (Bool-cases (q l)) [
  | inl kept ↦ rw kept (exists-where_rows _ q links h.0, where_rows-HasUniqueLinks q links h.1)
  | inr gone ↦ rw gone (where_rows-HasUniqueLinks q links h.1)
]
