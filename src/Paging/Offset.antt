-- ===== src/Paging/Offset.antt =====
-- What a client reads page by page: app/common/schemas.py.
use mathlib.Core.Path.{subst}
use puppytalk_be.Base.{
  ℕ, zero, suc, ◌+◌, ◌*◌, ◌≤◌, ◌<◌, ◌≡◌, refl, sym, ap, ◌∙◌, arith, true, List, [], ◌∷◌, ◌++◌, take,
  drop, length, ltb, take-append-drop, take_all, length-take, length-drop, Bool-cases, inl, inr,
  ◌↔◌, ◌⊎◌, ltb→lt,
}
use puppytalk_be.Paging.{split_page, offset_of, walk_pages}

next : (m n : ℕ) → suc (n + m) ≡ suc n + m
next m n = omega arith

module _ {A : Type 0} where
  drop_nil : (n : ℕ) → drop {A = A} n [] ≡ []
  drop_nil zero = refl
  drop_nil (suc n) = refl

  drop-drop : (m n : ℕ) (rows : List A) → drop m (drop n rows) ≡ drop (n + m) rows
  drop-drop m zero rows = ap (λ k. drop k rows) (omega arith)
  drop-drop m (suc n) [] = drop_nil m ∙ sym (drop_nil (suc n + m))
  drop-drop m (suc n) (r ∷ rows) = drop-drop m n rows ∙ ap (λ k. drop k (r ∷ rows)) (next m n)

  drop_all : (n : ℕ) (rows : List A) → length rows ≤ n → drop n rows ≡ []
  drop_all n [] h = drop_nil n
  drop_all zero (r ∷ rows) h = absurd (omega (arith, h))
  drop_all (suc n) (r ∷ rows) h = drop_all n rows (omega (arith, h))

no_offset : (s : ℕ) → 0 * s ≡ 0
no_offset s = omega arith

next_offset : (q s : ℕ) → (q + 1) * s ≡ q * s + s
next_offset q s = omega arith

module _ {A : Type 0} (rows : List A) (size : ℕ) where
  -- The page after `q` pages, and what is behind it.
  page_and_rest :
      (q : ℕ)
      → take size (drop (q * size) rows) ++ drop ((q + 1) * size) rows ≡ drop (q * size) rows
  page_and_rest q =
      ap (λ tail. take size (drop (q * size) rows) ++ tail)
        (ap (λ k. drop k rows) (next_offset q size) ∙ sym (drop-drop size (q * size) rows))
      ∙ take-append-drop size (drop (q * size) rows)

  last_page :
      (q : ℕ)
      → length rows ≤ (q + 1) * size
      → take size (drop (q * size) rows) ≡ drop (q * size) rows
  last_page q h =
      take_all size (drop (q * size) rows)
        (omega (arith, length-drop (q * size) rows, h, next_offset q size))

  at_page : (q : ℕ) → offset_of (q + 1) size ≡ q * size
  at_page q = ap (λ k. k * size) (omega arith)

  walk_from :
      (fuel q : ℕ)
      → length rows ≤ (q + fuel) * size
      → (walk_pages rows size fuel (q + 1)).0 ≡ drop (q * size) rows
  unfolding walk_pages
  walk_from zero q h = sym (drop_all (q * size) rows (omega (arith, h)))
  walk_from (suc fuel) q h = elim (Bool-cases (ltb ((q + 1) * size) (length rows))) [
    | inl more ↦
        rw (more, at_page q)
          (ap (λ tail. take size (drop (q * size) rows) ++ tail)
              (walk_from fuel (q + 1) (omega (arith, h)))
            ∙ page_and_rest q)
    | inr last ↦ rw (last, at_page q) (last_page q (ground (arith, last)))
  ]

  -- `n` requests behind `q` pages reach the end of the rows, and no request but the first is for a page
  -- behind the end.
  abbrev IsLast : ℕ → ℕ → Type 0
  IsLast q n = (length rows ≤ (q + n) * size) × ((n ≡ 1) ⊎ ((q + n) * size < length rows + size))

  one_more : (q n : ℕ) → (q + 1) * size < length rows → IsLast (q + 1) n → IsLast q (n + 1)
  one_more q n more (enough, inl e) = (
    omega (arith, enough),
    inr (subst (λ k. (q + (k + 1)) * size < length rows + size) (sym e) (omega (arith, more))),
  )
  one_more q n more (enough, inr needed) = (omega (arith, enough), inr (omega (arith, needed)))

  fuel_left :
      (fuel q : ℕ) → length rows ≤ (q + suc fuel) * size → (q + 1) * size < length rows → 1 ≤ fuel
  fuel_left zero q h more = absurd (omega (arith, h, more))
  fuel_left (suc fuel) q h more = omega arith

  requests_from :
      (fuel q : ℕ)
      → length rows ≤ (q + fuel) * size
      → 1 ≤ fuel
      → IsLast q (walk_pages rows size fuel (q + 1)).1
  unfolding walk_pages
  requests_from zero q h one = absurd (omega (arith, one))
  requests_from (suc fuel) q h one = elim (Bool-cases (ltb ((q + 1) * size) (length rows))) [
    | inl more ↦
        let goes_on = ltb→lt ((q + 1) * size) (length rows) more in
        rw more (
          one_more q (walk_pages rows size fuel (q + 1 + 1)).1 goes_on
            (requests_from fuel (q + 1) (omega (arith, h)) (fuel_left fuel q h goes_on)))
    | inr last ↦ rw last (ground (arith, last), inl refl)
  ]

from_start :
    {A : Type 0} (rows : List A) (size n : ℕ)
    → (n ≡ 1) ⊎ ((0 + n) * size < length rows + size)
    → (n ≡ 1) ⊎ (n * size < length rows + size)
from_start rows size n (inl e) = inl e
from_start rows size n (inr h) = inr (omega (arith, h))

-- A client that starts at page 1 and asks for the next page as long as `has_more` says so reads every
-- row once and in order, and its last request is the first one or for a page that has rows: it sends as
-- many requests as the pages of the size that the rows fill, and one where there is no row. The fuel is
-- any bound on these pages, and one at least.
pub walk_pages_all :
    {A : Type 0} (rows : List A) (size fuel : ℕ)
    → length rows ≤ fuel * size
    → 1 ≤ fuel
    → let (read, requests) = walk_pages rows size fuel 1 in
      (read ≡ rows)
      × (length rows ≤ requests * size)
      × ((requests ≡ 1) ⊎ (requests * size < length rows + size))
walk_pages_all rows size fuel h one =
    let (enough, needed) = requests_from rows size fuel 0 (omega (arith, h)) one in
    (
      walk_from rows size fuel 0 (omega (arith, h)) ∙ ap (λ k. drop k rows) (no_offset size),
      omega (arith, enough),
      from_start rows size (walk_pages rows size fuel 1).1 needed,
    )

take-take : {A : Type 0} (n m : ℕ) (rows : List A) → n ≤ m → take n (take m rows) ≡ take n rows
take-take zero m rows h = refl
take-take (suc n) zero rows h = absurd (omega (arith, h))
take-take (suc n) (suc m) [] h = refl
take-take (suc n) (suc m) (r ∷ rows) h =
    ap (λ tail. r ∷ tail) (take-take n m rows (omega (arith, h)))

-- `split_page` of at most `size + 1` rows that are fetched from a list gives its first page, and tells
-- whether the list goes on behind it.
pub split_page_exact :
    {A : Type 0} (rows : List A) (size : ℕ)
    → let (page, has_more) = split_page (take (size + 1) rows) size in
      (page ≡ take size rows) × ((has_more ≡ true) ↔ (size < length rows))
split_page_exact rows size = (
  take-take size (size + 1) rows (omega arith),
  (
    λ more. ground (arith, more, length-take (size + 1) rows),
    λ longer. ground (arith, longer, length-take (size + 1) rows),
  ),
)
