-- ===== src/Paging/Tests.antt =====
-- Runs of app/common/schemas.py on short lists, and the theorems at such inputs.
use puppytalk_be.Base.{
  ℕ, ◌+◌, ◌*◌, ◌≤◌, ◌⊎◌, ◌<◌, ◌≡◌, ◌↔◌, refl, arith, true, false, List, [], ◌∷◌, take, length,
}
use puppytalk_be.Paging.{offset_page, split_page, walk_pages}
use puppytalk_be.Paging.Offset.{walk_pages_all, split_page_exact}

abbrev five : List ℕ
five = 1 ∷ 2 ∷ 3 ∷ 4 ∷ 5 ∷ []

full_last_page : (offset_page {A = ℕ} (1 ∷ 2 ∷ 3 ∷ 4 ∷ []) 2 2).has_more ≡ false
full_last_page = refl

walk_pages_all_example :
    let (read, requests) = walk_pages five 2 3 1 in
    (read ≡ five)
    × (length five ≤ requests * 2)
    × ((requests ≡ 1) ⊎ (requests * 2 < length five + 2))
walk_pages_all_example = walk_pages_all five 2 3 (omega arith) (omega arith)

split_five :
    let (page, has_more) = split_page (take (2 + 1) five) 2 in
    (page ≡ take 2 five) × ((has_more ≡ true) ↔ (2 < length five))
split_five = split_page_exact five 2
