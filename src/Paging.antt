-- ===== src/Paging.antt =====
-- Pages of a list: app/common/schemas.py.
pub mod Offset
mod Tests
use puppytalk_be.Base.{
  ℕ, zero, suc, ◌+◌, ◌-◌, ◌*◌, Bool, true, false, List, [], ◌∷◌, ◌++◌, take, drop, length, ltb,
  if◌then◌else◌,
}

-- `PaginatedResponse`
pub record PaginatedResponse (A : Type 0) : Type 0 where
  pub items : List A
  pub has_more : Bool
  pub total : ℕ

-- `PaginatedResponse.from_page`
abbrev pub from_page : {A : Type 0} → List A → ℕ → ℕ → ℕ → PaginatedResponse A
from_page items page size total = record {
  items = items;
  has_more = ltb (page * size) total;
  total = total;
}

-- `split_page`
abbrev pub split_page : {A : Type 0} → List A → ℕ → List A × Bool
split_page rows size = (take size rows, ltb size (length rows))

-- `offset_of`; the routers take pages from 1 on.
abbrev pub offset_of : ℕ → ℕ → ℕ
offset_of page size = (page - 1) * size

-- A list endpoint with `OFFSET offset_of(page, size) LIMIT size`, and the count of all rows.
abbrev pub offset_page : {A : Type 0} → List A → ℕ → ℕ → PaginatedResponse A
offset_page rows page size =
    from_page (take size (drop (offset_of page size) rows)) page size (length rows)

-- A client that asks for the next page as long as there is more: what it read, and in how many requests.
pub walk_pages : {A : Type 0} → List A → ℕ → ℕ → ℕ → List A × ℕ
walk_pages rows size zero page = ([], 0)
walk_pages rows size (suc fuel) page =
    let response = offset_page rows page size in
    let (rest, requests) = walk_pages rows size fuel (page + 1) in
    if response.has_more then (response.items ++ rest, requests + 1) else (response.items, 1)
