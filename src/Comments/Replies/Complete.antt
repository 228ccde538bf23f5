-- ===== src/Comments/Replies/Complete.antt =====
-- All pages of the replies of a root, one behind the other: app/domain/comments/service.py.
use puppytalk_be.Base.{
  ℕ, zero, suc, ◌+◌, ◌*◌, ◌≤◌, ◌<◌, ◌≡◌, refl, ap, ◌∙◌, arith, Bool, true, false, Option, none,
  List, [], ◌∷◌, ◌++◌, where_rows, take, drop, length, ltb, if◌then◌else◌, Bool-cases, inl, inr,
  take-append-drop, take_all, length-drop,
}
use puppytalk_be.Db.Rows.{Comment}
use puppytalk_be.Paging.{split_page}
use puppytalk_be.Paging.Offset.{split_page_exact}
use puppytalk_be.Comments.Replies.{ReplySort, order_by_id, behind_cursor, apply_id_keyset}
use puppytalk_be.Comments.Replies.Sorted.{HasDistinctIds, order_by_id-IsSorted}
use puppytalk_be.Comments.Replies.Walk.{
  last_id, where_rows-order_by_id, where_rows-IsSorted, All-where_true, next_rows,
}

-- A client that asks for the replies behind the last one it has, as long as there is more.
pub walk_replies : ReplySort → List Comment → ℕ → ℕ → Option ℕ → List Comment
walk_replies sort rows size zero cursor = []
walk_replies sort rows size (suc fuel) cursor =
    let (page, has_more) = split_page (apply_id_keyset sort cursor size rows) size in
    let rest = walk_replies sort rows size fuel (last_id cursor page) in
    if has_more then page ++ rest else page

no_more : (b : Bool) (n m : ℕ) → (b ≡ true → n < m) → ltb n m ≡ false → b ≡ false
no_more true n m h k = ground (arith, h refl, k)
no_more false n m h k = refl

nothing_found : (rows : List Comment) → length rows ≤ 0 → [] ≡ rows
nothing_found [] h = refl
nothing_found (c ∷ rows) h = absurd (omega (arith, h))

is_longer : (n m : ℕ) → ltb n m ≡ true → n < m
is_longer n m h = ground (arith, h)

is_shorter : (n m : ℕ) → ltb n m ≡ false → m ≤ n
is_shorter n m h = ground (arith, h)

module _ (sort : ReplySort) (rows : List Comment) (distinct : HasDistinctIds rows) (n : ℕ) where
  -- The rows that are behind the cursor, in order.
  abbrev found : Option ℕ → List Comment
  found cursor = where_rows (behind_cursor sort cursor) (order_by_id sort rows)

  fetched :
      (cursor : Option ℕ)
      → apply_id_keyset sort cursor (suc n) rows ≡ take (suc n + 1) (found cursor)
  unfolding apply_id_keyset
  fetched cursor =
      ap (take (suc n + 1)) (where_rows-order_by_id sort (behind_cursor sort cursor) rows distinct)

  found_next :
      (cursor : Option ℕ)
      → suc n < length (found cursor)
      → found (last_id cursor (take (suc n) (found cursor))) ≡ drop (suc n) (found cursor)
  found_next cursor more =
      next_rows sort cursor n (order_by_id sort rows) (found cursor) refl
        (where_rows-IsSorted sort (behind_cursor sort cursor) (order_by_id sort rows)
          (order_by_id-IsSorted sort rows distinct))
        (All-where_true sort (behind_cursor sort cursor) (order_by_id sort rows))
        (omega (arith, more))

  walk_found :
      (fuel : ℕ) (cursor : Option ℕ)
      → length (found cursor) ≤ fuel * suc n
      → walk_replies sort rows (suc n) fuel cursor ≡ found cursor
  unfolding walk_replies
  walk_found zero cursor h = nothing_found (found cursor) (omega (arith, h))
  walk_found (suc fuel) cursor h =
      let rest = found cursor in
      let exact = split_page_exact rest (suc n) in
      elim (Bool-cases (ltb (suc n) (length rest))) [
        | inl more ↦
            let longer = is_longer (suc n) (length rest) more in
            let next = found_next cursor longer in
            rw (fetched cursor, exact.1.1 longer, exact.0)
              (ap (λ tail. take (suc n) rest ++ tail)
                  (walk_found fuel (last_id cursor (take (suc n) rest))
                      (omega (arith, h, ap (λ l. length l) next, length-drop (suc n) rest))
                    ∙ next)
                ∙ take-append-drop (suc n) rest)
        | inr last ↦
            rw (fetched cursor, no_more _ (suc n) (length rest) exact.1.0 last, exact.0)
              (take_all (suc n) rest (is_shorter (suc n) (length rest) last))
      ]

where_every : (rows : List Comment) → where_rows (λ (c : Comment). true) rows ≡ rows
where_every [] = refl
where_every (c ∷ rows) = ap (λ rest. c ∷ rest) (where_every rows)

-- A client that starts without a cursor, asks for the page behind the last reply it has as long as
-- there is more, and sorts either way, reads every reply once and in the order of their ids. The ids
-- are distinct, a page has a reply at least, and the requests allowed are as many as the pages of that
-- size that the replies fill.
pub walk_replies_all :
    (sort : ReplySort) (rows : List Comment) (n fuel : ℕ)
    → HasDistinctIds rows
    → length (order_by_id sort rows) ≤ fuel * suc n
    → walk_replies sort rows (suc n) fuel none ≡ order_by_id sort rows
walk_replies_all sort rows n fuel distinct h =
    walk_found sort rows distinct n fuel none
      (omega (arith, h, ap (λ l. length l) (where_every (order_by_id sort rows))))
    ∙ where_every (order_by_id sort rows)
