-- ===== src/Comments/Replies.antt =====
-- The replies of a root, page by page: `get_replies` of app/domain/comments/service.py, with
-- `get_replies_page` and `_apply_id_keyset` of app/domain/comments/repository.py.
pub mod Sorted
pub mod Walk
pub mod Complete
mod Tests
use puppytalk_be.Base.{
  ℕ, zero, suc, ◌+◌, Bool, true, false, ◌&&◌, ◌||◌, not, Option, none, some, List, [], ◌∷◌, ◌++◌,
  map, where_rows, take, length, ltb, ◌==◌, eq_some, is_none, if◌then◌else◌,
}
use puppytalk_be.Errors.{AppError}
use puppytalk_be.Db.Rows.{Db, Comment}
use puppytalk_be.Db.Tx.{Tx, pure, query, begin, ◌>>=◌, ◌>>◌, raise_if}
use puppytalk_be.Paging.{split_page}
use puppytalk_be.Posts
use puppytalk_be.Comments
use puppytalk_be.Comments.{CommentMeta, reply_visible}

pub data ReplySort : Type 0 where
  latest oldest : ReplySort

-- `a` stands before `b`: ORDER BY id DESC, or ASC.
abbrev pub id_before : ReplySort → ℕ → ℕ → Bool
id_before ReplySort.latest a b = ltb b a
id_before ReplySort.oldest a b = ltb a b

-- ORDER BY, by insertion.
abbrev pub insert_by : ReplySort → Comment → List Comment → List Comment
insert_by sort c [] = c ∷ []
insert_by sort c (d ∷ rows) =
    if id_before sort c.id d.id then c ∷ d ∷ rows else d ∷ insert_by sort c rows

abbrev pub order_by_id : ReplySort → List Comment → List Comment
order_by_id sort [] = []
order_by_id sort (c ∷ rows) = insert_by sort c (order_by_id sort rows)

-- The WHERE clause of the cursor.
abbrev pub behind_cursor : ReplySort → Option ℕ → Comment → Bool
behind_cursor sort none c = true
behind_cursor sort (some cursor) c = id_before sort cursor c.id

-- `_apply_id_keyset`
unfoldable pub apply_id_keyset : ReplySort → Option ℕ → ℕ → List Comment → List Comment
apply_id_keyset sort cursor size rows =
    take (size + 1) (order_by_id sort (where_rows (behind_cursor sort cursor) rows))

abbrev pub reply_of : ℕ → Option ℕ → Db → Comment → Bool
reply_of parent_id viewer db c = eq_some c.parent_id parent_id && reply_visible viewer db c

-- `get_replies_page`
unfoldable pub get_replies_page : ℕ → ℕ → Option ℕ → ReplySort → Option ℕ → Tx (List Comment)
unfolding apply_id_keyset
get_replies_page parent_id size cursor sort viewer =
    query (λ db.
      apply_id_keyset sort cursor size (where_rows (reply_of parent_id viewer db) db.comments))

abbrev pub is_no_root_here : ℕ → Option CommentMeta → Bool
is_no_root_here post_id none = true
is_no_root_here post_id (some m) = not (m.post_id == post_id) || not (is_none m.parent_id)

-- `get_replies`, before the rows become responses: the page, and whether there is more.
unfoldable pub get_replies : ℕ → ℕ → ℕ → ReplySort → Option ℕ → Option ℕ → Tx (List Comment × Bool)
unfolding Posts.post_is_visible Comments.get_visible_root_meta get_replies_page
get_replies post_id comment_id size sort cursor viewer = begin (do
  visible ← Posts.post_is_visible post_id viewer
  raise_if (not visible) AppError.post_not_found
  meta ← Comments.get_visible_root_meta comment_id
  raise_if (is_no_root_here post_id meta) AppError.comment_not_found
  fetched ← get_replies_page comment_id size cursor sort viewer
  pure (split_page fetched size))
