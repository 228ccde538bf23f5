-- ===== src/Comments/Recount.antt =====
-- What blinding and unblinding a comment leave behind: `CommentModeration` of
-- app/domain/comments/service.py.
use puppytalk_be.Base.{
  ℕ, ◌≡◌, Bool, true, false, ◌&&◌, Option, none, some, List, Result, ok, err, count_rows,
  exists_row, ◌==◌, ◌⊎◌, All,
}
use puppytalk_be.Errors.{AppError}
use puppytalk_be.Db.Rows.{Db, Post, Comment}
use puppytalk_be.Comments.{is_alive}
use puppytalk_be.Comments.Resync.{Moderated}

-- A root needs no parent; the parent of a reply is to be neither deleted nor blinded.
abbrev pub has_visible_parent : List Comment → Option ℕ → Bool
has_visible_parent comments none = true
has_visible_parent comments (some q) =
    exists_row (λ (d : Comment). d.id == q && is_alive d) comments

-- How many comments of a post are neither deleted nor blinded, with those replies only whose parent is
-- neither.
abbrev pub visible_total : List Comment → ℕ → ℕ
visible_total comments post_id =
    count_rows
      (λ (c : Comment).
        c.post_id == post_id && (is_alive c && has_visible_parent comments c.parent_id))
      comments

-- Nothing has changed, or the comment's post has the count of its visible comments.
abbrev pub Recounted : ℕ → Db → Db → Type 0
Recounted comment_id db db' =
    ((db'.comments ≡ db.comments) × (db'.posts ≡ db.posts))
    ⊎ ((pid : ℕ) × (exists_row (λ (c : Comment). c.id == comment_id && c.post_id == pid) db.comments
          ≡ true)
        × All (λ (p : Post). p.id ≡ pid → p.comment_count ≡ visible_total db'.comments pid)
            db'.posts)

-- A transition that raises changes nothing; behind one that returns no comment is left that it would
-- change.
abbrev pub Settled : (Comment → Bool) → ℕ → Db → Result AppError Bool × Db → Type 0
Settled cond comment_id db (err x, db') = (db'.comments ≡ db.comments) × (db'.posts ≡ db.posts)
Settled cond comment_id db (ok b, db') =
    (exists_row cond db'.comments ≡ false) × Recounted comment_id db db'

-- What a transition that returned has done, by what RETURNING gave.
abbrev Done : (Comment → Bool) → Bool → ℕ → Db → Db → Result AppError (Option ℕ) → Type 0
Done cond b now db db' (err x) = false ≡ true
Done cond b now db db' (ok from) = Moderated cond b now from db db'
