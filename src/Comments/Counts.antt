-- ===== src/Comments/Counts.antt =====
-- `comment_count` of a post against its comments: app/domain/comments/service.py.
use puppytalk_be.Base.{
  ℕ, ◌+◌, ◌-◌, ◌≤◌, ◌≡◌, refl, Bool, ◌&&◌, Option, none, some, List, [], ◌∷◌, map, String, Result,
  ok, err, arith, Bool-cases, ◌∙◌, where_rows, count_rows, ◌==◌, if◌then◌else◌, inl, inr, All,
}
use puppytalk_be.Errors.{AppError}
use puppytalk_be.Db.Rows.{Db, Post, Comment}
use puppytalk_be.Db.Statements.{update_where, scalar_one_or_none}
use puppytalk_be.Db.Laws.{All-update_where, All-imp}
use puppytalk_be.Db.Single.{bit, Took, single_update}
use puppytalk_be.Comments.{is_alive}
use puppytalk_be.Comments.Service.{create_comment, update_comment, delete_comment}
use puppytalk_be.Comments.Effects.{
  Kept, at_post, count_up, count_down, undeleted_at, mark_deleted, deleted_from, rewrite_content,
  new_comment, Created, create_effect, Rewritten, update_effect, Deleted, DeleteOutcome,
  delete_effect,
}

abbrev pub alive_of : ℕ → Comment → Bool
alive_of post_id c = c.post_id == post_id && is_alive c

-- How many comments of a post are neither deleted nor blinded.
abbrev pub alive_count : List Comment → ℕ → ℕ
alive_count comments post_id = count_rows (alive_of post_id) comments

-- The count of a live post is exact, and the weaker statement that it is not too high.
abbrev pub Exact : List Comment → Post → Type 0
Exact comments p = p.deleted_at ≡ none → p.comment_count ≡ alive_count comments p.id

abbrev pub AtMost : List Comment → Post → Type 0
AtMost comments p = p.deleted_at ≡ none → p.comment_count ≤ alive_count comments p.id

abbrev pub AllCounts : (List Comment → Post → Type 0) → Db → Type 0
AllCounts P db = All (P db.comments) db.posts

-- How a write must treat a statement about counts to keep it: it moves the count of each post, and
-- the number of its alive comments, together.
pub record IsBalance (P : List Comment → Post → Type 0) : Type 0 where
  pub same :
      (cs ds : List Comment) (p : Post)
      → alive_count ds p.id ≡ alive_count cs p.id
      → P cs p
      → P ds p
  pub up :
      (cs ds : List Comment) (p q : Post)
      → q.id ≡ p.id
      → q.deleted_at ≡ p.deleted_at
      → q.comment_count ≡ p.comment_count + 1
      → alive_count ds p.id ≡ alive_count cs p.id + 1
      → P cs p
      → P ds q
  pub down :
      (cs ds : List Comment) (p q : Post)
      → q.id ≡ p.id
      → q.deleted_at ≡ p.deleted_at
      → q.comment_count ≡ p.comment_count - 1
      → alive_count ds p.id + 1 ≡ alive_count cs p.id
      → P cs p
      → P ds q

Exact-IsBalance : IsBalance Exact
Exact-IsBalance = record {
  same = λ cs ds p e h alive. omega (arith, h alive);
  up = λ cs ds p q i d c e h alive. rw i (omega (arith, h (cc (d, alive))));
  down = λ cs ds p q i d c e h alive. rw i (omega (arith, h (cc (d, alive))));
}

AtMost-IsBalance : IsBalance AtMost
AtMost-IsBalance = record {
  same = λ cs ds p e h alive. omega (arith, h alive);
  up = λ cs ds p q i d c e h alive. rw i (omega (arith, h (cc (d, alive))));
  down = λ cs ds p q i d c e h alive. rw i (omega (arith, h (cc (d, alive))));
}

count-rewrite :
    (post_id : ℕ) (cond : Comment → Bool) (now : ℕ) (content : String) (cs : List Comment)
    → alive_count (update_where cond (rewrite_content now content) cs) post_id
      ≡ alive_count cs post_id
count-rewrite post_id cond now content [] = refl
count-rewrite post_id cond now content (c ∷ cs) =
    ground (arith, count-rewrite post_id cond now content cs)

module _ (P : List Comment → Post → Type 0) (balance : IsBalance P) where
  Kept-AllCounts : (db db' : Db) → Kept db db' → AllCounts P db → AllCounts P db'
  Kept-AllCounts db db' k h = rw (k.posts, k.comments) h

  moved_up :
      (cs ds : List Comment) (now t : ℕ) (p : Post)
      → alive_count ds p.id ≡ alive_count cs p.id + bit (p.id == t)
      → P cs p
      → P ds (if at_post t p then count_up now p else p)
  moved_up cs ds now t p e h = elim (Bool-cases (p.id == t)) [
    | inl here ↦ rw here (balance.up cs ds p (count_up now p) refl refl refl (rw here at e) h)
    | inr other ↦ rw other (balance.same cs ds p (e ∙ ground (arith, other)) h)
  ]

  moved_down :
      (cs ds : List Comment) (now t : ℕ) (p : Post)
      → alive_count ds p.id + bit (p.id == t) ≡ alive_count cs p.id
      → P cs p
      → P ds (if at_post t p then count_down now p else p)
  moved_down cs ds now t p e h = elim (Bool-cases (p.id == t)) [
    | inl here ↦ rw here (balance.down cs ds p (count_down now p) refl refl refl (rw here at e) h)
    | inr other ↦ rw other (balance.same cs ds p (ground (arith, other)) h)
  ]

  Created-AllCounts :
      (new_id now post_id user_id : ℕ) (content : String) (parent_id : Option ℕ) (db db' : Db)
      → Created new_id now post_id user_id content parent_id db db'
      → AllCounts P db
      → AllCounts P db'
  Created-AllCounts new_id now post_id user_id content parent_id db db' s h =
      let cs = new_comment new_id now post_id user_id content parent_id ∷ db.comments in
      rw (s.posts, s.comments)
        (All-update_where (P db.comments) (P cs) (at_post post_id) (count_up now)
          (λ p counted. moved_up db.comments cs now post_id p (ground arith) counted) db.posts h)

  Rewritten-AllCounts :
      (now post_id comment_id : ℕ) (content : String) (db db' : Db)
      → Rewritten now post_id comment_id content db db'
      → AllCounts P db
      → AllCounts P db'
  Rewritten-AllCounts now post_id comment_id content db db' s h =
      let cs =
        update_where (undeleted_at post_id comment_id) (rewrite_content now content) db.comments in
      rw (s.posts, s.comments)
        (All-imp (P db.comments) (P cs)
          (λ p counted.
            balance.same db.comments cs p
              (count-rewrite p.id (undeleted_at post_id comment_id) now content db.comments)
              counted)
          db.posts h)

  -- The comment that was deleted stood on the post that RETURNING named, and was alive; or none was
  -- named, and no alive comment was deleted.
  Deleted-AllCounts :
      (now post_id comment_id : ℕ) (from : Option ℕ) (db db' : Db)
      → Took
          (undeleted_at post_id comment_id)
          (mark_deleted now)
          (λ c. deleted_from now (mark_deleted now c))
          db.comments
          from
      → Deleted now post_id comment_id from db db'
      → AllCounts P db
      → AllCounts P db'
  Deleted-AllCounts now post_id comment_id none db db' t s h =
      let cs = update_where (undeleted_at post_id comment_id) (mark_deleted now) db.comments in
      rw (s.posts, s.comments)
        (All-imp (P db.comments) (P cs)
          (λ p counted.
            balance.same db.comments cs p
              (ground (arith, t.counts (alive_of p.id), t.taken, t.returned)) counted)
          db.posts h)
  Deleted-AllCounts now post_id comment_id (some pid) db db' t s h =
      let cs = update_where (undeleted_at post_id comment_id) (mark_deleted now) db.comments in
      rw (s.posts, s.comments)
        (All-update_where (P db.comments) (P cs) (at_post pid) (count_down now)
          (λ p counted.
            moved_down db.comments cs now pid p
              (ground (arith, t.counts (alive_of p.id), t.taken, t.returned)) counted)
          db.posts h)

  Untaken-AllCounts :
      (now post_id comment_id : ℕ) (from : Option ℕ) (db db' : Db)
      → from ≡ none
      → update_where (undeleted_at post_id comment_id) (mark_deleted now) db.comments ≡ db.comments
      → Deleted now post_id comment_id from db db'
      → AllCounts P db
      → AllCounts P db'
  Untaken-AllCounts now post_id comment_id none db db' e same s h = rw (s.posts, s.comments, same) h
  Untaken-AllCounts now post_id comment_id (some pid) db db' e same s h = cc

  delete-AllCounts :
      (now post_id comment_id : ℕ) (db db' : Db) (returned : Result AppError (Option ℕ))
      → scalar_one_or_none (
          map
            (λ c. deleted_from now (mark_deleted now c))
            (where_rows (undeleted_at post_id comment_id) db.comments))
        ≡ returned
      → DeleteOutcome now post_id comment_id db db' returned
      → AllCounts P db
      → AllCounts P db'
  delete-AllCounts now post_id comment_id db db' (err x) e k h = Kept-AllCounts db db' k h
  delete-AllCounts now post_id comment_id db db' (ok from) e (inl k) h = Kept-AllCounts db db' k h
  delete-AllCounts now post_id comment_id db db' (ok from) e (inr s) h =
      elim (single_update (undeleted_at post_id comment_id) (mark_deleted now)
        (λ c. deleted_from now (mark_deleted now c)) db.comments from e) [
          | inl t ↦ Deleted-AllCounts now post_id comment_id from db db' t s h
          | inr (nothing, same) ↦
              Untaken-AllCounts now post_id comment_id from db db' nothing same s h
        ]

  -- Creating, editing and deleting comments.
  writes-AllCounts :
      (new_id nid now post_id user_id comment_id : ℕ) (content : String) (parent_id : Option ℕ)
      (db : Db)
      → AllCounts P db
      → AllCounts P (create_comment new_id nid now post_id user_id content parent_id db).1
        × AllCounts P (update_comment now post_id comment_id content db).1
        × AllCounts P (delete_comment now post_id comment_id db).1
  writes-AllCounts new_id nid now post_id user_id comment_id content parent_id db h = (
    elim (create_effect new_id nid now post_id user_id content parent_id db) [
      | inl k ↦ Kept-AllCounts db _ k h
      | inr s ↦ Created-AllCounts new_id now post_id user_id content parent_id db _ s h
    ],
    elim (update_effect now post_id comment_id content db) [
      | inl k ↦ Kept-AllCounts db _ k h
      | inr s ↦ Rewritten-AllCounts now post_id comment_id content db _ s h
    ],
    delete-AllCounts now post_id comment_id db _ _ refl
        (delete_effect now post_id comment_id db _ refl) h,
  )

-- Every creation, edit and deletion of a comment, whatever its outcome, keeps `comment_count` of
-- each live post equal to its comments that are neither deleted nor blinded; and where moderation has
-- left a count too low, it keeps it from being too high.
pub writes_keep_comment_count :
    (new_id nid now post_id user_id comment_id : ℕ) (content : String) (parent_id : Option ℕ)
    (db : Db)
    → let created = (create_comment new_id nid now post_id user_id content parent_id db).1 in
      let updated = (update_comment now post_id comment_id content db).1 in
      let deleted = (delete_comment now post_id comment_id db).1 in
      (AllCounts Exact db
        → AllCounts Exact created × AllCounts Exact updated × AllCounts Exact deleted)
      × (AllCounts AtMost db
          → AllCounts AtMost created × AllCounts AtMost updated × AllCounts AtMost deleted)
writes_keep_comment_count new_id nid now post_id user_id comment_id content parent_id db = (
  writes-AllCounts Exact Exact-IsBalance new_id nid now post_id user_id comment_id content parent_id
      db,
  writes-AllCounts AtMost AtMost-IsBalance new_id nid now post_id user_id comment_id content
      parent_id db,
)
