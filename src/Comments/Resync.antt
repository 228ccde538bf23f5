-- ===== src/Comments/Resync.antt =====
-- `CommentModeration` of app/domain/comments/service.py and `comment_count`: a transition counts the
-- visible comments of the post anew.
use puppytalk_be.Base.{
  ℕ, ◌≤◌, ◌≡◌, ◌≢◌, refl, max, Bool, true, false, ◌&&◌, not, Option, none, some, List, [], ◌∷◌, map,
  Result, ok, err, arith, Bool-cases, where_rows, count_rows, ◌==◌, is_none, if◌then◌else◌, ◌⊎◌,
  inl, inr, ==_iff,
}
use puppytalk_be.Errors.{AppError}
use puppytalk_be.Db.Rows.{Db, Post, Comment}
use puppytalk_be.Db.Tx.{begin}
use puppytalk_be.Db.Statements.{update_where, scalar_one_or_none}
use puppytalk_be.Db.Laws.{All-update_where}
use puppytalk_be.Db.Single.{Took, single_update}
use puppytalk_be.Comments.{counts_for}
use puppytalk_be.Comments.Moderation.{set_blinded, unblind}
use puppytalk_be.Comments.Effects.{Kept, at_post}
use puppytalk_be.Comments.Counts.{AllCounts, AtMost, alive_count, alive_of}

-- The WHERE and SET clauses of the two transitions.
abbrev pub blindable : ℕ → Comment → Bool
blindable comment_id c = c.id == comment_id && is_none c.deleted_at && not c.is_blinded

abbrev pub unblindable : ℕ → Comment → Bool
unblindable comment_id c = c.id == comment_id && is_none c.deleted_at && c.is_blinded

abbrev pub mark_blinded : Bool → ℕ → Comment → Comment
mark_blinded b now c = record c { is_blinded = b; updated_at = now }

abbrev pub visible_count : List Comment → ℕ → ℕ
visible_count comments post_id = count_rows (counts_for post_id comments) comments

abbrev pub recount : ℕ → ℕ → Post → Post
recount now value p = record p { updated_at = now; comment_count = max 0 value }

-- A transition of the comment that `cond` selects, on the post that RETURNING named; or no
-- transition.
pub record Moderated (cond : Comment → Bool) (b : Bool) (now : ℕ) (from : Option ℕ) (db db' : Db)
    : Type 0 where
  pub comments : db'.comments ≡ update_where cond (mark_blinded b now) db.comments
  pub posts : db'.posts ≡ elim from [
    | none ↦ db.posts
    | some pid ↦ update_where (at_post pid) (recount now (visible_count db'.comments pid)) db.posts
  ]

abbrev pub ModerationOutcome :
    (Comment → Bool) → Bool → ℕ → Db → Db → Result AppError (Option ℕ) → Type 0
ModerationOutcome cond b now db db' (ok from) = Kept db db' ⊎ Moderated cond b now from db db'
ModerationOutcome cond b now db db' (err e) = Kept db db'

-- What RETURNING gives for a transition.
abbrev pub returned_by : (Comment → Bool) → Bool → ℕ → Db → Result AppError (Option ℕ)
returned_by cond b now db =
    scalar_one_or_none
      (map (λ c. some (mark_blinded b now c).post_id) (where_rows cond db.comments))

pub blind_effect :
    (now comment_id : ℕ) (db : Db) (returned : Result AppError (Option ℕ))
    → returned_by (blindable comment_id) true now db ≡ returned
    → ModerationOutcome
        (blindable comment_id)
        true
        now
        db
        (begin (set_blinded now comment_id) db).1
        returned
unfolding set_blinded
blind_effect now comment_id db (err e) h = ground arith
blind_effect now comment_id db (ok none) h = ground arith
blind_effect now comment_id db (ok (some pid)) h = ground arith

pub unblind_effect :
    (now comment_id : ℕ) (db : Db) (returned : Result AppError (Option ℕ))
    → returned_by (unblindable comment_id) false now db ≡ returned
    → ModerationOutcome
        (unblindable comment_id)
        false
        now
        db
        (begin (unblind now comment_id) db).1
        returned
unfolding unblind
unblind_effect now comment_id db (err e) h = ground arith
unblind_effect now comment_id db (ok none) h = ground arith
unblind_effect now comment_id db (ok (some pid)) h = ground arith

-- What is counted anew is alive.
count_rows-le {ℓ} :
    {A : Type ℓ} (p q : A → Bool) (rows : List A)
    → ((r : A) → p r ≡ true → q r ≡ true)
    → count_rows p rows ≤ count_rows q rows
count_rows-le p q [] imp = omega arith
count_rows-le p q (r ∷ rows) imp = ground (arith, imp r, count_rows-le p q rows imp)

visible-le-alive :
    (comments : List Comment) (post_id : ℕ)
    → visible_count comments post_id ≤ alive_count comments post_id
visible-le-alive comments post_id =
    count_rows-le (counts_for post_id comments) (alive_of post_id) comments
      (λ c h. ground (arith, h))

ne_of : (a b : ℕ) → (a == b) ≡ false → a ≢ b
ne_of a b h = ground arith

module _ (cond : Comment → Bool) (b : Bool) (now : ℕ) where
  -- A transition on one post leaves the alive comments of the others alone.
  other_posts :
      (db : Db) (pid : ℕ) (p : Post)
      → Took cond
          (mark_blinded b now)
          (λ c. some (mark_blinded b now c).post_id)
          db.comments
          (some pid)
      → p.id ≢ pid
      → alive_count (update_where cond (mark_blinded b now) db.comments) p.id
        ≡ alive_count db.comments p.id
  other_posts db pid p t ne = ground (arith, t.counts (alive_of p.id), t.returned, ne)

  recounted :
      (db : Db) (pid : ℕ) (p : Post)
      → Took cond
          (mark_blinded b now)
          (λ c. some (mark_blinded b now c).post_id)
          db.comments
          (some pid)
      → AtMost db.comments p
      → let cs = update_where cond (mark_blinded b now) db.comments in
        AtMost cs (if at_post pid p then recount now (visible_count cs pid) p else p)
  recounted db pid p t h =
      let cs = update_where cond (mark_blinded b now) db.comments in
      elim (Bool-cases (p.id == pid)) [
        | inl here ↦
            rw here (λ live. ground (arith, visible-le-alive cs pid, (==_iff p.id pid).0 here))
        | inr other ↦ rw other (λ live. rw (other_posts db pid p t (ne_of p.id pid other)) (h live))
      ]

  Moderated-AtMost :
      (db db' : Db) (from : Option ℕ)
      → returned_by cond b now db ≡ ok from
      → Moderated cond b now from db db'
      → AllCounts AtMost db
      → AllCounts AtMost db'
  Moderated-AtMost db db' none e s h =
      elim (single_update cond (mark_blinded b now) (λ c. some (mark_blinded b now c).post_id)
        db.comments none e) [
          | inl t ↦ cc (t.returned)
          | inr (nothing, same) ↦ rw (s.posts, s.comments, same) h
        ]
  Moderated-AtMost db db' (some pid) e s h =
      elim (single_update cond (mark_blinded b now) (λ c. some (mark_blinded b now c).post_id)
        db.comments (some pid) e) [
          | inl t ↦
              rw (s.posts, s.comments)
                (All-update_where (AtMost db.comments)
                  (AtMost (update_where cond (mark_blinded b now) db.comments)) (at_post pid)
                  (recount now
                    (visible_count (update_where cond (mark_blinded b now) db.comments) pid))
                  (λ p counted. recounted db pid p t counted) db.posts h)
          | inr (nothing, same) ↦ cc nothing
        ]

  Kept-AtMost : (db db' : Db) → Kept db db' → AllCounts AtMost db → AllCounts AtMost db'
  Kept-AtMost db db' k h = rw (k.posts, k.comments) h

  outcome-AtMost :
      (db db' : Db) (returned : Result AppError (Option ℕ))
      → returned_by cond b now db ≡ returned
      → ModerationOutcome cond b now db db' returned
      → AllCounts AtMost db
      → AllCounts AtMost db'
  outcome-AtMost db db' (err x) e k h = Kept-AtMost db db' k h
  outcome-AtMost db db' (ok from) e (inl k) h = Kept-AtMost db db' k h
  outcome-AtMost db db' (ok from) e (inr s) h = Moderated-AtMost db db' from e s h

-- Blinding and unblinding a comment, inside the transaction of the caller, keep `comment_count` of
-- each live post from being above its comments that are neither deleted nor blinded.
pub moderation_keeps_bound :
    (now comment_id : ℕ) (db : Db)
    → AllCounts AtMost db
    → AllCounts AtMost (begin (set_blinded now comment_id) db).1
      × AllCounts AtMost (begin (unblind now comment_id) db).1
moderation_keeps_bound now comment_id db h = (
  outcome-AtMost (blindable comment_id) true now db _ _ refl (blind_effect now comment_id db _ refl)
      h,
  outcome-AtMost (unblindable comment_id) false now db _ _ refl
      (unblind_effect now comment_id db _ refl) h,
)
