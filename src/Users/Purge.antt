-- ===== src/Users/Purge.antt =====
-- The purge of withdrawn users keeps the like counters and ends: `UserService.purge_withdrawn_users` of
-- app/domain/users/service.py.
use puppytalk_be.Base.{
  ℕ, zero, suc, ◌+◌, ◌-◌, ◌<◌, ◌≤◌, ◌≡◌, refl, sym, ap, ◌∙◌, arith, Bool, true, not, Option, none,
  some, List, [], ◌∷◌, map, length, take, where_rows, exists_row, Result, ok, err, ltb, Bool-cases,
  ◌⊎◌, inl, inr, ==_refl, All,
}
use mathlib.Core.Path.{subst}
use puppytalk_be.Errors.{AppError}
use puppytalk_be.Db.Rows.{Db, User, Post, Comment, Like}
use puppytalk_be.Db.Tx.{begin}
use puppytalk_be.Db.Statements.{update_where, is_in, owned_links, decrement_counter_by_link_owner}
use puppytalk_be.Db.Laws.{All-update_where}
use puppytalk_be.Posts
use puppytalk_be.Comments
use puppytalk_be.Likes.Links.{likes_of, where_rows-HasUniqueLinks}
use puppytalk_be.Likes.Consistency.{IsConsistent, PostCounted, CommentCounted}
use puppytalk_be.Users.{
  is_of, is_purgeable, cascade_users, purge_targets, purge_chunk, purge_withdrawn_users,
}

abbrev owned_by : List ℕ → List Like → ℕ → ℕ
owned_by ids links t = owned_links (λ l. l.target_id) (λ l. l.user_id) ids links t

abbrev left_by : List ℕ → List Like → List Like
left_by ids links = where_rows (λ l. not (is_in l.user_id ids)) links

abbrev lower_post : List ℕ → Db → Post → Post
lower_post ids db p = record p { like_count = p.like_count - owned_by ids db.post_likes p.id }

abbrev lower_comment : List ℕ → Db → Comment → Comment
lower_comment ids db c = record c { like_count = c.like_count - owned_by ids db.comment_likes c.id }

-- The database behind one round.
abbrev purged : List ℕ → Db → Db
purged ids db = cascade_users ids (record db {
  posts =
      update_where (λ (p : Post). ltb 0 (owned_by ids db.post_likes p.id)) (lower_post ids db)
        db.posts;
  comments =
      update_where (λ (c : Comment). ltb 0 (owned_by ids db.comment_likes c.id))
        (lower_comment ids db) db.comments;
})

targets_effect :
    (i : ℕ) (ids : List ℕ) (db : Db)
    → purge_targets (i ∷ ids) db ≡ (
      ok (
          some
            (length (map (λ u. u.id) (where_rows (λ (u : User). is_in u.id (i ∷ ids)) db.users)))),
      purged (i ∷ ids) db,
    )
unfolding purge_targets Posts.decrement_like_counts_for_users
    Comments.decrement_like_counts_for_users decrement_counter_by_link_owner
targets_effect i ids db = refl

abbrev targets : ℕ → Db → List ℕ
targets cutoff db = take 200 (map (λ u. u.id) (where_rows (is_purgeable cutoff) db.users))

-- The links of the purged users are those that the counters lose.
likes_of-left :
    (ids : List ℕ) (links : List Like) (t : ℕ)
    → likes_of links t ≡ likes_of (left_by ids links) t + owned_by ids links t
likes_of-left ids [] t = omega arith
likes_of-left ids (l ∷ links) t = ground (arith, likes_of-left ids links t)

purged-IsConsistent : (ids : List ℕ) (db : Db) → IsConsistent db → IsConsistent (purged ids db)
purged-IsConsistent ids db h = record {
  posts =
      All-update_where (PostCounted (left_by ids db.post_likes))
        (PostCounted (left_by ids db.post_likes)) (λ (p : Post). is_of ids p.user_id)
        (λ p. record p { user_id = none }) (λ p counted. ground (arith, counted)) _
        (All-update_where (PostCounted db.post_likes) (PostCounted (left_by ids db.post_likes))
          (λ (p : Post). ltb 0 (owned_by ids db.post_likes p.id)) (lower_post ids db)
          (λ p counted. ground (arith, counted, likes_of-left ids db.post_likes p.id)) db.posts
          h.posts);
  comments =
      All-update_where (CommentCounted (left_by ids db.comment_likes))
        (CommentCounted (left_by ids db.comment_likes)) (λ (c : Comment). is_of ids c.author_id)
        (λ c. record c { author_id = none }) (λ c counted. ground (arith, counted)) _
        (All-update_where (CommentCounted db.comment_likes)
          (CommentCounted (left_by ids db.comment_likes))
          (λ (c : Comment). ltb 0 (owned_by ids db.comment_likes c.id)) (lower_comment ids db)
          (λ c counted. ground (arith, counted, likes_of-left ids db.comment_likes c.id))
          db.comments h.comments);
  post_keys = where_rows-HasUniqueLinks _ db.post_likes h.post_keys;
  comment_keys = where_rows-HasUniqueLinks _ db.comment_likes h.comment_keys;
}

-- The like counter of a post, deleted or not, is `extra` of the post above its number of likes.
abbrev pub Above : (ℕ → ℕ) → List Like → Post → Type 0
Above extra links p = p.like_count ≡ likes_of links p.id + extra p.id

abbrev pub AllAbove : (ℕ → ℕ) → Db → Type 0
AllAbove extra db = All (Above extra db.post_likes) db.posts

purged-AllAbove :
    (extra : ℕ → ℕ) (ids : List ℕ) (db : Db) → AllAbove extra db → AllAbove extra (purged ids db)
purged-AllAbove extra ids db h =
    let links = left_by ids db.post_likes in
    All-update_where (Above extra links) (Above extra links) (λ (p : Post). is_of ids p.user_id)
      (λ p. record p { user_id = none }) (λ p counted. ground (arith, counted)) _
      (All-update_where (Above extra db.post_likes) (Above extra links)
        (λ (p : Post). ltb 0 (owned_by ids db.post_likes p.id)) (lower_post ids db)
        (λ p counted. ground (arith, counted, likes_of-left ids db.post_likes p.id)) db.posts h)

-- A round that ends the loop, and one that purges the users it selected.
abbrev Round : ℕ → Db → Result AppError (Option ℕ) × Db → Type 0
Round cutoff db x =
    ((x ≡ (ok none, db)) × (where_rows (is_purgeable cutoff) db.users ≡ []))
    ⊎ ((n : ℕ) × (i : ℕ) × (ids : List ℕ) × (x ≡ (ok (some n), purged (i ∷ ids) db))
        × (exists_row (λ (u : User). is_in u.id (i ∷ ids)) db.users ≡ true))

-- The first of the rows that a WHERE clause takes is one of the table.
first-exists :
    (p : User → Bool) (rows rest : List User) (u : User)
    → where_rows p rows ≡ u ∷ rest
    → (q : User → Bool) → q u ≡ true
    → exists_row q rows ≡ true
first-exists p [] rest u e q h = cc
first-exists p (v ∷ rows) rest u e q h = elim (Bool-cases (p v)) [
  | inl taken ↦ let first = rw taken at e in let same : v ≡ u = cc in rw (ap q same ∙ h) refl
  | inr left ↦ ground (arith, first-exists p rows rest u (rw left at e) q h)
]

-- The round on the ids of the selected rows.
on_rows :
    (cutoff : ℕ) (db : Db) (rows : List User)
    → where_rows (is_purgeable cutoff) db.users ≡ rows
    → Round cutoff db (begin (purge_targets (take 200 (map (λ u. u.id) rows))) db)
unfolding purge_targets Posts.decrement_like_counts_for_users
    Comments.decrement_like_counts_for_users decrement_counter_by_link_owner
on_rows cutoff db [] e = inl (refl, e)
on_rows cutoff db (u ∷ rows) e = inr (
  length (
      map (λ (v : User). v.id)
        (where_rows (λ (v : User). is_in v.id (u.id ∷ take 199 (map (λ (v : User). v.id) rows)))
          db.users)),
  u.id,
  take 199 (map (λ (v : User). v.id) rows),
  refl,
  first-exists (is_purgeable cutoff) db.users rows u e
      (λ (v : User). is_in v.id (u.id ∷ take 199 (map (λ (v : User). v.id) rows)))
      (ground (arith, ==_refl u.id)),
)

purge_chunk-Round : (cutoff : ℕ) (db : Db) → Round cutoff db (purge_chunk cutoff db)
unfolding purge_chunk
purge_chunk-Round cutoff db =
    subst
      (λ (rows : List User).
        Round cutoff db (begin (purge_targets (take 200 (map (λ u. u.id) rows))) db))
      refl (on_rows cutoff db (where_rows (is_purgeable cutoff) db.users) refl)

kept_bound : (p : User → Bool) (rows : List User) → length (where_rows p rows) ≤ length rows
kept_bound p [] = omega arith
kept_bound p (r ∷ rows) = ground (arith, kept_bound p rows)

-- Fewer rows are left when one of them goes.
shorter :
    (q : User → Bool) (rows : List User)
    → exists_row q rows ≡ true
    → length (where_rows (λ r. not (q r)) rows) < length rows
shorter q [] h = cc
shorter q (r ∷ rows) h =
    ground (arith, h, shorter q rows, kept_bound (λ (v : User). not (q v)) rows)

-- The loop behind the result of a round.
abbrev continue :
    (ℕ → ℕ) → ℕ → ℕ → Result AppError (Option ℕ) × Db → Result AppError (Option ℕ) × Db
continue cutoff fuel total (err e, db) = (err e, db)
continue cutoff fuel total (ok none, db) = (ok (some total), db)
continue cutoff fuel total (ok (some n), db) = purge_withdrawn_users cutoff fuel (total + n) db

purge_step :
    (cutoff : ℕ → ℕ) (fuel total : ℕ) (db : Db)
    → purge_withdrawn_users cutoff (suc fuel) total db
      ≡ continue cutoff fuel total (purge_chunk (cutoff fuel) db)
unfolding purge_withdrawn_users
purge_step cutoff fuel total db = same (purge_chunk (cutoff fuel) db)
  where
    same :
        (x : Result AppError (Option ℕ) × Db)
        → ◌≡◌ {A = Result AppError (Option ℕ) × Db}
            (elim x.0 [
              | err e ↦ (err e, x.1)
              | ok none ↦ (ok (some total), x.1)
              | ok (some n) ↦ purge_withdrawn_users cutoff fuel (total + n) x.1
            ])
            (continue cutoff fuel total x)
    same (err e, db') = refl
    same (ok none, db') = refl
    same (ok (some n), db') = refl

-- A number is returned, and no user is left that is due at the cutoff of some round.
abbrev pub Completed : (ℕ → ℕ) → ℕ → Result AppError (Option ℕ) × Db → Type 0
Completed cutoff fuel x =
    (n : ℕ) × (round : ℕ) × (round < fuel)
    × (x.0 ≡ ok (some n))
    × (where_rows (is_purgeable (cutoff round)) x.1.users ≡ [])

-- The purge ends: with more rounds than there are users it returns a number, and no user that is due at
-- the cutoff of some round of them is left.
pub purge_completes :
    (cutoff : ℕ → ℕ) (fuel total : ℕ) (db : Db)
    → length db.users < fuel
    → Completed cutoff fuel (purge_withdrawn_users cutoff fuel total db)
unfolding purge_withdrawn_users
purge_completes cutoff zero total db h = absurd (omega arith)
purge_completes cutoff (suc fuel) total db h = elim (purge_chunk-Round (cutoff fuel) db) [
  | inl (ends, none_due) ↦
      subst (Completed cutoff (suc fuel))
        (sym (purge_step cutoff fuel total db ∙ ap (continue cutoff fuel total) ends))
        (total, fuel, omega arith, refl, none_due)
  | inr (n, i, ids, goes_on, member) ↦
      let fewer : length (purged (i ∷ ids) db).users < length db.users =
        shorter (λ (u : User). is_in u.id (i ∷ ids)) db.users member in
      let (sum, round, earlier, returned, none_due) =
        purge_completes cutoff fuel (total + n) (purged (i ∷ ids) db) (omega (arith, h, fewer)) in
      subst (Completed cutoff (suc fuel))
        (sym (purge_step cutoff fuel total db ∙ ap (continue cutoff fuel total) goes_on))
        (sum, round, omega (arith, earlier), returned, none_due)
]

-- The counters of the likes are kept: of the live posts and the comments, and of all posts.
abbrev Keeps : (ℕ → ℕ) → Db → Type 0
Keeps extra db = IsConsistent db × AllAbove extra db

-- The purge keeps the like counters of the live posts and of the comments equal to the number of their
-- links, and the counter of every post, deleted or not, as far above its number of likes as it was,
-- whenever it stops.
pub purge_keeps_counters :
    (cutoff : ℕ → ℕ) (fuel total : ℕ) (extra : ℕ → ℕ) (db : Db)
    → IsConsistent db
    → AllAbove extra db
    → IsConsistent (purge_withdrawn_users cutoff fuel total db).1
      × AllAbove extra (purge_withdrawn_users cutoff fuel total db).1
unfolding purge_withdrawn_users
purge_keeps_counters cutoff zero total extra db h a = (h, a)
purge_keeps_counters cutoff (suc fuel) total extra db h a =
    elim (purge_chunk-Round (cutoff fuel) db) [
      | inl (ends, none_due) ↦
          subst (λ (x : Result AppError (Option ℕ) × Db). Keeps extra x.1)
            (sym (purge_step cutoff fuel total db ∙ ap (continue cutoff fuel total) ends)) (h, a)
      | inr (n, i, ids, goes_on, member) ↦
          subst (λ (x : Result AppError (Option ℕ) × Db). Keeps extra x.1)
            (sym (purge_step cutoff fuel total db ∙ ap (continue cutoff fuel total) goes_on))
            (purge_keeps_counters cutoff fuel (total + n) extra (purged (i ∷ ids) db)
              (purged-IsConsistent (i ∷ ids) db h) (purged-AllAbove extra (i ∷ ids) db a))
    ]
