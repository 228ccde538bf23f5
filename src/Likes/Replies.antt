-- ===== src/Likes/Replies.antt =====
-- What `_like` and `_unlike` of app/domain/likes/service.py answer.
use mathlib.Core.List.{map-map}
use puppytalk_be.Base.{
  ℕ, ◌≡◌, refl, Bool, true, false, ◌&&◌, not, Option, none, some, List, ◌∷◌, map, Result, ok, arith,
  where_rows, exists_row, ◌==◌, ◌⊎◌, inl, inr,
}
use puppytalk_be.Db.Rows.{Db, Like, Post}
use puppytalk_be.Db.Statements.{scalar_one_or_none}
use puppytalk_be.Db.Laws.{scalar-none, scalar-narrow, none-select, exists-imp}
use puppytalk_be.Errors.{AppError}
use puppytalk_be.Posts
use puppytalk_be.Posts.{post_visible, VisiblePost}
use puppytalk_be.Likes.{like, post_target, resolve_post_for_like}
use puppytalk_be.Likes.Links.{is_link, likes_of}
use puppytalk_be.Likes.Counters.{new_like, at_post, raise_post}
use puppytalk_be.Likes.Consistency.{IsConsistent, PostCounted}

-- What `scalar_one_or_none() or 0` gives.
abbrev Reads : ℕ → Result AppError (Option ℕ) → Type 0
Reads n r = (r ≡ ok (some n)) ⊎ ((r ≡ ok none) × (n ≡ 0))

-- What the guard of a like of a post selects.
abbrev is_visible : ℕ → ℕ → Db → Post → Bool
is_visible t u db p = p.id == t && post_visible (some u) db p

abbrev to_visible : Post → VisiblePost
to_visible p = record { author_id = p.user_id }

module _ (nid now t u : ℕ) (db : Db) (n : ℕ) (inserted : Bool)
    (answered : (like post_target nid now t u db).0.result ≡ ok (n, inserted)) where
  found_visible : exists_row (is_visible t u db) db.posts ≡ true
  unfolding like post_target resolve_post_for_like
  found_visible = ground (arith, none-select (is_visible t u db) to_visible db.posts)

  inserted-eq : inserted ≡ not (exists_row (is_link t u) db.post_likes)
  unfolding like post_target resolve_post_for_like
  inserted-eq = ground arith

  raised :
      inserted ≡ true
      → Reads n (
          scalar_one_or_none
            (map (λ p. some ((raise_post now p).like_count)) (where_rows (at_post t) db.posts)))
  unfolding like post_target resolve_post_for_like Posts.increment_like_count
  raised e = ground arith

  was_read :
      inserted ≡ false
      → Reads n (
          scalar_one_or_none
            (map some (map (λ (p : Post). p.like_count) (where_rows (λ p. p.id == t) db.posts))))
  unfolding like post_target resolve_post_for_like Posts.get_like_count
  was_read e = ground arith

  links_after_new :
      inserted ≡ true
      → (like post_target nid now t u db).1.post_likes ≡ new_like now t u ∷ db.post_likes
  unfolding like post_target resolve_post_for_like Posts.increment_like_count
  links_after_new e = ground arith

  links_after_old :
      inserted ≡ false → (like post_target nid now t u db).1.post_likes ≡ db.post_likes
  unfolding like post_target resolve_post_for_like Posts.get_like_count
  links_after_old e = ground arith

visible-at : (t u : ℕ) (db : Db) (p : Post) → is_visible t u db p ≡ true → at_post t p ≡ true
visible-at t u db p h = ground arith

-- The number that is read of the visible post `t` is the one that its links give.
read_counted :
    (t u n : ℕ) (db : Db) (f : Post → ℕ) (cond : Post → Bool)
    → ((p : Post) → is_visible t u db p ≡ true → cond p ≡ true)
    → IsConsistent db
    → exists_row (is_visible t u db) db.posts ≡ true
    → Reads n (scalar_one_or_none (map (λ p. some (f p)) (where_rows cond db.posts)))
    → (p : Post) × (f p ≡ n) × (p.like_count ≡ likes_of db.post_likes t)
read_counted t u n db f cond covers h found (inl e) =
    let (p, counted, taken, value) =
      scalar-narrow cond (is_visible t u db) (λ p. some (f p)) covers (PostCounted db.post_likes)
        db.posts n h.posts e found in
    (p, ground arith, ground (arith, counted))
read_counted t u n db f cond covers h found (inr (e, zeroed)) = absurd (
    cc (
      scalar-none cond (λ p. some (f p)) db.posts (λ p q. cc) e,
      exists-imp (is_visible t u db) cond db.posts covers found,
    ))

exists-new :
    (now t u : ℕ) (links : List Like) → exists_row (is_link t u) (new_like now t u ∷ links) ≡ true
exists-new now t u links = ground arith

-- A successful like of a post answers the number of likes that the post then has, says that the like
-- is new exactly when the user had none there, and leaves the user's link in place.
pub like_post_reply :
    (nid now t u : ℕ) (db : Db) (n : ℕ) (inserted : Bool)
    → IsConsistent db
    → (like post_target nid now t u db).0.result ≡ ok (n, inserted)
    → let db' = (like post_target nid now t u db).1 in
      (n ≡ likes_of db'.post_likes t)
      × (inserted ≡ not (exists_row (is_link t u) db.post_likes))
      × (exists_row (is_link t u) db'.post_likes ≡ true)
like_post_reply nid now t u db n true h answered =
    let fresh = inserted-eq nid now t u db n true answered in
    let links = links_after_new nid now t u db n true answered refl in
    let (p, value, counted) =
      read_counted t u n db (λ p. (raise_post now p).like_count) (at_post t) (visible-at t u db) h
        (found_visible nid now t u db n true answered)
        (raised nid now t u db n true answered refl) in
    (rw links (ground arith), fresh, rw links (exists-new now t u db.post_likes))
like_post_reply nid now t u db n false h answered =
    let fresh = inserted-eq nid now t u db n false answered in
    let links = links_after_old nid now t u db n false answered refl in
    let (p, value, counted) =
      read_counted t u n db (λ p. p.like_count) (λ p. p.id == t) (λ p v. ground arith) h
        (found_visible nid now t u db n false answered)
        (rw map-map at (was_read nid now t u db n false answered refl)) in
    (rw links (ground arith), fresh, rw links (ground arith))
