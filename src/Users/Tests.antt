-- ===== src/Users/Tests.antt =====
-- Runs of app/domain/users/service.py on a small database, and the theorems at such inputs.
use puppytalk_be.Base.{
  ℕ, ◌≡◌, ◌≢◌, refl, arith, true, none, some, List, [], ◌∷◌, ok, exists_row, ap,
}
use puppytalk_be.Ids.{codes}
use puppytalk_be.Fixtures.{sample_db}
use puppytalk_be.Redis.{UserStatus}
use puppytalk_be.Db.Rows.{Db, User}
use puppytalk_be.Likes.Consistency.{IsConsistent}
use puppytalk_be.Users.{
  is_block, toggle_block_user, mask_for_withdrawal, deleted_at_suffix, purge_withdrawn_users,
}
use puppytalk_be.Posts
use puppytalk_be.Comments
use puppytalk_be.Users.Masking.{IsUuidText, withdrawn_names_differ}
use puppytalk_be.Users.Blocks.{toggle_block_flips}
use puppytalk_be.Users.Purge.{AllAbove, Completed, purge_completes, purge_keeps_counters}

abbrev sample_user : ℕ → User
sample_user id = record {
  id = id;
  email = codes "dog@example.org";
  nickname = codes "dog";
  profile_image_id = none;
  status = UserStatus.active;
  created_at = 1;
  updated_at = 1;
  deleted_at = none;
}

-- User 2, who likes the post 10 and the comment 20, has withdrawn at 50.
abbrev withdrawn_2 : User
withdrawn_2 = record (sample_user 2) { status = UserStatus.withdrawn; deleted_at = some 50 }

abbrev before_purge : Db
before_purge = record sample_db { users = sample_user 1 ∷ withdrawn_2 ∷ sample_user 3 ∷ [] }

abbrev cutoffs : ℕ → ℕ
cutoffs round = 100

before_purge-IsConsistent : IsConsistent before_purge
before_purge-IsConsistent = record {
  posts = (λ e. refl, tt);
  comments = (refl, (refl, (refl, tt)));
  post_keys = (refl, tt);
  comment_keys = (refl, tt);
}

purge_returns_one : (purge_withdrawn_users cutoffs 4 0 before_purge).0 ≡ ok (some 1)
unfolding purge_withdrawn_users Posts.decrement_like_counts_for_users
    Comments.decrement_like_counts_for_users
purge_returns_one = refl

purge_keeps_counters_example :
    IsConsistent (purge_withdrawn_users cutoffs 4 0 before_purge).1
    × AllAbove (λ t. 0) (purge_withdrawn_users cutoffs 4 0 before_purge).1
purge_keeps_counters_example =
    purge_keeps_counters cutoffs 4 0 (λ t. 0) before_purge before_purge-IsConsistent (refl, tt)

purge_completes_example : Completed cutoffs 4 (purge_withdrawn_users cutoffs 4 0 before_purge)
purge_completes_example = purge_completes cutoffs 4 0 before_purge (omega arith)

-- User 1 blocks user 3.
toggle_block_flips_example :
    let (r, db') = toggle_block_user 9 1 3 before_purge in
    (r ≡ ok true) × (exists_row (is_block 1 3) db'.user_blocks ≡ true)
toggle_block_flips_example = toggle_block_flips 9 1 3 1 3 before_purge

-- A text of 36 characters that ends in the id.
abbrev copies : ℕ → List ℕ → List ℕ
copies n rest = 48 ∷ 48 ∷ 48 ∷ 48 ∷ 48 ∷ rest

abbrev padded : ℕ → List ℕ
padded u = copies 5 (copies 5 (copies 5 (copies 5 (copies 5 (copies 5 (copies 5 (u ∷ [])))))))

abbrev last_of : List ℕ → ℕ
last_of [] = 0
last_of (x ∷ []) = x
last_of (x ∷ y ∷ l) = last_of (y ∷ l)

padded-IsUuidText : IsUuidText padded
padded-IsUuidText = record { size = λ u. refl; distinct = λ u v e. ap last_of e }

abbrev ten_digits : ℕ → List ℕ
ten_digits t = copies 5 (copies 4 [])

withdrawn_names_differ_example :
    mask_for_withdrawal (codes "dog") (deleted_at_suffix padded ten_digits 1 50)
    ≢ mask_for_withdrawal (codes "dog") (deleted_at_suffix padded ten_digits 2 50)
withdrawn_names_differ_example =
    withdrawn_names_differ padded ten_digits padded-IsUuidText 1 2 50 50 (codes "dog") (codes "dog")
      (λ e. omega (arith, e)) refl (omega arith)
