-- ===== src/Fixtures.antt =====
-- A small database for the runs and examples of the `Tests` modules: users 1, 2 and 3; post 10 of
-- user 1 with the comments 20 and 21, and 22 below 20; user 2 likes the post and the comment 20.
use puppytalk_be.Base.{ℕ, ◌+◌, Option, none, some, false, [], ◌∷◌}
use puppytalk_be.Db.Rows.{Db, Post, Comment}

abbrev pub sample_post : Post
sample_post = record {
  id = 10;
  user_id = some 1;
  title = "walk";
  content = "a long walk";
  category_id = none;
  view_count = 0;
  like_count = 1;
  comment_count = 3;
  report_count = 0;
  is_blinded = false;
  created_at = 100;
  updated_at = 100;
  deleted_at = none;
  version = 1;
}

abbrev pub sample_comment : ℕ → ℕ → Option ℕ → Comment
sample_comment id author parent = record {
  id = id;
  post_id = 10;
  author_id = some author;
  parent_id = parent;
  content = "nice";
  like_count = 0;
  report_count = 0;
  is_blinded = false;
  created_at = 100 + id;
  updated_at = 100 + id;
  deleted_at = none;
}

abbrev pub liked_comment : Comment
liked_comment = record (sample_comment 20 2 none) { like_count = 1 }

abbrev pub sample_db : Db
sample_db = record {
  posts = sample_post ∷ [];
  comments = sample_comment 22 3 (some 20) ∷ sample_comment 21 3 none ∷ liked_comment ∷ [];
  post_likes = record { target_id = 10; user_id = 2; created_at = 101 } ∷ [];
  comment_likes = record { target_id = 20; user_id = 2; created_at = 101 } ∷ [];
  users = [];
  chat_rooms = [];
  chat_messages = [];
  post_images = [];
  user_blocks = [];
  notifications = [];
  reports = [];
}
