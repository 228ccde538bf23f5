-- ===== src/Users.antt =====
-- Users, their blocks, withdrawal and purge: app/domain/users/model.py and app/domain/users/service.py.
pub mod Masking
pub mod Blocks
pub mod Purge
mod Tests
use puppytalk_be.Base.{
  ℕ, zero, suc, ◌+◌, ◌-◌, Bool, true, false, ◌&&◌, ◌||◌, not, Option, none, some, List, [], ◌∷◌,
  ◌++◌, map, length, take, where_rows, exists_row, Result, ok, err, ltb, ◌==◌, is_none,
  if◌then◌else◌,
}
use puppytalk_be.Errors.{AppError}
use puppytalk_be.Ids.{codes}
use puppytalk_be.Redis.{UserStatus}
use puppytalk_be.Db.Rows.{
  Db, User, Post, Comment, Like, Notification, UserBlock, Report, ChatRoom, ChatMessage,
}
use puppytalk_be.Db.Tx.{Tx, pure, raise, query, begin, ◌>>=◌, ◌>>◌, raise_if}
use puppytalk_be.Db.Statements.{
  update_one_returning, select_one_or_none, add_row, delete_rows, update_where, is_in,
}
use puppytalk_be.Db.Tables
use puppytalk_be.Posts.{is_some}
use puppytalk_be.Posts
use puppytalk_be.Comments

abbrev pub is_block : ℕ → ℕ → UserBlock → Bool
is_block blocker blocked b = b.blocker_id == blocker && b.blocked_id == blocked

abbrev pub block_exists : ℕ → ℕ → Tx Bool
block_exists blocker blocked = query (λ db. exists_row (is_block blocker blocked) db.user_blocks)

-- `db.add(UserBlock(...))`; the key is the pair.
unfoldable pub block_user : ℕ → ℕ → ℕ → Tx (Unit {0})
unfolding add_row
block_user now blocker blocked =
    add_row Tables.user_blocks
      (record { blocker_id = blocker; blocked_id = blocked; created_at = now })
      (is_block blocker blocked)

unfoldable pub unblock_user : ℕ → ℕ → Tx ℕ
unfolding delete_rows
unblock_user blocker blocked = delete_rows Tables.user_blocks (is_block blocker blocked)

-- `UserService.toggle_block_user`
unfoldable pub toggle_block_user : ℕ → ℕ → ℕ → Tx Bool
unfolding block_user unblock_user
toggle_block_user now blocker target =
    if blocker == target
    then raise AppError.invalid_request
    else begin (do
      exists ← block_exists blocker target
      let unblock = unblock_user blocker target >>= (λ n. pure false)
      let block = block_user now blocker target >>= (λ u. pure true)
      if exists then unblock else block)

-- `_DELETED_AT_MAX_LEN`
abbrev pub name_max_len : ℕ
name_max_len = 255

-- `_mask_for_withdrawal`; the subtraction of ℕ is `max(0, ...)`.
abbrev pub mask_for_withdrawal : List ℕ → List ℕ → List ℕ
mask_for_withdrawal value suffix =
    take name_max_len (take (name_max_len - length suffix) value ++ suffix)

-- The texts of a UUID and of a number of seconds are parameters.
module _ (uuid_text decimal : ℕ → List ℕ) where
  -- `_deleted_at_suffix`
  abbrev pub deleted_at_suffix : ℕ → ℕ → List ℕ
  deleted_at_suffix user_id seconds =
      codes "_deleted_" ++ (uuid_text user_id ++ (codes "_" ++ decimal seconds))

  -- `UsersRepository.get_user_by_id`, the row alone.
  abbrev pub undeleted_user : ℕ → User → Bool
  undeleted_user user_id u = u.id == user_id && is_none u.deleted_at

  -- `UsersRepository.delete_user`
  unfoldable pub withdraw_row : ℕ → ℕ → ℕ → Tx Bool
  unfolding select_one_or_none update_one_returning
  withdraw_row now seconds user_id = do
    row ← select_one_or_none (λ db. where_rows (undeleted_user user_id) db.users)
    elim row [
      | none ↦ pure false
      | some u ↦ (do
        r ←
            update_one_returning Tables.users (undeleted_user user_id)
              (λ v. record v {
                email = mask_for_withdrawal u.email (deleted_at_suffix user_id seconds);
                nickname = mask_for_withdrawal u.nickname (deleted_at_suffix user_id seconds);
                status = UserStatus.withdrawn;
                profile_image_id = none;
                deleted_at = some now;
                updated_at = now;
              })
              (λ v. some v.id)
        pure (is_some r))
    ]

  -- `UserService.delete_user`
  pub delete_user : ℕ → ℕ → ℕ → Tx (Unit {0})
  unfolding withdraw_row select_one_or_none
  delete_user now seconds user_id = begin (do
    user ← select_one_or_none (λ db. where_rows (undeleted_user user_id) db.users)
    raise_if (is_none user) AppError.internal_server_error
    deleted ← withdraw_row now seconds user_id
    raise_if (not deleted) AppError.internal_server_error)

abbrev is_withdrawn : UserStatus → Bool
is_withdrawn UserStatus.active = false
is_withdrawn UserStatus.suspended = false
is_withdrawn UserStatus.withdrawn = true

abbrev pub is_before : ℕ → Option ℕ → Bool
is_before cutoff none = false
is_before cutoff (some t) = ltb t cutoff

-- The WHERE clause of `select_purgeable_user_ids`.
abbrev pub is_purgeable : ℕ → User → Bool
is_purgeable cutoff u = is_withdrawn u.status && is_before cutoff u.deleted_at

abbrev pub select_purgeable_user_ids : ℕ → ℕ → Tx (List ℕ)
select_purgeable_user_ids cutoff limit =
    query (λ db. take limit (map (λ u. u.id) (where_rows (is_purgeable cutoff) db.users)))

abbrev pub is_of : List ℕ → Option ℕ → Bool
is_of ids none = false
is_of ids (some u) = is_in u ids

-- The rooms that go with their users.
abbrev is_room_of : List ℕ → ChatRoom → Bool
is_room_of ids r = is_in r.user1_id ids || is_in r.user2_id ids

-- DELETE FROM users with what the foreign keys do: CASCADE on likes, notifications, blocks, reports and
-- chats, SET NULL on the authors of posts and comments and on the actors of notifications.
abbrev pub cascade_users : List ℕ → Db → Db
cascade_users ids db = record db {
  users = where_rows (λ u. not (is_in u.id ids)) db.users;
  posts =
      update_where (λ (p : Post). is_of ids p.user_id) (λ p. record p { user_id = none }) db.posts;
  comments =
      update_where (λ (c : Comment). is_of ids c.author_id) (λ c. record c { author_id = none })
        db.comments;
  post_likes = where_rows (λ (l : Like). not (is_in l.user_id ids)) db.post_likes;
  comment_likes = where_rows (λ (l : Like). not (is_in l.user_id ids)) db.comment_likes;
  notifications =
      update_where (λ (n : Notification). is_of ids n.actor_id) (λ n. record n { actor_id = none })
        (where_rows (λ n. not (is_in n.user_id ids)) db.notifications);
  user_blocks =
      where_rows (λ b. not (is_in b.blocker_id ids || is_in b.blocked_id ids)) db.user_blocks;
  reports = where_rows (λ (r : Report). not (is_in r.reporter_id ids)) db.reports;
  chat_rooms = where_rows (λ r. not (is_room_of ids r)) db.chat_rooms;
  chat_messages =
      where_rows
        (λ (m : ChatMessage). not (
          is_in m.sender_id ids
          || exists_row (λ r. r.id == m.room_id && is_room_of ids r) db.chat_rooms))
        db.chat_messages;
}

-- `UsersRepository.purge_users_by_ids`
abbrev pub purge_users_by_ids : List ℕ → Tx (List ℕ)
purge_users_by_ids [] db = (ok [], db)
purge_users_by_ids (i ∷ ids) db = (
  ok (map (λ u. u.id) (where_rows (λ u. is_in u.id (i ∷ ids)) db.users)),
  cascade_users (i ∷ ids) db,
)

-- One round of the loop behind the selection; `none` is its `break`.
unfoldable pub purge_targets : List ℕ → Tx (Option ℕ)
unfolding Posts.decrement_like_counts_for_users Comments.decrement_like_counts_for_users
purge_targets [] = pure none
purge_targets (i ∷ ids) = do
  Posts.decrement_like_counts_for_users (i ∷ ids)
  Comments.decrement_like_counts_for_users (i ∷ ids)
  deleted ← purge_users_by_ids (i ∷ ids)
  pure (some (length deleted))

unfoldable pub purge_chunk : ℕ → Tx (Option ℕ)
unfolding purge_targets
purge_chunk cutoff = begin (select_purgeable_user_ids cutoff 200 >>= purge_targets)

-- `UserService.purge_withdrawn_users` on fuel: `cutoff f` is the one of the round with `f` rounds
-- left, `none` stands for too little fuel.
unfoldable pub purge_withdrawn_users : (ℕ → ℕ) → ℕ → ℕ → Tx (Option ℕ)
unfolding purge_chunk
purge_withdrawn_users cutoff zero total db = (ok none, db)
purge_withdrawn_users cutoff (suc fuel) total db =
    let (r, db') = purge_chunk (cutoff fuel) db in
    elim r [
      | err e ↦ (err e, db')
      | ok none ↦ (ok (some total), db')
      | ok (some n) ↦ purge_withdrawn_users cutoff fuel (total + n) db'
    ]
