-- ===== src/Chat.antt =====
-- Direct messages: app/domain/chat/service.py and app/domain/chat/model.py.
pub mod Rooms
pub mod Sending
pub mod Guard
pub mod Reading
mod Tests
use puppytalk_be.Base.{
  ℕ, ◌+◌, Bool, true, false, ◌&&◌, ◌||◌, not, Option, none, some, List, [], ◌∷◌, map, String,
  reverse, take, length, where_rows, count_rows, exists_row, Result, ok, err, ltb, ◌==◌, is_none,
  if◌then◌else◌,
}
use puppytalk_be.Errors.{AppError}
use puppytalk_be.Redis.{UserStatus}
use puppytalk_be.Db.Rows.{Db, User, UserBlock, ChatRoom, ChatMessage}
use puppytalk_be.Db.Tx.{Tx, pure, raise, query, begin, ◌>>=◌, ◌>>◌, raise_if}
use puppytalk_be.Db.Statements.{select_one_or_none, update_where}
use puppytalk_be.Paging.{split_page}
use puppytalk_be.Users.{is_block}

-- `normalize_dm_user_ids`
abbrev pub normalize_dm_user_ids : ℕ → ℕ → ℕ × ℕ
normalize_dm_user_ids a b = if ltb a b then (a, b) else (b, a)

abbrev is_active : UserStatus → Bool
is_active UserStatus.active = true
is_active UserStatus.suspended = false
is_active UserStatus.withdrawn = false

-- `UsersRepository.get_status_and_block_between`
unfoldable pub get_status_and_block_between : ℕ → ℕ → Tx (Option (UserStatus × Bool))
unfolding select_one_or_none
get_status_and_block_between user_id other_id = select_one_or_none (λ db.
    map
      (λ u. (
        u.status,
        exists_row (λ b. is_block user_id other_id b || is_block other_id user_id b) db.user_blocks,
      ))
      (where_rows (λ u. u.id == other_id && is_none u.deleted_at) db.users))

abbrev judge_peer : Option (UserStatus × Bool) → Tx (Unit {0})
judge_peer none = raise AppError.user_not_found
judge_peer (some (status, blocked)) =
    if is_active status then raise_if blocked AppError.forbidden else raise AppError.user_not_found

-- `assert_can_dm`
unfoldable pub assert_can_dm : ℕ → ℕ → Tx (Unit {0})
unfolding get_status_and_block_between
assert_can_dm user_id peer_id =
    if peer_id == user_id
    then raise AppError.self_dm
    else get_status_and_block_between user_id peer_id >>= judge_peer

abbrev pub is_pair : ℕ → ℕ → ChatRoom → Bool
is_pair u1 u2 r = r.user1_id == u1 && r.user2_id == u2

abbrev first_id : List ChatRoom → Result AppError ℕ
first_id [] = err AppError.internal_server_error
first_id (r ∷ rooms) = ok r.id

abbrev new_room : ℕ → ℕ → ℕ → ℕ → ChatRoom
new_room new_id now u1 u2 = record {
  id = new_id;
  user1_id = u1;
  user2_id = u2;
  created_at = now;
  updated_at = now;
}

-- INSERT ... ON CONFLICT (user1_id, user2_id) DO UPDATE SET updated_at RETURNING id, with the CHECK on
-- the order of the pair and the primary key.
unfoldable pub insert_or_touch : ℕ → ℕ → ℕ → ℕ → Tx ℕ
insert_or_touch new_id now u1 u2 db =
    let found = where_rows (is_pair u1 u2) db.chat_rooms in
    let touched = update_where (is_pair u1 u2) (λ r. record r { updated_at = now }) db.chat_rooms in
    let refused = not (ltb u1 u2) || exists_row (λ r. r.id == new_id) db.chat_rooms in
    if exists_row (is_pair u1 u2) db.chat_rooms
    then (first_id found, record db { chat_rooms = touched })
    else (if refused
        then (err AppError.integrity_error, db)
        else (ok new_id, record db { chat_rooms = new_room new_id now u1 u2 ∷ db.chat_rooms }))

-- `_upsert_room`
unfoldable pub upsert_room : ℕ → ℕ → ℕ → ℕ → Tx ℕ
unfolding insert_or_touch
upsert_room new_id now user_id peer_id =
    let pair = normalize_dm_user_ids user_id peer_id in insert_or_touch new_id now pair.0 pair.1

-- `get_or_create_room`, and `resolve_direct_room` around it.
pub resolve_direct_room : ℕ → ℕ → ℕ → ℕ → Tx ℕ
unfolding assert_can_dm upsert_room
resolve_direct_room new_id now user_id peer_id =
    begin (assert_can_dm user_id peer_id >> upsert_room new_id now user_id peer_id)

abbrev pub new_message : ℕ → ℕ → ℕ → ℕ → String → ChatMessage
new_message msg_id now room_id sender_id content = record {
  id = msg_id;
  room_id = room_id;
  sender_id = sender_id;
  content = content;
  is_read = false;
  created_at = now;
}

-- `db.add(msg)` and `flush`, with the primary key and the foreign key to the room.
unfoldable pub add_message : ChatMessage → Tx (Unit {0})
add_message m db =
    let refused =
      exists_row (λ (n : ChatMessage). n.id == m.id) db.chat_messages
      || not (exists_row (λ (r : ChatRoom). r.id == m.room_id) db.chat_rooms) in
    if refused
    then (err AppError.integrity_error, db)
    else (ok tt, record db { chat_messages = m ∷ db.chat_messages })

-- `room_cache.get(peer_id)`
abbrev pub cached_room : ℕ → List (ℕ × ℕ) → Option ℕ
cached_room peer [] = none
cached_room peer ((p, room) ∷ cache) = if p == peer then some room else cached_room peer cache

-- The transaction of `send_dm_from_ws`: the id of the room.
unfoldable pub send_body : ℕ → ℕ → ℕ → ℕ → ℕ → String → Option ℕ → Tx ℕ
unfolding assert_can_dm upsert_room add_message
send_body msg_id new_room_id now sender_id peer_id content cached = do
  assert_can_dm sender_id peer_id
  room_id ← elim cached [
    | none ↦ upsert_room new_room_id now sender_id peer_id
    | some room ↦ pure room
  ]
  add_message (new_message msg_id now room_id sender_id content)
  pure room_id

-- `send_dm_from_ws`: the room and the users that `_fanout_dm` delivers to, with the cache behind the
-- commit.
unfoldable pub send_dm_from_ws :
    ℕ
    → ℕ
    → ℕ
    → ℕ
    → ℕ
    → String
    → List (ℕ × ℕ) × Db
    → Result AppError (ℕ × List ℕ) × (List (ℕ × ℕ) × Db)
unfolding send_body
send_dm_from_ws msg_id new_room_id now sender_id peer_id content (cache, db) =
    let cached = cached_room peer_id cache in
    let (r, db') = begin (send_body msg_id new_room_id now sender_id peer_id content cached) db in
    elim r [
      | err e ↦ (err e, (cache, db'))
      | ok room ↦ (
        ok (room, peer_id ∷ sender_id ∷ []),
        ((if is_none cached then (peer_id, room) ∷ cache else cache), db'),
      )
    ]

abbrev pub first_key : List ChatMessage → Option (ℕ × ℕ)
first_key [] = none
first_key (m ∷ rows) = some (m.created_at, m.id)

-- The key of the cursor's message, if it is in the room.
abbrev pub key_of : ℕ → Option ℕ → Db → Option (ℕ × ℕ)
key_of room_id none db = none
key_of room_id (some c) db =
    first_key (where_rows (λ (m : ChatMessage). m.id == c && m.room_id == room_id) db.chat_messages)

abbrev pub is_member : ℕ → ChatRoom → Bool
is_member user_id r = user_id == r.user1_id || user_id == r.user2_id

abbrev pub judge_member : ℕ → Option ℕ → Option (ℕ × ℕ) → List ChatRoom → Tx (Option (ℕ × ℕ))
judge_member user_id cursor key [] = raise AppError.forbidden
judge_member user_id cursor key (r ∷ rooms) =
    raise_if (not (is_member user_id r)) AppError.forbidden
    >> (raise_if (not (is_none cursor) && is_none key) AppError.invalid_request >> pure key)

-- `_room_membership_guard`
unfoldable pub room_membership_guard : ℕ → ℕ → Option ℕ → Tx (Option (ℕ × ℕ))
room_membership_guard room_id user_id cursor db =
    judge_member user_id cursor (key_of room_id cursor db)
      (where_rows (λ (r : ChatRoom). r.id == room_id) db.chat_rooms) db

-- The order of the pairs (created_at, id), ascending or descending.
abbrev pub key_before : Bool → ℕ × ℕ → ℕ × ℕ → Bool
key_before true (t, i) (u, j) = ltb t u || t == u && ltb i j
key_before false (t, i) (u, j) = ltb u t || u == t && ltb j i

abbrev pub message_key : ChatMessage → ℕ × ℕ
message_key m = (m.created_at, m.id)

-- ORDER BY created_at, id, by insertion.
abbrev pub insert_message : Bool → ChatMessage → List ChatMessage → List ChatMessage
insert_message asc m [] = m ∷ []
insert_message asc m (n ∷ rows) =
    if key_before asc (message_key m) (message_key n)
    then m ∷ n ∷ rows
    else n ∷ insert_message asc m rows

abbrev pub order_messages : Bool → List ChatMessage → List ChatMessage
order_messages asc [] = []
order_messages asc (m ∷ rows) = insert_message asc m (order_messages asc rows)

abbrev pub behind_key : Bool → Option (ℕ × ℕ) → ChatMessage → Bool
behind_key asc none m = true
behind_key asc (some key) m = key_before asc key (message_key m)

-- The rows that the SELECT of `list_room_messages` gives; `after` is its direction.
abbrev pub room_rows : Bool → ℕ → Option (ℕ × ℕ) → ℕ → Db → List ChatMessage
room_rows after room_id key limit db = take (limit + 1) (
    order_messages after (
      where_rows (λ (m : ChatMessage). m.room_id == room_id && behind_key after key m)
        db.chat_messages))

-- `list_room_messages`: newest first in both directions.
unfoldable pub list_room_messages : ℕ → ℕ → Option ℕ → ℕ → Bool → Tx (List ChatMessage × Bool)
unfolding room_membership_guard
list_room_messages room_id user_id cursor limit after = begin (do
  key ← room_membership_guard room_id user_id cursor
  raise_if (after && is_none key) AppError.invalid_request
  rows ← query (room_rows after room_id key limit)
  let (page, has_more) = split_page rows limit
  pure ((if after then reverse page else page), has_more))

-- A message that the other user of the room sent and this one has not read.
abbrev pub is_unread_by : ℕ → ℕ → ChatMessage → Bool
is_unread_by room_id user_id m =
    m.room_id == room_id && not (m.sender_id == user_id) && not m.is_read

-- `unread_count` of `list_recent_rooms`, for one room.
abbrev pub unread_count : ℕ → ℕ → Db → ℕ
unread_count room_id user_id db = count_rows (is_unread_by room_id user_id) db.chat_messages

-- `mark_room_read`
unfoldable pub mark_room_read : ℕ → ℕ → Tx (Unit {0})
unfolding room_membership_guard
mark_room_read room_id user_id = begin (
    room_membership_guard room_id user_id none >>= λ key db. (
      ok tt,
      record db {
        chat_messages =
            update_where (is_unread_by room_id user_id) (λ m. record m { is_read = true })
              db.chat_messages;
      },
    ))
