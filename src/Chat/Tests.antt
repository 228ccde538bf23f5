-- ===== src/Chat/Tests.antt =====
-- Runs of app/domain/chat/service.py on a small database, and the theorems at such inputs.
use puppytalk_be.Base.{
  ℕ, ◌≡◌, refl, arith, Bool, true, false, ◌&&◌, none, some, [], ◌∷◌, ok, err, All, count_rows, ◌==◌,
}
use puppytalk_be.Errors.{AppError}
use puppytalk_be.Ids.{codes}
use puppytalk_be.Fixtures.{sample_db}
use puppytalk_be.Redis.{UserStatus}
use puppytalk_be.Db.Rows.{Db, User, ChatMessage}
use puppytalk_be.Chat.{
  normalize_dm_user_ids, new_room, new_message, upsert_room, send_dm_from_ws, list_room_messages,
  mark_room_read, unread_count, assert_can_dm, room_membership_guard,
}
use puppytalk_be.Chat.Rooms.{IsRooms, room_of, one_room_per_pair}
use puppytalk_be.Chat.Sending.{IsKnown, sent_to_own_room}
use puppytalk_be.Chat.Guard.{IsGuarded, send_passes_check}
use puppytalk_be.Chat.Reading.{
  strangers_refused, mark_room_read_clears, last_page_complete, is_wanted,
}

abbrev sample_user : ℕ → User
sample_user id = record {
  id = id;
  email = codes "dog@example.org";
  nickname = codes "dog";
  profile_image_id = none;
  status = UserStatus.active;
  created_at = 1;
  updated_at = 1;
  deleted_at = none;
}

-- Users 1 and 2 with the room 70 and two messages; user 3 blocks user 1.
abbrev chat_db : Db
chat_db = record sample_db {
  users = sample_user 1 ∷ sample_user 2 ∷ sample_user 3 ∷ [];
  user_blocks = record { blocker_id = 3; blocked_id = 1; created_at = 5 } ∷ [];
  chat_rooms = new_room 70 6 1 2 ∷ [];
  chat_messages = new_message 81 8 70 1 "walk?" ∷ new_message 80 7 70 2 "hello" ∷ [];
}

chat_db-IsRooms : IsRooms chat_db.chat_rooms
chat_db-IsRooms = (omega arith, refl, refl, tt)

one_room_per_pair_example :
    IsRooms (upsert_room 71 9 2 1 chat_db).1.chat_rooms
    × ((upsert_room 72 10 2 1 (upsert_room 71 9 2 1 chat_db).1).0 ≡ ok 70)
    × ((upsert_room 72 10 1 2 (upsert_room 71 9 2 1 chat_db).1).0 ≡ ok 70)
one_room_per_pair_example = one_room_per_pair 71 9 72 10 2 1 70 chat_db chat_db-IsRooms got
  where
    got : (upsert_room 71 9 2 1 chat_db).0 ≡ ok 70
    got = unfold upsert_room in refl

-- A socket of user 2 that does not know the room yet.
sent_70 : (send_dm_from_ws 82 71 9 2 1 "yes" ([], chat_db)).0 ≡ ok (70, 1 ∷ 2 ∷ [])
unfolding send_dm_from_ws assert_can_dm upsert_room
sent_70 = refl

sent_to_own_room_example :
    let (cache', db') = (send_dm_from_ws 82 71 9 2 1 "yes" ([], chat_db)).1 in
    (room_of (normalize_dm_user_ids 2 1) db' ≡ ok 70)
    × (db'.chat_messages ≡ new_message 82 9 70 2 "yes" ∷ chat_db.chat_messages)
    × All (IsKnown 2 db') cache'
sent_to_own_room_example = sent_to_own_room 82 71 9 2 1 "yes" [] chat_db 70 (1 ∷ 2 ∷ []) tt sent_70

-- The id of the message is taken.
taken_81 : (send_dm_from_ws 81 71 9 2 1 "yes" ([], chat_db)).0 ≡ err AppError.integrity_error
unfolding send_dm_from_ws assert_can_dm upsert_room
taken_81 = refl

-- User 3 is blocked, and the socket remembers a room.
blocked_send_refused :
    (send_dm_from_ws 82 71 9 1 3 "hi" ((3, 75) ∷ [], chat_db)).0 ≡ err AppError.forbidden
unfolding send_dm_from_ws assert_can_dm
blocked_send_refused = refl

send_passes_check_example :
    IsGuarded 2 1 ([], chat_db) (send_dm_from_ws 82 71 9 2 1 "yes" ([], chat_db))
send_passes_check_example = send_passes_check 82 71 9 2 1 "yes" [] chat_db

strangers_refused_example :
    (list_room_messages 70 3 (some 81) 20 true chat_db ≡ (err AppError.forbidden, chat_db))
    × (mark_room_read 70 3 chat_db ≡ (err AppError.forbidden, chat_db))
strangers_refused_example = strangers_refused 70 3 20 (some 81) true chat_db refl

marked_70 : (mark_room_read 70 1 chat_db).0 ≡ ok tt
unfolding mark_room_read room_membership_guard
marked_70 = refl

mark_room_read_clears_example :
    (unread_count 70 1 (mark_room_read 70 1 chat_db).1 ≡ 0)
    × (unread_count 71 2 (mark_room_read 70 1 chat_db).1 ≡ 0)
mark_room_read_clears_example =
    mark_room_read_clears 70 1 71 2 chat_db marked_70 (λ e. omega (arith, e))

abbrev from_1 : ChatMessage → Bool
from_1 m = m.sender_id == 1

page_80 :
    (list_room_messages 70 2 (some 80) 20 true chat_db).0
    ≡ ok (new_message 81 8 70 1 "walk?" ∷ [], false)
unfolding list_room_messages room_membership_guard
page_80 = refl

last_page_complete_example :
    ◌≡◌ {A = ℕ} 1
      (count_rows (λ m. is_wanted true 70 (some 80) chat_db m && from_1 m) chat_db.chat_messages)
last_page_complete_example =
    last_page_complete 70 2 20 (some 80) true chat_db (new_message 81 8 70 1 "walk?" ∷ []) from_1
      page_80
