-- ===== src/Chat/Reading.antt =====
-- Who may read a room, what a page of it holds, and what reading it marks: `list_room_messages` and
-- `mark_room_read` of app/domain/chat/service.py.
use puppytalk_be.Base.{
  ℕ, ◌+◌, ◌≤◌, ◌≡◌, ◌≢◌, refl, ap, ◌∙◌, arith, Bool, true, false, ◌&&◌, not, Option, none, List, [],
  ◌∷◌, ok, err, exists_row, where_rows, count_rows, take, take_all, length, length-take,
  count_rows-append, reverse, ltb, ◌==◌, is_none, if◌then◌else◌, Bool-cases, ◌⊎◌, inl, inr,
}
use mathlib.Core.List.{reverse-cons}
use puppytalk_be.Errors.{AppError}
use puppytalk_be.Db.Rows.{Db, ChatRoom, ChatMessage}
use puppytalk_be.Db.Statements.{update_where}
use puppytalk_be.Chat.{
  room_membership_guard, is_member, key_of, key_before, message_key, insert_message, order_messages,
  behind_key, judge_member, room_rows, list_room_messages, is_unread_by, unread_count,
  mark_room_read,
}

no_member :
    (room_id user_id : ℕ) (rooms : List ChatRoom)
    → exists_row (λ r. r.id == room_id && is_member user_id r) rooms ≡ false
    → (where_rows (λ (r : ChatRoom). r.id == room_id) rooms ≡ [])
      ⊎ ((r : ChatRoom) × (rest : List ChatRoom) × (where_rows
              (λ (r : ChatRoom). r.id == room_id)
              rooms
            ≡ r ∷ rest)
          × (is_member user_id r ≡ false))
no_member room_id user_id [] h = inl refl
no_member room_id user_id (r ∷ rooms) h = elim (Bool-cases (r.id == room_id)) [
  | inl here ↦ inr (
    r,
    where_rows (λ (s : ChatRoom). s.id == room_id) rooms,
    rw here refl,
    ground (arith, h, here),
  )
  | inr other ↦ rw other (no_member room_id user_id rooms (rw other at h))
]

guard_refuses :
    (room_id user_id : ℕ) (cursor : Option ℕ) (db : Db)
    → exists_row (λ r. r.id == room_id && is_member user_id r) db.chat_rooms ≡ false
    → room_membership_guard room_id user_id cursor db ≡ (err AppError.forbidden, db)
unfolding room_membership_guard
guard_refuses room_id user_id cursor db h = elim (no_member room_id user_id db.chat_rooms h) [
  | inl nothing ↦ rw nothing refl
  | inr (r, rest, found, stranger) ↦ rw (found, stranger) refl
]

-- A user who is not in the room, or asks for a room that is not there, gets Forbidden whatever the
-- cursor and the direction are, and marks nothing.
pub strangers_refused :
    (room_id user_id limit : ℕ) (cursor : Option ℕ) (after : Bool) (db : Db)
    → exists_row (λ r. r.id == room_id && is_member user_id r) db.chat_rooms ≡ false
    → (list_room_messages room_id user_id cursor limit after db ≡ (err AppError.forbidden, db))
      × (mark_room_read room_id user_id db ≡ (err AppError.forbidden, db))
unfolding list_room_messages mark_room_read
strangers_refused room_id user_id limit cursor after db h = (
  ground (arith, guard_refuses room_id user_id cursor db h),
  ground (arith, guard_refuses room_id user_id none db h),
)

insert_count :
    (asc : Bool) (q : ChatMessage → Bool) (m : ChatMessage) (rows : List ChatMessage)
    → count_rows q (insert_message asc m rows) ≡ (if q m then 1 else 0) + count_rows q rows
insert_count asc q m [] = refl
insert_count asc q m (n ∷ rows) =
    elim (Bool-cases (key_before asc (message_key m) (message_key n))) [
      | inl first ↦ rw first refl
      | inr later ↦ rw later (omega (arith, insert_count asc q m rows))
    ]

order_count :
    (asc : Bool) (q : ChatMessage → Bool) (rows : List ChatMessage)
    → count_rows q (order_messages asc rows) ≡ count_rows q rows
order_count asc q [] = refl
order_count asc q (m ∷ rows) =
    omega (arith, insert_count asc q m (order_messages asc rows), order_count asc q rows)

-- Reading the room leaves no message unread by the reader in it, and what is unread in the other rooms
-- is left alone.
marked_count :
    (room_id user_id : ℕ) (rows : List ChatMessage)
    → count_rows
        (is_unread_by room_id user_id)
        (update_where (is_unread_by room_id user_id) (λ m. record m { is_read = true }) rows)
      ≡ 0
marked_count room_id user_id [] = refl
marked_count room_id user_id (m ∷ rows) = ground (arith, marked_count room_id user_id rows)

other_count :
    (room_id user_id room' user' : ℕ) (rows : List ChatMessage)
    → room_id ≢ room'
    → count_rows
        (is_unread_by room' user')
        (update_where (is_unread_by room_id user_id) (λ m. record m { is_read = true }) rows)
      ≡ count_rows (is_unread_by room' user') rows
other_count room_id user_id room' user' [] ne = refl
other_count room_id user_id room' user' (m ∷ rows) ne =
    ground (arith, ne, other_count room_id user_id room' user' rows)

guard_reads :
    (room_id user_id : ℕ) (cursor : Option ℕ) (db : Db)
    → (room_membership_guard room_id user_id cursor db).1 ≡ db
unfolding room_membership_guard
guard_reads room_id user_id cursor db = ground arith

-- After a reader marked the room, no message in it is unread by them, and the unread messages of every
-- other room are the same for each of its users.
pub mark_room_read_clears :
    (room_id user_id room' user' : ℕ) (db : Db)
    → (mark_room_read room_id user_id db).0 ≡ ok tt
    → room_id ≢ room'
    → (unread_count room_id user_id (mark_room_read room_id user_id db).1 ≡ 0)
      × (unread_count room' user' (mark_room_read room_id user_id db).1
          ≡ unread_count room' user' db)
unfolding mark_room_read
mark_room_read_clears room_id user_id room' user' db done ne = (
  ground (
    arith,
    done,
    guard_reads room_id user_id none db,
    marked_count room_id user_id db.chat_messages,
  ),
  ground (
    arith,
    done,
    guard_reads room_id user_id none db,
    other_count room_id user_id room' user' db.chat_messages ne,
  ),
)

guard_cases :
    (room_id user_id : ℕ) (cursor : Option ℕ) (db : Db)
    → (room_membership_guard room_id user_id cursor db ≡ (ok (key_of room_id cursor db), db))
      ⊎ ((e : AppError) × (room_membership_guard room_id user_id cursor db ≡ (err e, db)))
unfolding room_membership_guard
guard_cases room_id user_id cursor db =
    judged (where_rows (λ (r : ChatRoom). r.id == room_id) db.chat_rooms)
  where
    judged :
        (rooms : List ChatRoom)
        → (judge_member user_id cursor (key_of room_id cursor db) rooms db
            ≡ (ok (key_of room_id cursor db), db))
          ⊎ ((e : AppError) × (judge_member user_id cursor (key_of room_id cursor db) rooms db
                ≡ (err e, db)))
    judged [] = inr (AppError.forbidden, refl)
    judged (r ∷ rooms) = elim (Bool-cases (is_member user_id r)) [
      | inr stranger ↦ inr (AppError.forbidden, rw stranger refl)
      | inl member ↦
          elim (Bool-cases (not (is_none cursor) && is_none (key_of room_id cursor db))) [
            | inl missing ↦ inr (AppError.invalid_request, ground (arith, member, missing))
            | inr there ↦ inl (ground (arith, member, there))
          ]
    ]

-- The page in the direction of the cursor.
abbrev page_of : Bool → ℕ → Option ℕ → ℕ → Db → List ChatMessage
page_of after room_id cursor limit db = room_rows after room_id (key_of room_id cursor db) limit db

list_effect :
    (room_id user_id : ℕ) (cursor : Option ℕ) (limit : ℕ) (after : Bool) (db : Db)
    (items : List ChatMessage) (more : Bool)
    → (list_room_messages room_id user_id cursor limit after db).0 ≡ ok (items, more)
    → (items ≡ (
        if after
        then reverse (take limit (page_of after room_id cursor limit db))
        else take limit (page_of after room_id cursor limit db)))
      × (more ≡ ltb limit (length (page_of after room_id cursor limit db)))
unfolding list_room_messages
list_effect room_id user_id cursor limit after db items more h =
    elim (guard_cases room_id user_id cursor db) [
      | inl g ↦ (ground (arith, h, g), ground (arith, h, g))
      | inr (e, g) ↦ (ground (arith, h, g), ground (arith, h, g))
    ]

reverse_count :
    (q : ChatMessage → Bool) (rows : List ChatMessage)
    → count_rows q (reverse rows) ≡ count_rows q rows
reverse_count q [] = refl
reverse_count q (m ∷ rows) =
    ap (count_rows q) (reverse-cons m rows)
    ∙ omega (arith, count_rows-append q (reverse rows) (m ∷ []), reverse_count q rows)

either_way_count :
    (q : ChatMessage → Bool) (b : Bool) (rows : List ChatMessage)
    → count_rows q (if b then reverse rows else rows) ≡ count_rows q rows
either_way_count q true rows = reverse_count q rows
either_way_count q false rows = refl

filter_count :
    (p q : ChatMessage → Bool) (rows : List ChatMessage)
    → count_rows q (where_rows p rows) ≡ count_rows (λ m. p m && q m) rows
filter_count p q [] = refl
filter_count p q (m ∷ rows) = ground (arith, filter_count p q rows)

-- The messages that a page in one direction is about.
abbrev pub is_wanted : Bool → ℕ → Option ℕ → Db → ChatMessage → Bool
is_wanted after room_id cursor db m =
    m.room_id == room_id && behind_key after (key_of room_id cursor db) m

-- A page that announces no more holds every message of the room on its side of the cursor, each as often
-- as the table does (for every q), newer ones than the cursor when the direction is `after`, older ones
-- otherwise: a client that reconnects misses none.
pub last_page_complete :
    (room_id user_id limit : ℕ) (cursor : Option ℕ) (after : Bool) (db : Db)
    (items : List ChatMessage) (q : ChatMessage → Bool)
    → (list_room_messages room_id user_id cursor limit after db).0 ≡ ok (items, false)
    → count_rows q items
      ≡ count_rows (λ m. is_wanted after room_id cursor db m && q m) db.chat_messages
last_page_complete room_id user_id limit cursor after db items q h =
    let (same, last) = list_effect room_id user_id cursor limit after db items false h in
    let ordered =
      order_messages after (where_rows (is_wanted after room_id cursor db) db.chat_messages) in
    let fits : length ordered ≤ limit = ground (arith, last, length-take (limit + 1) ordered) in
    ap (count_rows q) same
    ∙ either_way_count q after (take limit (take (limit + 1) ordered))
    ∙ ap (λ (rows : List ChatMessage). count_rows q (take limit rows))
        (take_all (limit + 1) ordered (omega (arith, fits)))
    ∙ ap (count_rows q) (take_all limit ordered fits)
    ∙ order_count after q (where_rows (is_wanted after room_id cursor db) db.chat_messages)
    ∙ filter_count (is_wanted after room_id cursor db) q db.chat_messages
