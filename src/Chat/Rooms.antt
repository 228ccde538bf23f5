-- ===== src/Chat/Rooms.antt =====
-- A pair of users has one room: `_upsert_room` of app/domain/chat/service.py.
use puppytalk_be.Base.{
  ℕ, ◌<◌, ◌≡◌, ◌≢◌, refl, sym, ◌∙◌, arith, Bool, true, false, ◌&&◌, ◌||◌, not, List, [], ◌∷◌,
  Result, ok, where_rows, exists_row, ltb, ◌==◌, ==_refl, Bool-cases, inl, inr,
}
use puppytalk_be.Errors.{AppError}
use puppytalk_be.Db.Rows.{Db, ChatRoom}
use puppytalk_be.Db.Statements.{update_where}
use puppytalk_be.Chat.{normalize_dm_user_ids, is_pair, first_id, insert_or_touch, upsert_room}

-- Each pair is ordered, and no pair and no id stands twice.
abbrev pub IsOrdered : ChatRoom → Type 0
IsOrdered r = r.user1_id < r.user2_id

abbrev pub IsRooms : List ChatRoom → Type 0
IsRooms [] = Unit
IsRooms (r ∷ rooms) =
    IsOrdered r
    × (exists_row (is_pair r.user1_id r.user2_id) rooms ≡ false)
    × (exists_row (λ s. s.id == r.id) rooms ≡ false)
    × IsRooms rooms

touch-exists :
    (q : ChatRoom → Bool) (u1 u2 now : ℕ) (rooms : List ChatRoom)
    → ((r : ChatRoom) → q (record r { updated_at = now }) ≡ q r)
    → exists_row q (update_where (is_pair u1 u2) (λ r. record r { updated_at = now }) rooms)
      ≡ exists_row q rooms
touch-exists q u1 u2 now [] same = refl
touch-exists q u1 u2 now (r ∷ rooms) same =
    ground (arith, touch-exists q u1 u2 now rooms same, same r)

touch-IsRooms :
    (u1 u2 now : ℕ) (rooms : List ChatRoom)
    → IsRooms rooms
    → IsRooms (update_where (is_pair u1 u2) (λ r. record r { updated_at = now }) rooms)
touch-IsRooms u1 u2 now [] h = tt
touch-IsRooms u1 u2 now (r ∷ rooms) (ordered, pair, id, h) =
    let pairs = touch-exists (is_pair r.user1_id r.user2_id) u1 u2 now rooms (λ s. refl) ∙ pair in
    let ids = touch-exists (λ (s : ChatRoom). s.id == r.id) u1 u2 now rooms (λ s. refl) ∙ id in
    elim (Bool-cases (is_pair u1 u2 r)) [
      | inl e ↦ rw e (ordered, pairs, ids, touch-IsRooms u1 u2 now rooms h)
      | inr e ↦ rw e (ordered, pairs, ids, touch-IsRooms u1 u2 now rooms h)
    ]

insert-IsRooms :
    (new_id now u1 u2 : ℕ) (db : Db)
    → IsRooms db.chat_rooms
    → IsRooms (insert_or_touch new_id now u1 u2 db).1.chat_rooms
unfolding insert_or_touch
insert-IsRooms new_id now u1 u2 db h =
    elim (Bool-cases (exists_row (is_pair u1 u2) db.chat_rooms)) [
      | inl e ↦ rw e (touch-IsRooms u1 u2 now db.chat_rooms h)
      | inr e ↦
          elim (Bool-cases
            (not (ltb u1 u2) || exists_row (λ (r : ChatRoom). r.id == new_id) db.chat_rooms)) [
              | inl refused ↦ rw (e, refused) h
              | inr fresh ↦ rw (e, fresh) (ground (arith, fresh), e, ground (arith, fresh), h)
            ]
    ]

-- The room that the SELECT for a pair finds.
abbrev pub room_of : ℕ × ℕ → Db → Result AppError ℕ
room_of pair db = first_id (where_rows (is_pair pair.0 pair.1) db.chat_rooms)

touch-first :
    (q : ChatRoom → Bool) (u1 u2 now : ℕ) (rooms : List ChatRoom)
    → ((r : ChatRoom) → q (record r { updated_at = now }) ≡ q r)
    → first_id
        (where_rows q (update_where (is_pair u1 u2) (λ r. record r { updated_at = now }) rooms))
      ≡ first_id (where_rows q rooms)
touch-first q u1 u2 now [] same = refl
touch-first q u1 u2 now (r ∷ rooms) same = elim (Bool-cases (is_pair u1 u2 r)) [
  | inl e ↦ rw e (elim (Bool-cases (q r)) [
    | inl found ↦ rw (same r, found) refl
    | inr other ↦ rw (same r, other) (touch-first q u1 u2 now rooms same)
  ])
  | inr e ↦ rw e (elim (Bool-cases (q r)) [
    | inl found ↦ rw found refl
    | inr other ↦ rw other (touch-first q u1 u2 now rooms same)
  ])
]

none-first :
    (q : ChatRoom → Bool) (rooms : List ChatRoom) (id : ℕ)
    → exists_row q rooms ≡ false
    → first_id (where_rows q rooms) ≢ ok id
none-first q [] id h e = cc
none-first q (r ∷ rooms) id h e = elim (Bool-cases (q r)) [
  | inl found ↦ cc (rw found at h)
  | inr other ↦ none-first q rooms id (rw other at h) (rw other at e)
]

-- A room that a pair has stays its room.
insert-keeps :
    (new_id now u1 u2 : ℕ) (pair : ℕ × ℕ) (room : ℕ) (db : Db)
    → room_of pair db ≡ ok room
    → room_of pair (insert_or_touch new_id now u1 u2 db).1 ≡ ok room
unfolding insert_or_touch
insert-keeps new_id now u1 u2 (a, b) room db h =
    elim (Bool-cases (exists_row (is_pair u1 u2) db.chat_rooms)) [
      | inl e ↦ rw e (touch-first (is_pair a b) u1 u2 now db.chat_rooms (λ s. refl) ∙ h)
      | inr e ↦
          elim (Bool-cases
            (not (ltb u1 u2) || exists_row (λ (r : ChatRoom). r.id == new_id) db.chat_rooms)) [
              | inl refused ↦ rw (e, refused) h
              | inr fresh ↦
                  rw (e, fresh)
                    (elim (Bool-cases (u1 == a && u2 == b)) [
                      | inr other ↦ rw other h
                      | inl same ↦
                          let at_a : u1 ≡ a = ground (arith, same) in
                          let at_b : u2 ≡ b = ground (arith, same) in
                          let none_there : exists_row (is_pair a b) db.chat_rooms ≡ false =
                            rw (sym at_a, sym at_b) e in
                          absurd (none-first (is_pair a b) db.chat_rooms room none_there h)
                    ])
            ]
    ]

-- The room that is returned is the one that the pair has then.
insert-gives :
    (new_id now u1 u2 room : ℕ) (db : Db)
    → (insert_or_touch new_id now u1 u2 db).0 ≡ ok room
    → (room_of (u1, u2) (insert_or_touch new_id now u1 u2 db).1 ≡ ok room)
      × (exists_row (is_pair u1 u2) (insert_or_touch new_id now u1 u2 db).1.chat_rooms ≡ true)
unfolding insert_or_touch
insert-gives new_id now u1 u2 room db h =
    elim (Bool-cases (exists_row (is_pair u1 u2) db.chat_rooms)) [
      | inl e ↦ rw e (
        touch-first (is_pair u1 u2) u1 u2 now db.chat_rooms (λ s. refl) ∙ (rw e at h),
        touch-exists (is_pair u1 u2) u1 u2 now db.chat_rooms (λ s. refl) ∙ e,
      )
      | inr e ↦
          elim (Bool-cases
            (not (ltb u1 u2) || exists_row (λ (r : ChatRoom). r.id == new_id) db.chat_rooms)) [
              | inl refused ↦ cc (rw (e, refused) at h)
              | inr fresh ↦
                  let same : ◌≡◌ {A = Result AppError ℕ} (ok new_id) (ok room) =
                    rw (e, fresh) at h in
                  rw (e, fresh, ==_refl u1, ==_refl u2) (same, refl)
            ]
    ]

-- With the room there, a further insertion gives it again.
insert-again :
    (new_id now u1 u2 room : ℕ) (db : Db)
    → room_of (u1, u2) db ≡ ok room
    → exists_row (is_pair u1 u2) db.chat_rooms ≡ true
    → (insert_or_touch new_id now u1 u2 db).0 ≡ ok room
unfolding insert_or_touch
insert-again new_id now u1 u2 room db h there = rw there h

normalize_sym : (a b : ℕ) → normalize_dm_user_ids a b ≡ normalize_dm_user_ids b a
normalize_sym a b = ground arith

-- Two users have one room: opening one keeps the rooms apart (each pair in order, no pair and no id
-- twice), and where it gave a room, opening it from either side afterwards gives the same one.
pub one_room_per_pair :
    (new_id now later time a b room : ℕ) (db : Db)
    → IsRooms db.chat_rooms
    → (upsert_room new_id now a b db).0 ≡ ok room
    → IsRooms (upsert_room new_id now a b db).1.chat_rooms
      × ((upsert_room later time a b (upsert_room new_id now a b db).1).0 ≡ ok room)
      × ((upsert_room later time b a (upsert_room new_id now a b db).1).0 ≡ ok room)
unfolding upsert_room
one_room_per_pair new_id now later time a b room db h got =
    let (u1, u2) = normalize_dm_user_ids a b in
    let (found, there) = insert-gives new_id now u1 u2 room db got in
    let again =
      insert-again later time u1 u2 room (insert_or_touch new_id now u1 u2 db).1 found there in
    (insert-IsRooms new_id now u1 u2 db h, again, rw (normalize_sym b a) again)

-- What the client of a room needs of `_upsert_room`.
pub upsert-room_of :
    (new_id now a b room : ℕ) (db : Db)
    → (upsert_room new_id now a b db).0 ≡ ok room
    → room_of (normalize_dm_user_ids a b) (upsert_room new_id now a b db).1 ≡ ok room
unfolding upsert_room
upsert-room_of new_id now a b room db got =
    let (u1, u2) = normalize_dm_user_ids a b in (insert-gives new_id now u1 u2 room db got).0

pub upsert_keeps :
    (new_id now a b : ℕ) (pair : ℕ × ℕ) (room : ℕ) (db : Db)
    → room_of pair db ≡ ok room
    → room_of pair (upsert_room new_id now a b db).1 ≡ ok room
unfolding upsert_room
upsert_keeps new_id now a b pair room db h =
    let (u1, u2) = normalize_dm_user_ids a b in insert-keeps new_id now u1 u2 pair room db h

pub upsert_messages :
    (new_id now a b : ℕ) (db : Db)
    → (upsert_room new_id now a b db).1.chat_messages ≡ db.chat_messages
unfolding upsert_room insert_or_touch
upsert_messages new_id now a b db = ground arith
