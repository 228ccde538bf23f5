-- ===== src/Chat/Sending.antt =====
-- A message lands in the room of its two users, whether its socket knew the room or not:
-- `send_dm_from_ws` of app/domain/chat/service.py.
use puppytalk_be.Base.{
  ℕ, ◌≡◌, sym, ap, ◌∙◌, arith, some, List, [], ◌∷◌, String, ok, ◌==◌, ==_iff, Bool-cases, ◌⊎◌, inl,
  inr, All,
}
use puppytalk_be.Db.Rows.{Db}
use puppytalk_be.Db.Laws.{All-imp}
use puppytalk_be.Chat.{
  normalize_dm_user_ids, assert_can_dm, get_status_and_block_between, upsert_room, new_message,
  add_message, cached_room, send_body, send_dm_from_ws,
}
use puppytalk_be.Chat.Rooms.{room_of, upsert-room_of, upsert_keeps, upsert_messages}

-- The check reads only.
assert_reads : (u p : ℕ) (db : Db) → (assert_can_dm u p db).1 ≡ db
unfolding assert_can_dm get_status_and_block_between
assert_reads u p db = ground arith

module _ (msg_id new_room_id now sender peer : ℕ) (content : String) where
  -- The room was in the cache.
  record SentCached (cache : List (ℕ × ℕ)) (db : Db) (room : ℕ) (cache' : List (ℕ × ℕ)) (db' : Db)
      : Type 0 where
    pub known : cached_room peer cache ≡ some room
    pub same_cache : cache' ≡ cache
    pub rooms : db'.chat_rooms ≡ db.chat_rooms
    pub messages : db'.chat_messages ≡ new_message msg_id now room sender content ∷ db.chat_messages

  -- The room was asked for.
  record SentNew (cache : List (ℕ × ℕ)) (db : Db) (room : ℕ) (cache' : List (ℕ × ℕ)) (db' : Db)
      : Type 0 where
    pub given : (upsert_room new_room_id now sender peer db).0 ≡ ok room
    pub cached : cache' ≡ (peer, room) ∷ cache
    pub rooms : db'.chat_rooms ≡ (upsert_room new_room_id now sender peer db).1.chat_rooms
    pub messages :
        db'.chat_messages
        ≡ new_message msg_id now room sender content
          ∷ (upsert_room new_room_id now sender peer db).1.chat_messages

  send_effect :
      (cache : List (ℕ × ℕ)) (db : Db) (room : ℕ) (to : List ℕ)
      → (send_dm_from_ws msg_id new_room_id now sender peer content (cache, db)).0 ≡ ok (room, to)
      → let after = (send_dm_from_ws msg_id new_room_id now sender peer content (cache, db)).1 in
        SentCached cache db room after.0 after.1 ⊎ SentNew cache db room after.0 after.1
  unfolding send_dm_from_ws send_body add_message
  send_effect cache db room to sent = ground (arith, sent, assert_reads sender peer db)

-- What a socket of `sender` remembers is true: each peer's room is that of the two users.
abbrev pub IsKnown : ℕ → Db → ℕ × ℕ → Type 0
IsKnown sender db (peer, room) = room_of (normalize_dm_user_ids sender peer) db ≡ ok room

known_room :
    (sender peer room : ℕ) (db : Db) (cache : List (ℕ × ℕ))
    → All (IsKnown sender db) cache
    → cached_room peer cache ≡ some room
    → room_of (normalize_dm_user_ids sender peer) db ≡ ok room
known_room sender peer room db [] h e = cc
known_room sender peer room db ((p, r) ∷ cache) h e = elim (Bool-cases (p == peer)) [
  | inl same ↦
      let at_peer : p ≡ peer = (==_iff p peer).0 same in
      let at_room : r ≡ room = cc (rw same at e) in rw (sym at_peer, sym at_room) h.0
  | inr other ↦ known_room sender peer room db cache h.1 (rw other at e)
]

abbrev Stored : ℕ → ℕ → ℕ → ℕ → ℕ → String → Db → List (ℕ × ℕ) → Db → Type 0
Stored msg_id now sender peer room content db cache' db' =
    (room_of (normalize_dm_user_ids sender peer) db' ≡ ok room)
    × (db'.chat_messages ≡ new_message msg_id now room sender content ∷ db.chat_messages)
    × All (IsKnown sender db') cache'

cached_case :
    (msg_id new_room_id now sender peer room : ℕ) (content : String) (cache cache' : List (ℕ × ℕ))
    (db db' : Db)
    → All (IsKnown sender db) cache
    → SentCached msg_id new_room_id now sender peer content cache db room cache' db'
    → Stored msg_id now sender peer room content db cache' db'
cached_case msg_id new_room_id now sender peer room content cache cache' db db' h s = (
  rw s.rooms (known_room sender peer room db cache h s.known),
  s.messages,
  rw s.same_cache
      (All-imp (IsKnown sender db) (IsKnown sender db') (λ (p, r) k. rw s.rooms k) cache h),
)

new_case :
    (msg_id new_room_id now sender peer room : ℕ) (content : String) (cache cache' : List (ℕ × ℕ))
    (db db' : Db)
    → All (IsKnown sender db) cache
    → SentNew msg_id new_room_id now sender peer content cache db room cache' db'
    → Stored msg_id now sender peer room content db cache' db'
new_case msg_id new_room_id now sender peer room content cache cache' db db' h s =
    let given = upsert-room_of new_room_id now sender peer room db s.given in
    (
      rw s.rooms given,
      s.messages
          ∙ ap (λ rest. new_message msg_id now room sender content ∷ rest)
              (upsert_messages new_room_id now sender peer db),
      rw s.cached (
        rw s.rooms given,
        All-imp (IsKnown sender db) (IsKnown sender db')
            (λ (p, r) k.
              rw s.rooms
                (upsert_keeps new_room_id now sender peer (normalize_dm_user_ids sender p) r db k))
            cache h,
      ),
    )

-- A message that is sent is stored in the room of its two users, as the only change to the messages,
-- whether the socket remembered the room or asked for it, and what the socket remembers stays true.
pub sent_to_own_room :
    (msg_id new_room_id now sender peer : ℕ) (content : String) (cache : List (ℕ × ℕ)) (db : Db)
    (room : ℕ) (to : List ℕ)
    → All (IsKnown sender db) cache
    → (send_dm_from_ws msg_id new_room_id now sender peer content (cache, db)).0 ≡ ok (room, to)
    → let (cache', db') =
        (send_dm_from_ws msg_id new_room_id now sender peer content (cache, db)).1 in
      (room_of (normalize_dm_user_ids sender peer) db' ≡ ok room)
      × (db'.chat_messages ≡ new_message msg_id now room sender content ∷ db.chat_messages)
      × All (IsKnown sender db') cache'
sent_to_own_room msg_id new_room_id now sender peer content cache db room to h sent =
    elim (send_effect msg_id new_room_id now sender peer content cache db room to sent) [
      | inl s ↦ cached_case msg_id new_room_id now sender peer room content cache _ db _ h s
      | inr s ↦ new_case msg_id new_room_id now sender peer room content cache _ db _ h s
    ]
