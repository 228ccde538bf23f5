-- ===== src/Chat/Guard.antt =====
-- Who may write to whom: `assert_can_dm` and `send_dm_from_ws` of app/domain/chat/service.py.
use puppytalk_be.Base.{
  ℕ, ◌≡◌, ◌≢◌, refl, ap, ◌∙◌, arith, Bool, true, false, not, Option, none, some, map, Result, List,
  [], ◌∷◌, String, ok, err, exists_row, where_rows, ◌==◌, ◌||◌, ◌&&◌, is_none,
}
use puppytalk_be.Errors.{AppError}
use puppytalk_be.Redis.{UserStatus}
use puppytalk_be.Db.Rows.{Db, User}
use puppytalk_be.Db.Laws.{select-exists}
use puppytalk_be.Db.Statements.{scalar_one_or_none}
use puppytalk_be.Users.{is_block}
use puppytalk_be.Chat.{
  is_active, assert_can_dm, get_status_and_block_between, send_body, send_dm_from_ws,
}

-- Whether a user with this id can be written to: there is such a row, neither deleted nor inactive.
abbrev pub is_reachable : ℕ → Db → Bool
is_reachable peer db =
    exists_row (λ (v : User). v.id == peer && (is_none v.deleted_at && is_active v.status)) db.users

abbrev pub is_blocked_between : ℕ → ℕ → Db → Bool
is_blocked_between user other db =
    exists_row (λ b. is_block user other b || is_block other user b) db.user_blocks

-- An exception leaves the database and what the socket remembers as they were; a message that is sent
-- is for another user, who can be written to, with no block between the two.
abbrev pub IsGuarded :
    ℕ → ℕ → List (ℕ × ℕ) × Db → Result AppError (ℕ × List ℕ) × (List (ℕ × ℕ) × Db) → Type 0
IsGuarded sender peer before (err e, after) = after ≡ before
IsGuarded sender peer before (ok sent, after) =
    (sender ≢ peer)
    × (is_reachable peer before.1 ≡ true)
    × (is_blocked_between sender peer before.1 ≡ false)

abbrev read_peer : ℕ → ℕ → Db → Result AppError (Option (UserStatus × Bool))
read_peer sender peer db = scalar_one_or_none (
    map some (
      map (λ (u : User). (u.status, is_blocked_between sender peer db))
        (where_rows (λ (u : User). u.id == peer && is_none u.deleted_at) db.users)))

-- What the check has read when it lets a message pass.
abbrev LetsPass : ℕ → ℕ → Db → Result AppError (Option (UserStatus × Bool)) → Type 0
LetsPass sender peer db (err e) = false ≡ true
LetsPass sender peer db (ok none) = false ≡ true
LetsPass sender peer db (ok (some (status, blocked))) =
    (sender ≢ peer) × (is_active status ≡ true) × (blocked ≡ false)

passed_check :
    (sender peer : ℕ) (db : Db) (r : Result AppError (Option (UserStatus × Bool)))
    → read_peer sender peer db ≡ r
    → (assert_can_dm sender peer db).0 ≡ ok tt
    → LetsPass sender peer db r
unfolding assert_can_dm get_status_and_block_between
passed_check sender peer db (err e) s h = ground arith
passed_check sender peer db (ok none) s h = ground arith
passed_check sender peer db (ok (some (status, blocked))) s h = ground arith

-- The body asks the check first.
sent_passed :
    (msg_id new_room_id now sender peer : ℕ) (content : String) (cache : List (ℕ × ℕ)) (db : Db)
    (sent : ℕ × List ℕ)
    → (send_dm_from_ws msg_id new_room_id now sender peer content (cache, db)).0 ≡ ok sent
    → (assert_can_dm sender peer db).0 ≡ ok tt
unfolding send_dm_from_ws send_body
sent_passed msg_id new_room_id now sender peer content cache db sent h = ground (arith, h)

-- A row that passes a test while another test holds.
exists-both :
    (p : User → Bool) (b : Bool) (rows : List User)
    → exists_row (λ u. p u && b) rows ≡ true
    → (exists_row p rows ≡ true) × (b ≡ true)
exists-both p b [] h = cc
exists-both p b (u ∷ rows) h = ground (arith, h, exists-both p b rows)

guard_held :
    (sender peer : ℕ) (db : Db) (r : Result AppError (Option (UserStatus × Bool)))
    → read_peer sender peer db ≡ r
    → LetsPass sender peer db r
    → (sender ≢ peer) × (is_reachable peer db ≡ true) × (is_blocked_between sender peer db ≡ false)
guard_held sender peer db (err e) s h = cc h
guard_held sender peer db (ok none) s h = cc h
guard_held sender peer db (ok (some (status, blocked))) s (other, active, free) =
    let blocked_now : Bool = is_blocked_between sender peer db in
    let found =
      select-exists (λ (u : User). u.id == peer && is_none u.deleted_at)
        (λ (u : User). (u.status, blocked_now)) (status, blocked)
        (λ (u : User).
          (u.id == peer && (is_none u.deleted_at && is_active u.status)) && not blocked_now)
        (λ u taken read.
          let at : u.status ≡ status = ap (λ (x : UserStatus × Bool). x.0) read in
          let unblocked : blocked_now ≡ false = ap (λ (x : UserStatus × Bool). x.1) read ∙ free in
          let here : (u.id == peer) ≡ true = ground (arith, taken) in
          let alive : is_none u.deleted_at ≡ true = ground (arith, taken) in
          rw (here, alive, at, active, unblocked) refl)
        db.users s in
    let (reachable, unblocked) =
      exists-both (λ (u : User). u.id == peer && (is_none u.deleted_at && is_active u.status))
        (not blocked_now) db.users found in
    (other, reachable, ground (arith, unblocked))

failed_send_keeps :
    (msg_id new_room_id now sender peer : ℕ) (content : String) (cache : List (ℕ × ℕ)) (db : Db)
    (e : AppError)
    → (send_dm_from_ws msg_id new_room_id now sender peer content (cache, db)).0 ≡ err e
    → (send_dm_from_ws msg_id new_room_id now sender peer content (cache, db)).1 ≡ (cache, db)
unfolding send_dm_from_ws
failed_send_keeps msg_id new_room_id now sender peer content cache db e failed =
    ground (arith, failed)

sent-IsGuarded :
    (msg_id new_room_id now sender peer : ℕ) (content : String) (cache : List (ℕ × ℕ)) (db : Db)
    (r : Result AppError (ℕ × List ℕ))
    → (send_dm_from_ws msg_id new_room_id now sender peer content (cache, db)).0 ≡ r
    → IsGuarded sender peer
        (cache, db)
        (r, (send_dm_from_ws msg_id new_room_id now sender peer content (cache, db)).1)
sent-IsGuarded msg_id new_room_id now sender peer content cache db (err e) h =
    failed_send_keeps msg_id new_room_id now sender peer content cache db e h
sent-IsGuarded msg_id new_room_id now sender peer content cache db (ok sent) h =
    guard_held sender peer db (read_peer sender peer db) refl (
      passed_check sender peer db (read_peer sender peer db) refl
        (sent_passed msg_id new_room_id now sender peer content cache db sent h))

-- A message is sent only to another user who has an account that is neither deleted nor inactive, and
-- only while neither of the two blocks the other, whether the socket remembers their room or not; when
-- the sending raises, the database and what the socket remembers are as they were.
pub send_passes_check :
    (msg_id new_room_id now sender peer : ℕ) (content : String) (cache : List (ℕ × ℕ)) (db : Db)
    → IsGuarded sender peer
        (cache, db)
        (send_dm_from_ws msg_id new_room_id now sender peer content (cache, db))
send_passes_check msg_id new_room_id now sender peer content cache db =
    sent-IsGuarded msg_id new_room_id now sender peer content cache db _ refl
