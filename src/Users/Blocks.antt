-- ===== src/Users/Blocks.antt =====
-- Blocking and unblocking: `UserService.toggle_block_user` of app/domain/users/service.py.
use puppytalk_be.Base.{
  ℕ, ◌≡◌, arith, false, ◌&&◌, not, List, [], ◌∷◌, ok, err, where_rows, exists_row, ◌==◌,
  if◌then◌else◌,
}
use puppytalk_be.Errors.{AppError}
use puppytalk_be.Db.Rows.{Db, UserBlock}
use puppytalk_be.Users.{is_block, toggle_block_user}

-- What the DELETE of one pair does to the others.
exists-unblocked :
    (a t c d : ℕ) (rows : List UserBlock)
    → exists_row (is_block c d) (where_rows (λ b. not (is_block a t b)) rows)
      ≡ (if a == c && t == d then false else exists_row (is_block c d) rows)
exists-unblocked a t c d [] = ground arith
exists-unblocked a t c d (b ∷ rows) = ground (arith, exists-unblocked a t c d rows)

-- Toggling a block turns the block of this pair around and tells the new state, and every other pair
-- keeps its own; a user who toggles a block of themselves gets an exception, and nothing changes.
pub toggle_block_flips :
    (now a t c d : ℕ) (db : Db)
    → let blocked = exists_row (is_block a t) db.user_blocks in
      let (r, db') = toggle_block_user now a t db in
      (r ≡ (if a == t then err AppError.invalid_request else ok (not blocked)))
      × (exists_row (is_block c d) db'.user_blocks ≡ (
          if not (a == t) && (a == c && t == d)
          then not blocked
          else exists_row (is_block c d) db.user_blocks))
unfolding toggle_block_user
toggle_block_flips now a t c d db =
    (ground arith, ground (arith, exists-unblocked a t c d db.user_blocks))
