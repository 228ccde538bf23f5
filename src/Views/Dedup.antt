-- ===== src/Views/Dedup.antt =====
-- Views in a row whose commands all answer, and the expiry of the marks between them:
-- `PostService.get_post_detail` of app/domain/posts/services/post_service.py counts a viewer of a post
-- once per window of VIEW_CACHE_TTL_SECONDS.
use puppytalk_be.Base.{
  ℕ, ◌+◌, ◌<◌, ◌≡◌, ◌≢◌, refl, sym, ap, ◌∙◌, arith, Bool, true, false, ◌&&◌, not, none, List, [],
  ◌∷◌, is_none, exists_row, where_rows, ◌==◌, if◌then◌else◌, Bool-cases, inl, inr,
}
use mathlib.Core.Path.{subst}
use puppytalk_be.Db.Rows.{Db}
use puppytalk_be.Redis.{Key, Value, Delivery, Redis, IsRedis}
use puppytalk_be.Redis.Hashes.{HashKey, Hashes, IsHashes, pending}
use puppytalk_be.Views.{TrackDeliveries, track_commands, track_view, count_tracked, count_view}

abbrev pub prompt : TrackDeliveries
prompt = record { set = Delivery.answered; hincrby = Delivery.answered; hget = Delivery.answered }

abbrev pub is_view : ℕ → ℕ → ℕ × ℕ → Bool
is_view post viewer (p, v) = p == post && v == viewer

-- A view of a post by a viewer, or the end of the window that an earlier one opened: Redis drops the
-- mark with the time to live.
pub data ViewEvent : Type 0 where
  view : ℕ → ℕ → ViewEvent
  expire : ℕ → ℕ → ViewEvent

-- The open windows without that of one viewer of one post.
abbrev pub without_view : ℕ → ℕ → List (ℕ × ℕ) → List (ℕ × ℕ)
without_view p v windows = where_rows (λ x. not (is_view p v x)) windows

-- How many windows these events open for viewers of `g`, where those in `windows` are open already.
abbrev pub new_windows : ℕ → List (ℕ × ℕ) → List ViewEvent → ℕ
new_windows g windows [] = 0
new_windows g windows (ViewEvent.view p v ∷ events) =
    (if p == g && not (exists_row (is_view p v) windows) then 1 else 0)
    + new_windows g ((p, v) ∷ windows) events
new_windows g windows (ViewEvent.expire p v ∷ events) =
    new_windows g (without_view p v windows) events

closed_window :
    (p v : ℕ) (windows : List (ℕ × ℕ)) → exists_row (is_view p v) (without_view p v windows) ≡ false
closed_window p v [] = refl
closed_window p v (x ∷ windows) = ground (arith, closed_window p v windows)

other_window :
    (p v q w : ℕ) (windows : List (ℕ × ℕ))
    → is_view q w (p, v) ≡ false
    → exists_row (is_view q w) (without_view p v windows) ≡ exists_row (is_view q w) windows
other_window p v q w [] h = refl
other_window p v q w ((a, b) ∷ windows) h = ground (arith, h, other_window p v q w windows h)

abbrev post_of : Key → ℕ
post_of (Key.view_dedup p v) = p
post_of k = 0

abbrev viewer_of : Key → ℕ
viewer_of (Key.view_dedup p v) = v
viewer_of k = 0

other_view : (p v q w : ℕ) → is_view q w (p, v) ≡ false → Key.view_dedup q w ≢ Key.view_dedup p v
other_view p v q w h e = ground (arith, h, ap post_of e, ap viewer_of e)

same_view : (p v q w : ℕ) → is_view q w (p, v) ≡ true → (p ≡ q) × (v ≡ w)
same_view p v q w h = ground (arith, h)

module _ {S : Type 0} (redis : Redis S) (hashes : Hashes S) (redis_laws : IsRedis redis)
    (laws : IsHashes hashes redis) (ttl : ℕ) (pos : 0 < ttl) (now : ℕ) where
  abbrev pub run_views : List ViewEvent → S × Db → S × Db
  run_views [] state = state
  run_views (ViewEvent.view post viewer ∷ events) state =
      run_views events (count_view redis hashes prompt now ttl post viewer state).1
  run_views (ViewEvent.expire post viewer ∷ events) (s, db) =
      run_views events (redis.delete (Key.view_dedup post viewer) s, db)

  -- The marks of the store are those of the open windows.
  abbrev Marks : List (ℕ × ℕ) → S → Type 0
  Marks seen s =
      (q w : ℕ) → is_none (redis.get (Key.view_dedup q w) s) ≡ not (exists_row (is_view q w) seen)

  -- The store behind a view that is new.
  abbrev counted_in : ℕ → ℕ → S → S
  counted_in p v s =
      (hashes.hincrby HashKey.view_buffer p 1 (redis.set (Key.view_dedup p v) Value.flag ttl s)).1

  view_effect :
      (p v : ℕ) (s : S) (db : Db)
      → (count_view redis hashes prompt now ttl p v (s, db)).1
        ≡ ((if is_none (redis.get (Key.view_dedup p v) s) then counted_in p v s else s), db)
  unfolding count_view track_view track_commands count_tracked
  view_effect p v s db =
      ground (arith, pos, redis_laws.set_nx_lem (Key.view_dedup p v) Value.flag ttl s)

  set-Marks :
      (p v : ℕ) (seen : List (ℕ × ℕ)) (s : S)
      → Marks seen s
      → Marks ((p, v) ∷ seen) (counted_in p v s)
  set-Marks p v seen s marks q w = elim (Bool-cases (is_view q w (p, v))) [
    | inl e ↦
        let (at_post, at_viewer) = same_view p v q w e in
        let kept =
          laws.get_hincrby (Key.view_dedup p v) HashKey.view_buffer p 1
            (redis.set (Key.view_dedup p v) Value.flag ttl s) in
        rw
          (
            e,
            sym at_post,
            sym at_viewer,
            kept,
            redis_laws.get_set (Key.view_dedup p v) Value.flag ttl s pos,
          )
          refl
    | inr e ↦
        let kept =
          laws.get_hincrby (Key.view_dedup q w) HashKey.view_buffer p 1
            (redis.set (Key.view_dedup p v) Value.flag ttl s) in
        rw
          (
            e,
            kept,
            redis_laws.get_set_other (Key.view_dedup q w) (Key.view_dedup p v) Value.flag ttl s
                (other_view p v q w e),
          )
          (marks q w)
  ]

  repeat-Marks :
      (p v : ℕ) (seen : List (ℕ × ℕ)) (s : S)
      → exists_row (is_view p v) seen ≡ true
      → Marks seen s
      → Marks ((p, v) ∷ seen) s
  repeat-Marks p v seen s old marks q w = elim (Bool-cases (is_view q w (p, v))) [
    | inl e ↦
        let (at_post, at_viewer) = same_view p v q w e in
        rw (e, sym at_post, sym at_viewer) (marks p v ∙ ap not old)
    | inr e ↦ rw e (marks q w)
  ]

  expire-Marks :
      (p v : ℕ) (windows : List (ℕ × ℕ)) (s : S)
      → Marks windows s
      → Marks (without_view p v windows) (redis.delete (Key.view_dedup p v) s)
  expire-Marks p v windows s marks q w = elim (Bool-cases (is_view q w (p, v))) [
    | inl e ↦
        let (at_post, at_viewer) = same_view p v q w e in
        rw
          (
            sym at_post,
            sym at_viewer,
            closed_window p v windows,
            redis_laws.get_delete (Key.view_dedup p v) s,
          )
          refl
    | inr e ↦
        rw
          (
            other_window p v q w windows e,
            redis_laws.get_delete_other (Key.view_dedup q w) (Key.view_dedup p v) s
                (other_view p v q w e),
          )
          (marks q w)
  ]

  abbrev Counts : ℕ → ℕ → Db → S × Db → Type 0
  Counts g n db (s', db') = (pending hashes HashKey.view_buffer g s' ≡ n) × (db' ≡ db)

  counted_buffer :
      (g p v : ℕ) (s : S)
      → pending hashes HashKey.view_buffer g (counted_in p v s)
        ≡ pending hashes HashKey.view_buffer g s + (if p == g then 1 else 0)
  counted_buffer g p v s = omega (
    arith,
    laws.hincrby_lem HashKey.view_buffer p g 1 (redis.set (Key.view_dedup p v) Value.flag ttl s),
    laws.pending_set HashKey.view_buffer g (Key.view_dedup p v) Value.flag ttl s,
  )

  run_views-Counts :
      (g : ℕ) (seen : List (ℕ × ℕ)) (views : List ViewEvent) (s : S) (db : Db)
      → Marks seen s
      → Counts g
          (pending hashes HashKey.view_buffer g s + new_windows g seen views)
          db
          (run_views views (s, db))
  run_views-Counts g seen [] s db marks = (omega arith, refl)
  run_views-Counts g seen (ViewEvent.view p v ∷ views) s db marks =
      elim (Bool-cases (exists_row (is_view p v) seen)) [
        | inl old ↦
            let (buffer, same) =
              run_views-Counts g ((p, v) ∷ seen) views s db (repeat-Marks p v seen s old marks) in
            subst
              (λ (state : S × Db).
                Counts g
                  (pending hashes HashKey.view_buffer g s
                    + new_windows g seen (ViewEvent.view p v ∷ views))
                  db (run_views views state))
              (sym (
                view_effect p v s db
                ∙ ap (λ b. ((if b then counted_in p v s else s), db)) (marks p v ∙ ap not old)))
              (ground (arith, old, buffer), same)
        | inr new ↦
            let (buffer, same) =
              run_views-Counts g ((p, v) ∷ seen) views (counted_in p v s) db
                (set-Marks p v seen s marks) in
            subst
              (λ (state : S × Db).
                Counts g
                  (pending hashes HashKey.view_buffer g s
                    + new_windows g seen (ViewEvent.view p v ∷ views))
                  db (run_views views state))
              (sym (
                view_effect p v s db
                ∙ ap (λ b. ((if b then counted_in p v s else s), db)) (marks p v ∙ ap not new)))
              (ground (arith, new, buffer, counted_buffer g p v s), same)
      ]
  run_views-Counts g seen (ViewEvent.expire p v ∷ views) s db marks =
      let (buffer, same) =
        run_views-Counts g (without_view p v seen) views (redis.delete (Key.view_dedup p v) s) db
          (expire-Marks p v seen s marks) in
      (
        omega (arith, buffer, laws.pending_delete HashKey.view_buffer g (Key.view_dedup p v) s),
        same,
      )

  -- Where no viewer has a mark, the time to live is positive and the commands answer, the buffer counts
  -- for each post the windows that the views open: a viewer counts once however often it comes before
  -- its mark expires, and again on its first view behind that. The database is left alone.
  pub viewers_count_once :
      (g : ℕ) (events : List ViewEvent) (s : S) (db : Db)
      → ((q w : ℕ) → redis.get (Key.view_dedup q w) s ≡ none)
      → (pending hashes HashKey.view_buffer g (run_views events (s, db)).0
          ≡ pending hashes HashKey.view_buffer g s + new_windows g [] events)
        × ((run_views events (s, db)).1 ≡ db)
  viewers_count_once g events s db free =
      run_views-Counts g [] events s db (λ q w. ap is_none (free q w))
