-- ===== src/Streams.antt =====
-- The open event streams of one instance: `SseFanoutManager` of app/domain/notifications/stream.py, and
-- the capacity check of app/domain/notifications/service.py. The registry of sockets in
-- app/domain/chat/manager.py is kept in the same way.
pub mod Bounds
mod Tests
use puppytalk_be.Base.{
  ℕ, ◌+◌, Bool, true, false, not, Option, none, some, List, [], ◌∷◌, ◌++◌, length, map, ltb, leb,
  ◌==◌, where_rows, if◌then◌else◌, Result, ok, err,
}
use puppytalk_be.Errors.{AppError}

-- `_QUEUE_MAX_SIZE`
abbrev pub queue_max_size : ℕ
queue_max_size = 100

-- `asyncio.Queue`: which object it is, and the payloads in it, the oldest first.
pub record Queue : Type 0 where
  pub id : ℕ
  pub payloads : List ℕ

-- `_by_user`: the users with open streams, each with its set of queues.
abbrev pub Registry : Type 0
Registry = List (ℕ × List Queue)

-- `self._by_user.get(user_id, ())`
abbrev pub bucket_of : ℕ → Registry → List Queue
bucket_of user [] = []
bucket_of user ((u, queues) ∷ registry) = if u == user then queues else bucket_of user registry

-- `self._by_user[user_id] = queues`
abbrev pub put_bucket : ℕ → List Queue → Registry → Registry
put_bucket user queues [] = (user, queues) ∷ []
put_bucket user queues ((u, old) ∷ registry) =
    if u == user then (user, queues) ∷ registry else (u, old) ∷ put_bucket user queues registry

-- `del self._by_user[user_id]`
abbrev pub drop_bucket : ℕ → Registry → Registry
drop_bucket user [] = []
drop_bucket user ((u, old) ∷ registry) =
    let rest = drop_bucket user registry in if u == user then rest else (u, old) ∷ rest

module _ (max_connections : ℕ) where
  -- `has_capacity`
  abbrev pub has_capacity : ℕ → Registry → Bool
  has_capacity user registry = ltb (length (bucket_of user registry)) max_connections

  -- `NotificationService.ensure_sse_capacity`
  abbrev pub ensure_sse_capacity : ℕ → Registry → Result AppError (Unit {0})
  ensure_sse_capacity user registry =
      if has_capacity user registry then ok tt else err AppError.too_many_requests

  -- `register`; a bucket that is refused while empty is taken back.
  unfoldable pub register : ℕ → ℕ → Registry → Bool × Registry
  register user id registry =
      let bucket = bucket_of user registry in
      let queue : Queue = record { id = id; payloads = [] } in
      if leb max_connections (length bucket)
      then (false, registry)
      else (true, put_bucket user (queue ∷ bucket) registry)

-- `if not bucket: del self._by_user[user_id]`
abbrev pub keep_bucket : ℕ → List Queue → Registry → Registry
keep_bucket user [] registry = drop_bucket user registry
keep_bucket user (q ∷ left) registry = put_bucket user (q ∷ left) registry

-- `unregister` on the bucket that it found.
abbrev pub leave_bucket : ℕ → ℕ → List Queue → Registry → Registry
leave_bucket user id [] registry = registry
leave_bucket user id (q ∷ bucket) registry =
    keep_bucket user (where_rows (λ (r : Queue). not (r.id == id)) (q ∷ bucket)) registry

-- `unregister`
abbrev pub unregister : ℕ → ℕ → Registry → Registry
unregister user id registry = leave_bucket user id (bucket_of user registry) registry

-- `queue.put_nowait(payload)`, whose QueueFull is only logged.
abbrev pub put_nowait : ℕ → Queue → Queue
put_nowait payload q =
    if ltb (length q.payloads) queue_max_size
    then record q { payloads = q.payloads ++ (payload ∷ []) }
    else q

-- `deliver`
abbrev pub deliver : ℕ → ℕ → Registry → Registry
deliver user payload [] = []
deliver user payload ((u, queues) ∷ registry) =
    if u == user
    then (u, map (put_nowait payload) queues) ∷ registry
    else (u, queues) ∷ deliver user payload registry

-- `queue.get()` of the generator in `sse_subscribe`: the oldest payload leaves the queue.
abbrev pub take_oldest : List ℕ → List ℕ
take_oldest [] = []
take_oldest (payload ∷ payloads) = payloads

abbrev pub consume : ℕ → ℕ → Registry → Registry
consume user id [] = []
consume user id ((u, queues) ∷ registry) =
    if u == user
    then (
      u,
      map (λ q. if q.id == id then record q { payloads = take_oldest q.payloads } else q) queues,
    )
      ∷ registry
    else (u, queues) ∷ consume user id registry
