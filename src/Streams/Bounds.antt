-- ===== src/Streams/Bounds.antt =====
-- The memory of the open streams is bounded: app/domain/notifications/stream.py.
use puppytalk_be.Base.{ℕ, ◌≤◌, List, [], ◌∷◌, length, ◌==◌, if◌then◌else◌, All}
use puppytalk_be.Streams.{
  Queue, Registry, register, unregister, deliver, take_oldest, consume, queue_max_size,
}

abbrev pub IsFitting : Queue → Type 0
IsFitting q = length q.payloads ≤ queue_max_size

-- A user in the registry has a stream, at most `n` of them, and no queue is longer than its maximum.
abbrev pub IsBucket : ℕ → ℕ × List Queue → Type 0
IsBucket n (u, queues) = (1 ≤ length queues) × (length queues ≤ n) × All IsFitting queues

abbrev pub IsBounded : ℕ → Registry → Type 0
IsBounded n registry = All (IsBucket n) registry

module _ (n : ℕ) where
  abbrev consumed : ℕ → Queue → Queue
  consumed id q = if q.id == id then record q { payloads = take_oldest q.payloads } else q

-- What happens at an instance.
pub data Event : Type 0 where
  connect disconnect publish receive : ℕ → ℕ → Event

abbrev pub step : ℕ → Event → Registry → Registry
step n (connect user id) registry = (register n user id registry).1
step n (disconnect user id) registry = unregister user id registry
step n (publish user payload) registry = deliver user payload registry
step n (receive user id) registry = consume user id registry

abbrev pub run : ℕ → List Event → Registry → Registry
run n [] registry = registry
run n (e ∷ events) registry = run n events (step n e registry)
