-- ===== src/Streams/Tests.antt =====
-- A run of the streams of one instance, and the theorem at it.
use puppytalk_be.Base.{◌≡◌, refl, List, [], ◌∷◌}
use puppytalk_be.Streams.{register}
use puppytalk_be.Streams.Bounds.{Event, connect, disconnect, publish, receive, run}

-- The third stream of user 1 is refused.
abbrev events : List Event
events =
    connect 1 10 ∷ connect 1 11 ∷ connect 1 12 ∷ publish 1 7 ∷ receive 1 10 ∷ disconnect 1 11 ∷ []

events_leave_one : run 2 events [] ≡ (1, record { id = 10; payloads = [] } ∷ []) ∷ []
unfolding register
events_leave_one = refl
