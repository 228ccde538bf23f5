-- ===== src/Lib.antt =====
-- The backend of a community for dog owners: a FastAPI service on PostgreSQL, Redis and S3. This
-- library models its core logic and proves what makes it correct.
--
-- Parts and files. A file below a folder proves theorems about, or continues, the file of the
-- folder's name.
--   Base           Boolean tests on ℕ, lists by a predicate, results
--   Ids            app/core/ids.py: identifiers as Base62 texts
--   Errors         app/common/exceptions.py
--   Db             app/db/statements.py and the tables; Db/Tx is the transaction of db.begin()
--   Posts          app/domain/posts/repository.py: visibility, counters, moderation
--   Comments       app/domain/comments/repository.py; Comments/Service and Comments/Moderation are
--                  the two classes of app/domain/comments/service.py, and Comments/Replies
--                  its get_replies
--   Notifications  app/domain/notifications: rows written in a transaction, events published after it
--   Cache          app/infra/cache.py: a cached read with its lock and its fallbacks
--   Chat           app/domain/chat/service.py: rooms of two users, sending, pages, read marks
--   Streams        app/domain/notifications/stream.py: the queues of the open event streams
--   Likes          app/domain/likes: posts and comments through one wiring
--   Reports        app/domain/reports, and the moderation of app/domain/admin/service.py: the reports on a
--                  post or a comment against its counter
--   Redis          the commands of Redis as an interface with their documented behaviour; Redis/Locks is
--                  app/infra/lock.py, Redis/Hashes the helpers on hashes of app/infra/redis.py
--   Dogs           app/domain/dogs: replacing the dog profiles of a user
--   Users          app/domain/users/model.py and app/domain/users/service.py: blocks, withdrawal, purge
--   Views          app/domain/posts/services/post_service.py: the tracking of a view and the flush of the
--                  buffered ones
--   Auth           app/domain/auth/service.py: rotation of refresh tokens; Auth/Once follows one token
--                  through any sequence of requests
--   Idempotency    app/domain/posts/idempotency.py and its use in app/domain/posts/router.py;
--                  Idempotency/World is the sequence of requests with one key
--   PostService    app/domain/posts/services/post_service.py: the deletion of a post
--   Paging         app/common/schemas.py: pages by number, and the split of an overfetched list
--   RateLimit      app/core/rate_limit.py: the window kept in memory, and the gate in front of it
--   Fixtures       a small database for the runs in the Tests modules
--
-- How the code is read. A table is the list of its rows, and a SQL statement is read by its meaning on
-- that list. A service method is a function from the database before to its result and the database
-- after; an exception inside `async with db.begin()` is a result that rolls the writes back. Requests
-- are taken one at a time, in the order in which they commit. An id is the integer of its UUID, an
-- instant a number of microseconds; ids and times that the code draws are arguments. Counters are ℕ,
-- and `GREATEST(x - 1, 0)` is its subtraction.
--
-- Bounds and fuel. The loop of uuid_to_base62 runs on fuel, and n rounds are enough for the number
-- n: each divides it by 62. The eviction of a full memory store runs on as many rounds as it has
-- entries, and each round removes one. The purge of users runs on more rounds than there are users,
-- each of which deletes one, and so does that of notifications. All other loops are structural
-- recursion.
--
-- Not modelled: HTTP, routers and schemas, S3, SNS and the worker, migrations; the foreign keys to
-- users in inserts (a purge follows them); the overflow of the 32-bit counter columns;
-- StaleDataError, which the statements in use do not raise. UUID(text) of the standard library is a
-- parameter with the hypothesis IsUuidParser; Redis is one with IsRedis and IsHashes, and the
-- verification of a JWT, the digest of a token and the user rows are parameters without hypotheses.
-- A request to Redis may lose its request or its reply. The interleaving of two sequential
-- fallbacks is not modelled: the code gives up atomicity there. A commit that raises is taken as
-- not applied, except that of a flush, which may be applied and raise. Between the steps of a flush
-- other processes add views to the buffer; a second flush behind an expired lock is not among them.
pub mod Auth
pub mod Base
pub mod Cache
pub mod Chat
pub mod Comments
pub mod Db
pub mod Dogs
pub mod Errors
pub mod Fixtures
pub mod Idempotency
pub mod Ids
pub mod Likes
pub mod Notifications
pub mod Paging
pub mod PostService
pub mod Posts
pub mod RateLimit
pub mod Redis
pub mod Reports
pub mod Streams
pub mod Users
pub mod Views
