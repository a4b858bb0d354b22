-- ===== src/Lib.antt =====
-- stask-service: a gateway that takes synchronous API calls, stores them as tasks and runs them
-- later.
--
-- The program is app/. A request becomes a row of the MySQL table `tasks` (services/submit.py);
-- slots in Redis bound how many tasks of a token and of a model run at once (services/slots.py,
-- scripts in redis.py); tasks that wait for a batch, for a moment or for a slot are let go by one
-- function (services/dispatch.py), which the ticker of services/batching.py calls. A worker that
-- takes a message from the queue calls upstream under a lock and stores the answer
-- (services/execute.py), which the client then reads (services/flow.py); a callback tells the
-- client of the end (services/notify.py), and periodic jobs repair what was lost
-- (services/sweeper.py). The routes are in routers/.
--
-- Files and what they model:
--   Slots       the scripts LUA_SLOT_ACQUIRE3 and LUA_SLOT_RELEASE3 of app/redis.py on counters
--   Gate        app/services/slots.py on the world
--   Schemas     app/schemas.py; Schemas/Lifecycle is the order of the states
--   Rows        app/models.py and the JSON column of a row
--   SortedSets  the sorted sets of Redis
--   Schedule    app/services/schedule.py
--   Policy      app/services/modelpolicy.py: Validate is the check of the table, Resolve the lookup
--   Service     the world (table, Redis, queue), handlers on it, and rules to reason about them
--   Store       app/services/taskstore and app/services/statuscache.py; Search is the list of tasks
--               for an operator
--   Sessions    app/services/tokensession.py and the publishing functions of app/queue.py
--   Dispatch    app/services/dispatch.py
--   Batching    app/services/batching.py: Params are the headers, Membership joins and claims, Ticker
--               the release of what is due, and Rebuild the index made anew from the table
--   Submit      app/services/submit.py and app/services/idem.py
--   Admission   app/services/admission.py: the checks of paths and upstream addresses; Requests are the
--               headers that are kept and the ids of tasks
--   Codec       app/services/codec.py
--   Execute     app/services/execute.py: Upstream is the retry loop, Settle the end of a task
--   Flow        app/services/flow.py: cancellation and views; Replay is the stored answer
--   Sweeper     app/services/sweeper.py: Queries are its reads of the table, Slots the recalibration
--   Notify      app/services/notify.py: one delivery; Chain follows its retries
--   Upstream    app/services/upstream.py: the check of a token and its caches
--   Artifacts   app/services/artifacts.py: Tiers are the known paths and the walk, Parse the bytes
--               that stand in an answer and the three tiers together
--   Dynconf     app/services/dynconf.py: the settings that can be changed, their check and their cache
--   Outcome     app/services/outcome.py: the message of an upstream that refused
--   Logdigest   app/services/logdigest.py: what is logged of a request and of an answer
--   Workers     the tasks of app/queue.py
--   Routes      app/routers/proxy.py with app/deps/auth.py; Limits is app/deps/ratelimit.py, Submitting
--               and Asking are the routes of a client, Admin those of app/routers/admin.py, Ops those
--               of app/routers/ops.py
--   System      all routes and tasks as events of one system, and the abstract machine that it
--               implements
--   Tests       concrete inputs
--
-- State and errors. A handler is a function on `World` that returns or raises. Every round trip to
-- MySQL, Redis or the queue reads the next entry of the script of the world: it is answered, it is
-- refused and nothing has happened, or the reply is lost after it took effect. A theorem about all
-- worlds is so a theorem about all such failures. `catch` is `try … except Exception`. The loop of
-- `idem.wait_row`, the long poll and the ticker run over a list with one entry for each sleep, the
-- change that others make meanwhile; its length stands for the time limit. The retry loop of an
-- execution runs on the attempts that are left, and the purge on a list as long as the table: every
-- full round cleans rows that the next one no longer finds. The chain of a callback runs on fuel,
-- of which one unit more than attempts are left is enough. The walk through a JSON value is recursion
-- on the value. All other loops are on lists. What asyncio runs concurrently runs here one item after
-- the other.
--
-- Numbers are natural numbers, and a counter of Redis is an integer; Python and Redis have no
-- overflow that the program can reach. Texts are lists of code points, and `lower` changes the
-- ASCII letters only. The sorted sets of the batches are one map from their names, in which the index
-- of deadlines stands under the name `due`, as the prefix of the keys has it: a batch of that name
-- shares its set with the index. The expiry of such a set is a step of its own, at any moment; the
-- slots, the counters, the sessions and the caches leave out the expiry of keys. The table of policies and the runtime configuration are read from the world; Dynconf models the hash that they
-- are read from, with its cache in the process.
--
-- Not modelled: `datetime.fromisoformat`, `json.loads`, `urlsplit`, SHA-256 and UUIDs are
-- parameters; so are the HMAC of a callback, `json.dumps`, the test for base64, and `int(float(x))`
-- where a double may round or fail. An HTTP request is the next reply of the world. Telemetry, the
-- framework around the routes and the aggregates of the dashboard are left out. In System a handler
-- runs to its end before the next begins, except while it sleeps.
mod Prelude
pub mod Slots
pub mod Schemas
pub mod Rows
pub mod SortedSets
pub mod Schedule
pub mod Policy
pub mod Service
pub mod Store
pub mod Gate
pub mod Sessions
pub mod Dispatch
pub mod Batching
pub mod Submit
pub mod Admission
pub mod Codec
pub mod Execute
pub mod Flow
pub mod Notify
pub mod Upstream
pub mod Artifacts
pub mod Dynconf
pub mod Outcome
pub mod Logdigest
pub mod Workers
pub mod Routes
pub mod System
pub mod Sweeper
pub mod Tests
