-- ===== src/Lib.antt =====
-- The push relay: a Go service that forwards content-free notifications of self-hosting servers to
-- APNs and FCM. A server registers for a key, sends batches of messages with it, and each message goes
-- through its platform's sender to a device, if the key owns the device's token and its budgets allow
-- it. An operator lists and revokes keys.
--
-- The parts, each with the file that models it:
--   RateLimit    internal/ratelimit/ratelimit.go: Limiter with New, Allow, Return and evictIdle. The map
--                of buckets is an association list, and the state is passed on.
--   Keys         internal/keys/keys.go. Tables has the two SQLite tables and one function for each SQL
--                statement; Sql the connection, on which each statement may be refused, with
--                transactions that roll back; Store the operations Issue, Verify, List, Revoke,
--                BindToken and maybePruneStaleTokens; Migrate has Open and migrate. Run has
--                histories of calls.
--   Push         internal/push/push.go: platforms, kinds, statuses, the Sender interface and its
--                contract IsSender, and the sender without credentials.
--   Fcm, Apns    internal/fcm/fcm.go and internal/apns/apns.go: the two senders.
--   Dispatch     dispatch in internal/api/send.go: Dispatch/Pool has the goroutines, the unbuffered
--                channel and the deadline as a step relation; Dispatch has the plain loop that the
--                handler is modelled with.
--   Config       internal/config/config.go: Load.
--   Api          internal/api: Http and Address have helpers.go; Server and Router have server.go; Send,
--                Register and Admin the handlers, each from its first guard to its reply. Api/Runs
--                ties a request to the calls that it makes on the key store.
--   Api/Threads  the requests side by side: each handler once more, as a program of acts on what
--                the requests share (Threads, Threads/Programs), and in Threads/Steps the requests
--                that come in, their acts in any order, the panics that recoverer of
--                internal/api/helpers.go turns into a reply, the signal of cmd/relay/main.go, and the
--                two ends of the process: Shutdown returns, its ten seconds over or not, or a panic
--                in the fan-out or a failed listener ends it at any time.
--                Threads/Promises says what a program keeps to whatever its acts answer, and
--                Threads/Steps/Kept what every interleaving of such programs keeps.
--   Startup      cmd/relay/main.go: buildFCM, buildAPNs, main up to the server, and healthcheck.
--   Prelude, Text  what these share: tests and lists on the native numbers, integers, association
--                lists, and Go strings as lists of bytes.
--
-- How a definition stands for its function: a handler or method takes the state and gives the new one
-- with its result. Results with an error are `Result`, and a Go pointer or text that may be absent is
-- `Option`. Times are nanoseconds (Unix seconds in the tables), and every reading of the clock is an
-- argument of its own. Sender.send takes the number of the call in its request, which stands for what
-- the provider does at that time.
-- Code outside of the repository is a parameter: SHA-256 (hash_key), the apns2 client, the oauth2 token
-- source, the network behind net/http, and os.ReadFile. encoding/json is met as its outcome (Payload,
-- Json); strconv, net.SplitHostPort and the functions of strings are written out.
--
-- An act of a thread is atomic: a limiter works under its mutex, the test of the sweep under pruneMu,
-- and a statement or a transaction of the key store has the only connection to itself
-- (SetMaxOpenConns(1)). Verify is two acts, and BindToken with its sweep three; what the caller does
-- between them on its own results, and the fan-out, which touches nothing shared, are no acts.
--
-- Bounds and fuel: `dispatch` takes the number of items that the deadline lets through, and every number
-- is allowed. `decimal` gets n + 1 steps for the digits of n, and n has at most n + 1 digits. Everything
-- else is structural recursion. The retention wraps around at 64 bits, as time.Duration does; key ids,
-- counts and Unix seconds stay far below 2 ^ 63 and are natural numbers.
--
-- What is not modelled: the rounding of float64 in the limiter, where amounts are exact units of
-- 1/3,600,000,000,000 token; how long Shutdown waits, as its ten seconds may be over at any step, and
-- the other timeouts of the HTTP server; the mux's own replies beyond that they change nothing; headers
-- other than Authorization and X-Forwarded-For; the log, except for the rejections of an
-- unconfigured sender; SQLite below the level of statements.
pub mod Prelude
pub mod Text
pub mod RateLimit
pub mod Keys
pub mod Push
pub mod Dispatch
pub mod Apns
pub mod Fcm
pub mod Config
pub mod Api
pub mod Startup
