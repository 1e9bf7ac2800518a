-- ===== src/Api/Threads/Tests/Closing.antt =====
-- A revocation and a shutdown while requests to internal/api run.
use slim_m_relay.Prelude.{
  ◌+◌, ℕ, ◌≤◌, ◌≡◌, ◌≢◌, refl, true, false, Option, none, some, [], ◌∷◌, length, get_elem?, arith,
  ◌*◌, All,
}
use slim_m_relay.Prelude.Int.{pos}
use slim_m_relay.Text.{str_eq}
use slim_m_relay.Config.{load}
use slim_m_relay.Keys.Tables.{revoke_key, rows_affected}
use slim_m_relay.Keys.Sql.{ok}
use slim_m_relay.Keys.Store.{issue, scan_key, revoke}
use slim_m_relay.Api.Http.{value, Response}
use slim_m_relay.Api.Server.{new_server}
use slim_m_relay.Api.Router.{send}
use slim_m_relay.Api.Threads.{perform, finish, act, stamp, revoke_id, Answer, Program, ◌>>=◌}
use slim_m_relay.Api.Threads.Steps.{System, started, Reach, here, later, come_in, signal}
use slim_m_relay.Api.Threads.Bounds.{request_acts}
use slim_m_relay.Api.Threads.Cutoff.{Reach-NotFor}
use slim_m_relay.Api.Threads.Drain.{steps, shutdown_bound}
use slim_m_relay.Api.Threads.Drain.Acts.{IsReplied}
use slim_m_relay.Api.Threads.Programs.{stamped_key, verified_program, program}
use slim_m_relay.Api.Threads.Steps.Schedule.{arrived, turns, turns-Reach}
use slim_m_relay.Api.Threads.Tests.{
  plain_hash, wiring, server, message, times, first_request, second_request, Any, both_in, is_send,
  both_in_path, order,
}

-- the first key revoked while its request runs, and then the second key's request
abbrev revoking : System
revoking = arrived plain_hash wiring (started server) first_request send

abbrev revoked : System
revoked = record revoking { server = (perform plain_hash wiring (revoke_id (pos 1) 8) server).0 }

revoked_first : perform plain_hash wiring (revoke_id (pos 1) 8) server ≡ (revoked.server, ok tt)
unfolding perform issue new_server load str_eq revoke revoke_key rows_affected
revoked_first = refl

abbrev second_in : System
second_in =
    turns plain_hash wiring (arrived plain_hash wiring revoked second_request send) (1 ∷ 0 ∷ [])

ids_given : All (λ row. row.id ≤ server.store.db.key_seq) server.store.db.keys
unfolding issue new_server load str_eq
ids_given = (omega arith, (omega arith, tt))

abbrev stamping : Answer (stamp 2 0) → Program Response
stamping r =
    finish (
      stamped_key
        (record { id = 2; label = []; created_at = 0; last_used_at = none; revoked_at = none }) 0 r)
    >>= verified_program wiring times (record { size = 90; parsed = value (message ∷ []) })

stamping_thread :
    get_elem? second_in.threads 1
    ≡ some (record { request = second_request; endpoint = send; rest = act (stamp 2 0) stamping })
unfolding turns program perform load issue new_server str_eq revoke revoke_key scan_key
    rows_affected
stamping_thread = refl

Reach-NotFor_example : ◌≢◌ {A = Option ℕ} (some 2) (some 1)
Reach-NotFor_example =
    Reach-NotFor plain_hash wiring Any 1 8 1 server revoked second_in
      (record { request = second_request; endpoint = send; rest = act (stamp 2 0) stamping })
      (stamp 2 0) stamping ids_given revoked_first
      (turns-Reach plain_hash wiring Any revoked
        (arrived plain_hash wiring revoked second_request send) (1 ∷ 0 ∷ [])
        (later here (come_in second_request send tt refl is_send refl)) refl)
      (omega arith) stamping_thread refl

-- a signal with both requests in flight
abbrev closing : System
closing = record both_in { listening = false }

closing-Reach : Reach plain_hash wiring Any (started server) closing
closing-Reach = later both_in_path (signal refl refl)

abbrev closed : System
closed = turns plain_hash wiring closing order

closed-Reach : Reach plain_hash wiring Any closing closed
closed-Reach = turns-Reach plain_hash wiring Any closing closing order here refl

shutdown_bound_example :
    (length closed.threads ≡ 2)
    × (steps closed-Reach ≤ 1 + request_acts plain_hash wiring * 2)
    × (closed.running ≡ true
        → (r : System) × Reach plain_hash wiring Any closed r
          × (length r.threads ≡ 2)
          × All IsReplied r.threads)
shutdown_bound_example =
    shutdown_bound plain_hash wiring Any server closing closed closing-Reach refl closed-Reach
