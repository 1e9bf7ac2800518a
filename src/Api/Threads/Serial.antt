-- ===== src/Api/Threads/Serial.antt =====
-- Every endpoint of internal/api: its program with the server to itself, against the handler.
use slim_m_relay.Prelude.{
  ℕ, ◌≡◌, refl, Bool, true, false, Option, none, some, if◌then◌else◌, Bool-cases, inl, inr,
}
use slim_m_relay.Prelude.Int.{ℤ}
use slim_m_relay.Text.{Str, codes}
use slim_m_relay.RateLimit.{Limiter, allow}
use slim_m_relay.Config.{atoi}
use slim_m_relay.Api.Http.{Response, decode_json, write_err}
use slim_m_relay.Api.Address.{client_ip}
use slim_m_relay.Api.Server.{Wiring, Server}
use slim_m_relay.Api.Register.{RegisterTimes, RegisterRequest, label_of, issue_for, handle_register}
use slim_m_relay.Api.Admin.{
  is_admin, require_admin, handle_admin_list_keys, handle_admin_revoke_key, revoke_parsed,
}
use slim_m_relay.Api.Router.{
  Endpoint, healthz, register, send, admin_list, admin_revoke, Exchange, serve_endpoint,
}
use slim_m_relay.Api.Threads.{Program, run_alone, with_register_lim}
use slim_m_relay.Api.Threads.Programs.{
  limited, issue_program, register_program, admin_program, list_program, revoke_program, program,
}
use slim_m_relay.Api.Threads.Alone.{resume}
use slim_m_relay.Api.Threads.Alone.Sends.{send_program_lem}

module _ (hash_key : Str → Str) (w : Wiring) where
  issue_program_lem :
      (t : RegisterTimes) (label : Option Str) (s : Server)
      → run_alone hash_key w (issue_program t label) s ≡ issue_for hash_key w t label s
  unfolding run_alone
  issue_program_lem t none s = refl
  issue_program_lem t (some label) s = refl

  register_program_lem :
      (t : RegisterTimes) (request : RegisterRequest) (s : Server)
      → run_alone hash_key w (register_program w t request) s
        ≡ handle_register hash_key w t request s
  unfolding run_alone register_program handle_register
  register_program_lem t request s =
      go (allow s.register_lim (client_ip w.config request.remote request.forwarded_for) t.allow_at)
    where
      label : Option Str
      label = label_of (decode_json 4096 request.public_url)

      msg : Str
      msg = codes "too many registrations from this address, try again later"

      go :
          (r : Limiter × Bool)
          → resume hash_key w (limited (issue_program t label) msg) (with_register_lim s r) ≡ (
              if r.1
              then issue_for hash_key w t label (record s { register_lim = r.0 })
              else (record s { register_lim = r.0 }, write_err 429 msg))
      go (lim, true) = issue_program_lem t label (record s { register_lim = lim })
      go (lim, false) = refl

  list_program_lem : (s : Server) → run_alone hash_key w list_program s ≡ handle_admin_list_keys s
  unfolding run_alone handle_admin_list_keys
  list_program_lem s = refl

  revoke_program_lem :
      (id : Option ℤ) (now : ℕ) (s : Server)
      → run_alone hash_key w (revoke_program id now) s ≡ revoke_parsed id now s
  unfolding run_alone
  revoke_program_lem none now s = refl
  revoke_program_lem (some id) now s = refl

  admin_program_lem :
      (header : Str) (next : Program Response) (handler : Server → Server × Response) (s : Server)
      → run_alone hash_key w next s ≡ handler s
      → run_alone hash_key w (admin_program w header next) s
        ≡ require_admin w.config.admin_token header handler s
  unfolding run_alone admin_program require_admin
  admin_program_lem header next handler s e =
      elim (Bool-cases (is_admin w.config.admin_token header)) [
        | inl admin ↦ rw admin e
        | inr other ↦ rw other refl
      ]

-- Each endpoint's program, run with no other request beside it, leaves the server and gives the reply
-- that the handler does.
pub program-serve_endpoint :
    (hash_key : Str → Str) (w : Wiring) (x : Exchange) (endpoint : Endpoint) (s : Server)
    → run_alone hash_key w (program hash_key w x endpoint) s
      ≡ serve_endpoint hash_key w x endpoint s
unfolding program handle_admin_revoke_key run_alone
program-serve_endpoint hash_key w x healthz s = refl
program-serve_endpoint hash_key w x register s =
    register_program_lem hash_key w x.register_times x.registration s
program-serve_endpoint hash_key w x send s =
    send_program_lem hash_key w x.send_times x.authorization x.messages s
program-serve_endpoint hash_key w x admin_list s =
    admin_program_lem hash_key w x.authorization list_program handle_admin_list_keys s
      (list_program_lem hash_key w s)
program-serve_endpoint hash_key w x (admin_revoke id) s =
    admin_program_lem hash_key w x.authorization (revoke_program (atoi id) x.revoke_at)
      (handle_admin_revoke_key id x.revoke_at) s
      (revoke_program_lem hash_key w (atoi id) x.revoke_at s)
