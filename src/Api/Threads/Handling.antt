-- ===== src/Api/Threads/Handling.antt =====
-- What the thread of a request to internal/api promises, whichever endpoint it is for.
use slim_m_relay.Prelude.{ℕ, true, false, Option, none, some, List, Bool-cases, inl, inr}
use slim_m_relay.Prelude.Int.{ℤ}
use slim_m_relay.Text.{Str, codes}
use slim_m_relay.Config.{atoi}
use slim_m_relay.Api.Http.{Response, decode_json, write_err}
use slim_m_relay.Api.Address.{client_ip}
use slim_m_relay.Api.Server.{Wiring}
use slim_m_relay.Api.Register.{RegisterTimes, RegisterRequest, label_of}
use slim_m_relay.Api.Admin.{is_admin}
use slim_m_relay.Api.Router.{Endpoint, healthz, register, send, admin_list, admin_revoke, Exchange}
use slim_m_relay.Api.Threads.{Act, Answer, Program, allow_register, issue_key, list_all, revoke_id}
use slim_m_relay.Api.Threads.Programs.{
  limited, issue_program, register_program, admin_program, list_program, revoke_program, program,
}
use slim_m_relay.Api.Threads.Promises.{Promises}
use slim_m_relay.Api.Threads.Sending.{Covers}
use slim_m_relay.Api.Threads.Replying.{IsSendReply, send-IsSendReply}

-- The acts that an exchange may come to are within `W`.
pub record CoversAll (w : Wiring) (x : Exchange) (W : Act → Type 0)
    (G : (a : Act) → Answer a → Type 0) (May : ℕ → Type 0) : Type 0 where
  pub sends : Covers w x.send_times W G May
  pub registers : (key : Str) (now : ℕ) → W (allow_register key now)
  pub issues : (raw : Option (List ℕ)) (label : Str) (now : ℕ) → W (issue_key raw label now)
  pub lists : W list_all
  pub revokes : (id : ℤ) (now : ℕ) → W (revoke_id id now)

abbrev pub IsReply : Exchange → Endpoint → Response → Type 0
IsReply x send reply = IsSendReply x.messages reply
IsReply x _ reply = Unit

-- a panic is no success
pub recovered-IsReply :
    (x : Exchange) (endpoint : Endpoint) → IsReply x endpoint (write_err 500 (codes "server error"))
recovered-IsReply x healthz = tt
recovered-IsReply x register = tt
recovered-IsReply x send = λ messages results p e. absurd (cc)
recovered-IsReply x admin_list = tt
recovered-IsReply x (admin_revoke id) = tt

module _ (hash_key : Str → Str) (w : Wiring) (x : Exchange) (W : Act → Type 0)
    (G : (a : Act) → Answer a → Type 0) (May : ℕ → Type 0) (c : CoversAll w x W G May) where
  abbrev AnyReply : Response → Type 0
  AnyReply reply = Unit

  issue-AnyReply :
      (t : RegisterTimes) (label : Option Str) → Promises W G AnyReply (issue_program t label)
  issue-AnyReply t none = tt
  issue-AnyReply t (some label) = (c.issues t.raw label t.issue_at, λ r _. tt)

  register-AnyReply :
      (t : RegisterTimes) (request : RegisterRequest)
      → Promises W G AnyReply (register_program w t request)
  unfolding register_program
  register-AnyReply t request = (
    c.registers (client_ip w.config request.remote request.forwarded_for) t.allow_at,
    λ granted _.
        elim granted
          as (λ b. Promises W G AnyReply (
            limited (issue_program t (label_of (decode_json 4096 request.public_url)))
              (codes "too many registrations from this address, try again later") b)) [
                | true ↦ issue-AnyReply t (label_of (decode_json 4096 request.public_url))
                | false ↦ tt
              ],
  )

  admin-AnyReply :
      (header : Str) (next : Program Response)
      → Promises W G AnyReply next
      → Promises W G AnyReply (admin_program w header next)
  unfolding admin_program
  admin-AnyReply header next h = elim (Bool-cases (is_admin w.config.admin_token header)) [
    | inl admin ↦ rw admin h
    | inr other ↦ rw other tt
  ]

  revoke-AnyReply : (id : Option ℤ) (now : ℕ) → Promises W G AnyReply (revoke_program id now)
  revoke-AnyReply none now = tt
  revoke-AnyReply (some id) now = (c.revokes id now, λ r _. tt)

  pub program-IsReply :
      (endpoint : Endpoint) → Promises W G (IsReply x endpoint) (program hash_key w x endpoint)
  unfolding program
  program-IsReply healthz = tt
  program-IsReply register = register-AnyReply x.register_times x.registration
  program-IsReply send =
      send-IsSendReply hash_key w x.send_times W G May c.sends x.authorization x.messages
  program-IsReply admin_list = admin-AnyReply x.authorization list_program (c.lists, λ r _. tt)
  program-IsReply (admin_revoke id) =
      admin-AnyReply x.authorization (revoke_program (atoi id) x.revoke_at)
        (revoke-AnyReply (atoi id) x.revoke_at)
