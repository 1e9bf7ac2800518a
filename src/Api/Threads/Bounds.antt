-- ===== src/Api/Threads/Bounds.antt =====
-- How many acts a request to internal/api may do.
use slim_m_relay.Prelude.{
  ℕ, suc, ◌+◌, ◌*◌, ◌≤◌, true, false, ◌&&◌, Option, none, some, List, [], ◌∷◌, length, get_elem?,
  Bool-cases, inl, inr, arith,
}
use slim_m_relay.Prelude.Int.{ℤ, pos, pos_part, ltb_ℤ}
use slim_m_relay.Text.{Str, codes}
use slim_m_relay.Config.{atoi}
use slim_m_relay.Keys.Sql.{not_found, registration_ceiling, sql_error, rand_error, Result, ok, err}
use slim_m_relay.Keys.Store.{Key}
use slim_m_relay.Push.{Outcome}
use slim_m_relay.Dispatch.{Item}
use slim_m_relay.Api.Http.{
  Parsed, value, malformed, end_of_file, Payload, decode_json, Response, bearer_token,
}
use slim_m_relay.Api.Server.{Wiring}
use slim_m_relay.Api.Register.{RegisterTimes, RegisterRequest, label_of}
use slim_m_relay.Api.Admin.{is_admin}
use slim_m_relay.Api.Send.{SendMessage, SendTimes, is_call, is_empty, is_not_attempted}
use slim_m_relay.Api.Router.{Endpoint, healthz, register, send, admin_list, admin_revoke, Exchange}
use slim_m_relay.Api.Threads.{Program}
use slim_m_relay.Api.Threads.Programs.{
  verify_program, loop_program, refund_program, dispatch_program, batch_program, limited,
  key_program, verified_program, send_program, issue_program, register_program, admin_program,
  list_program, revoke_program, program,
}
use slim_m_relay.Api.Threads.Takes.{
  Takes, Anything, Takes-le, Takes-bind, verify-Takes, AtMost, loop-Takes,
}

module _ (hash_key : Str → Str) (w : Wiring) where
  refund-Takes :
      (key_id : ℕ) (items : List Item) (results : List Outcome) (reply : Response)
      → Takes (length items) Anything (refund_program key_id items results reply)
  unfolding refund_program
  refund-Takes key_id [] results reply = tt
  refund-Takes key_id (item ∷ items) results reply =
      elim (Bool-cases
        (is_call item.msg.kind && is_not_attempted (get_elem? results item.result_idx))) [
          | inl back ↦ rw back (λ x. refund-Takes key_id items results reply)
          | inr kept ↦ rw kept (
              Takes-le Anything (length items) (suc (length items))
                (refund_program key_id items results reply) (omega arith)
                (refund-Takes key_id items results reply))
        ]

  batch-Takes :
      (t : SendTimes) (key_id : ℕ) (p : Parsed (List SendMessage))
      → Takes (5 * pos_part w.config.max_messages) Anything (batch_program w t key_id p)
  unfolding dispatch_program AtMost
  batch-Takes t key_id malformed = tt
  batch-Takes t key_id end_of_file = tt
  batch-Takes t key_id (value ms) =
      elim (Bool-cases (ltb_ℤ w.config.max_messages (pos (length ms)))) [
        | inl many ↦ rw many tt
        | inr few ↦ rw few (
            let le : length ms ≤ pos_part w.config.max_messages = ground arith in
            Takes-bind (AtMost hash_key w (length ms)) Anything (4 * length ms) (length ms)
              (5 * pos_part w.config.max_messages)
              (loop_program w key_id t.clock 0 ms (record { results = []; items = [] }))
              (dispatch_program key_id t.cut) (omega arith)
              (loop-Takes hash_key w key_id t.clock 0 ms (record { results = []; items = [] }) 0
                (length ms) (omega arith) (omega arith))
              (λ g small.
                Takes-le Anything (length g.items) (length ms) (dispatch_program key_id t.cut g)
                  small (refund-Takes key_id g.items _ _)))
      ]

  key-Takes :
      (t : SendTimes) (body : Payload (List SendMessage)) (key_id : ℕ)
      → Takes (suc (5 * pos_part w.config.max_messages)) Anything (key_program w t body key_id)
  unfolding key_program
  key-Takes t body key_id = λ granted.
      elim granted
        as (λ b. Takes (5 * pos_part w.config.max_messages) Anything (
          limited (batch_program w t key_id (decode_json 1048576 body))
            (codes "rate limit exceeded") b)) [
              | true ↦ batch-Takes t key_id (decode_json 1048576 body)
              | false ↦ tt
            ]

  verified-Takes :
      (t : SendTimes) (body : Payload (List SendMessage)) (r : Result Key)
      → Takes (suc (5 * pos_part w.config.max_messages)) Anything (verified_program w t body r)
  verified-Takes t body (ok k) = key-Takes t body k.id
  verified-Takes t body (err not_found) = tt
  verified-Takes t body (err registration_ceiling) = tt
  verified-Takes t body (err sql_error) = tt
  verified-Takes t body (err rand_error) = tt

  send-Takes :
      (t : SendTimes) (header : Str) (body : Payload (List SendMessage))
      → Takes
          (3 + 5 * pos_part w.config.max_messages)
          Anything
          (send_program hash_key w t header body)
  unfolding send_program
  send-Takes t header body = elim (Bool-cases (is_empty (bearer_token header))) [
    | inl missing ↦ rw missing tt
    | inr given ↦ rw given (
        Takes-bind Anything Anything 2 (suc (5 * pos_part w.config.max_messages))
          (3 + 5 * pos_part w.config.max_messages)
          (verify_program hash_key (bearer_token header) t.verify_at) (verified_program w t body)
          (omega arith) (verify-Takes hash_key w (bearer_token header) t.verify_at)
          (λ r _. verified-Takes t body r))
  ]

  issue-Takes : (t : RegisterTimes) (label : Option Str) → Takes 1 Anything (issue_program t label)
  issue-Takes t none = tt
  issue-Takes t (some label) = λ r. tt

  register-Takes :
      (t : RegisterTimes) (request : RegisterRequest)
      → Takes 2 Anything (register_program w t request)
  unfolding register_program
  register-Takes t request = λ granted.
      elim granted
        as (λ b. Takes 1 Anything (
          limited (issue_program t (label_of (decode_json 4096 request.public_url)))
            (codes "too many registrations from this address, try again later") b)) [
              | true ↦ issue-Takes t (label_of (decode_json 4096 request.public_url))
              | false ↦ tt
            ]

  admin-Takes :
      (header : Str) (next : Program Response)
      → Takes 1 Anything next
      → Takes 1 Anything (admin_program w header next)
  unfolding admin_program
  admin-Takes header next h = elim (Bool-cases (is_admin w.config.admin_token header)) [
    | inl admin ↦ rw admin h
    | inr other ↦ rw other tt
  ]

  revoke-Takes : (id : Option ℤ) (now : ℕ) → Takes 1 Anything (revoke_program id now)
  revoke-Takes none now = tt
  revoke-Takes (some id) now = λ r. tt

  -- the bound for every endpoint
  abbrev pub request_acts : ℕ
  request_acts = 3 + 5 * pos_part w.config.max_messages

  pub program-Takes :
      (x : Exchange) (endpoint : Endpoint)
      → Takes request_acts Anything (program hash_key w x endpoint)
  unfolding program
  program-Takes x healthz = tt
  program-Takes x register =
      Takes-le Anything 2 request_acts (register_program w x.register_times x.registration)
        (omega arith) (register-Takes x.register_times x.registration)
  program-Takes x send = send-Takes x.send_times x.authorization x.messages
  program-Takes x admin_list =
      Takes-le Anything 1 request_acts (admin_program w x.authorization list_program) (omega arith)
        (admin-Takes x.authorization list_program (λ r. tt))
  program-Takes x (admin_revoke id) =
      Takes-le Anything 1 request_acts
        (admin_program w x.authorization (revoke_program (atoi id) x.revoke_at)) (omega arith)
        (admin-Takes x.authorization (revoke_program (atoi id) x.revoke_at)
          (revoke-Takes (atoi id) x.revoke_at))
