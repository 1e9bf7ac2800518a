-- ===== src/Api/Threads/Programs.antt =====
-- The handlers of internal/api as programs, with the operations of internal/keys that they call.
use slim_m_relay.Prelude.{
  ℕ, suc, Bool, true, false, ◌&&◌, Option, none, some, List, [], ◌∷◌, ◌++◌, length, get_elem?, ltb,
  if◌then◌else◌,
}
use slim_m_relay.Prelude.Int.{ℤ, pos, ltb_ℤ, leb_ℤ}
use slim_m_relay.Text.{Str, codes}
use slim_m_relay.Keys.Tables.{KeyRow}
use slim_m_relay.Keys.Sql.{not_found, Result, ok, err}
use slim_m_relay.Keys.Store.{Key, Readings, unix, scan_key}
use slim_m_relay.Keys.Changes.{cutoff_at}
use slim_m_relay.Push.{Platform, platform_text, Kind, Message, error, Outcome}
use slim_m_relay.Dispatch.{Item, dispatch}
use slim_m_relay.Config.{atoi}
use slim_m_relay.Api.Address.{client_ip}
use slim_m_relay.Api.Http.{
  Parsed, value, Payload, decode_json, Response, write_err, results_body, bearer_token, status_body,
}
use slim_m_relay.Api.Server.{Wiring}
use slim_m_relay.Api.Register.{RegisterRequest, RegisterTimes, label_of, issue_reply}
use slim_m_relay.Api.Admin.{is_admin, list_reply, revoke_reply}
use slim_m_relay.Api.Send.{
  SendMessage, Moment, SendTimes, Verdict, skip, refuse, accept, retention_of, is_call, is_empty,
  is_not_attempted, check_owner, max_payload_bytes, parse_platform, parse_kind, empty_slot,
}
use slim_m_relay.Api.Router.{Endpoint, healthz, register, send, admin_list, admin_revoke, Exchange}
use slim_m_relay.Api.Threads.{
  Program, finish, act, ◌>>=◌, allow_register, allow_send, allow_call, return_call, find_key, stamp,
  issue_key, list_all, revoke_id, bind, prune_due, sweep_tokens,
}

-- `Verify`: the SELECT, the test, the UPDATE
abbrev pub stamped_key : Key → ℕ → Result (Unit {0}) → Result Key
stamped_key k used (ok _) = ok (record k { last_used_at = some used })
stamped_key k used (err e) = ok k

abbrev pub live_program : Option ℕ → Key → ℕ → Program (Result Key)
live_program (some _) k used = finish (err not_found)
live_program none k used = act (stamp k.id used) (λ r. finish (stamped_key k used r))

abbrev pub row_program : ℕ → Result (Option KeyRow) → Program (Result Key)
row_program used (err e) = finish (err e)
row_program used (ok none) = finish (err not_found)
row_program used (ok (some row)) = live_program row.revoked_at (scan_key row) used

unfoldable pub verify_program : (Str → Str) → Str → ℕ → Program (Result Key)
unfolding scan_key
verify_program hash_key plain now = act (find_key (hash_key plain)) (row_program (unix now))

-- `BindToken` behind its transaction: the sweep, if it is on and due
abbrev pub swept_if : Bool → ℕ → ℤ → Program (Result ℕ)
swept_if true owner cutoff = act (sweep_tokens cutoff) (λ _. finish (ok owner))
swept_if false owner cutoff = finish (ok owner)

abbrev pub prune_program : ℤ → Readings → Result ℕ → Program (Result ℕ)
prune_program retention t (err e) = finish (err e)
prune_program retention t (ok owner) =
    if leb_ℤ retention (pos 0)
    then finish (ok owner)
    else act (prune_due t.since t.stamp) (λ due. swept_if due owner (cutoff_at retention t.cutoff))

unfoldable pub bind_program : ℕ → Str → Str → ℤ → ℕ → Readings → Program (Result ℕ)
bind_program key_id platform token retention now t =
    act (bind key_id platform token now) (prune_program retention t)

-- the body of the first loop of `handleSend`
unfoldable pub bind_message_program : Wiring → ℕ → Moment → Platform → Message → Program Verdict
unfolding bind_program retention_of platform_text
bind_message_program w key_id t platform msg = do
  r ←
      bind_program key_id (platform_text platform) msg.token (retention_of w.config) t.bind_at
        t.prune_at
  finish (check_owner w key_id platform msg r)

abbrev pub if_granted : Program Verdict → Bool → Program Verdict
if_granted next true = next
if_granted next false = finish (refuse error)

unfoldable pub charge_program : Wiring → ℕ → Moment → Platform → Message → Program Verdict
unfolding bind_message_program
charge_program w key_id t platform msg =
    if is_call msg.kind
    then act (allow_call key_id t.allow_at)
        (if_granted (bind_message_program w key_id t platform msg))
    else bind_message_program w key_id t platform msg

abbrev pub kind_program :
    Wiring → ℕ → Moment → SendMessage → Platform → Option Kind → Program Verdict
kind_program w key_id t m platform none = finish (refuse error)
kind_program w key_id t m platform (some kind) =
    charge_program w key_id t platform
      (record { token = m.token; kind = kind; payload = m.payload })

abbrev pub platform_program : Wiring → ℕ → Moment → SendMessage → Option Platform → Program Verdict
platform_program w key_id t m none = finish (refuse error)
platform_program w key_id t m (some platform) =
    kind_program w key_id t m platform (parse_kind m.kind)

unfoldable pub look_at_program : Wiring → ℕ → Moment → SendMessage → Program Verdict
unfolding parse_platform parse_kind charge_program
look_at_program w key_id t m =
    if is_empty m.token
    then finish skip
    else if ltb max_payload_bytes (length m.payload)
    then finish (refuse error)
    else platform_program w key_id t m (parse_platform m.platform)

-- `results` and `items`, which belong to the request alone
pub record Gathered : Type 0 where
  pub results : List Outcome
  pub items : List Item

unfoldable pub gather : Str → Verdict → Gathered → Gathered
gather token skip g = g
gather token (refuse status) g = record g {
  results = g.results ++ record { token = token; status = status } ∷ [];
}
gather token (accept sender msg) g = record {
  results = g.results ++ empty_slot ∷ [];
  items = g.items ++ record { result_idx = length g.results; sender = sender; msg = msg } ∷ [];
}

unfoldable pub loop_program :
    Wiring → ℕ → (ℕ → Moment) → ℕ → List SendMessage → Gathered → Program Gathered
unfolding look_at_program gather
loop_program w key_id clock n [] g = finish g
loop_program w key_id clock n (m ∷ ms) g = look_at_program w key_id (clock n) m >>= λ verdict.
    loop_program w key_id clock (suc n) ms (gather m.token verdict g)

-- `refundNotAttemptedCalls`, before `reply` is sent
unfoldable pub refund_program : ℕ → List Item → List Outcome → Response → Program Response
refund_program key_id [] results reply = finish reply
refund_program key_id (item ∷ items) results reply =
    let rest = refund_program key_id items results reply in
    if is_call item.msg.kind && is_not_attempted (get_elem? results item.result_idx)
    then act (return_call key_id) (λ _. rest)
    else rest

unfoldable pub dispatch_program : ℕ → ℕ → Gathered → Program Response
unfolding dispatch refund_program
dispatch_program key_id cut g =
    let results = dispatch cut g.items g.results in
    refund_program key_id g.items results (record { status = 200; body = results_body results })

abbrev pub batch_program : Wiring → SendTimes → ℕ → Parsed (List SendMessage) → Program Response
batch_program w t key_id (value messages) =
    if ltb_ℤ w.config.max_messages (pos (length messages))
    then finish (write_err 400 (codes "too many messages in one request"))
    else (loop_program w key_id t.clock 0 messages (record { results = []; items = [] })
        >>= dispatch_program key_id t.cut)
batch_program w t key_id _ = finish (write_err 400 (codes "invalid body"))

abbrev pub limited : Program Response → Str → Bool → Program Response
limited next msg true = next
limited next msg false = finish (write_err 429 msg)

unfoldable pub key_program : Wiring → SendTimes → Payload (List SendMessage) → ℕ → Program Response
unfolding decode_json loop_program dispatch_program
key_program w t body key_id =
    act (allow_send key_id t.allow_at)
      (limited (batch_program w t key_id (decode_json 1048576 body)) (codes "rate limit exceeded"))

abbrev pub verified_program :
    Wiring → SendTimes → Payload (List SendMessage) → Result Key → Program Response
verified_program w t body (ok k) = key_program w t body k.id
verified_program w t body (err not_found) = finish (write_err 401 (codes "invalid or revoked key"))
verified_program w t body (err _) = finish (write_err 500 (codes "server error"))

unfoldable pub send_program :
    (Str → Str) → Wiring → SendTimes → Str → Payload (List SendMessage) → Program Response
unfolding bearer_token verify_program key_program
send_program hash_key w t header body =
    let plain = bearer_token header in
    if is_empty plain
    then finish (write_err 401 (codes "missing bearer key"))
    else (verify_program hash_key plain t.verify_at >>= verified_program w t body)

-- `handleRegister`
abbrev pub issue_program : RegisterTimes → Option Str → Program Response
issue_program t none = finish (write_err 400 (codes "invalid body"))
issue_program t (some label) = act (issue_key t.raw label t.issue_at) (λ r. finish (issue_reply r))

unfoldable pub register_program : Wiring → RegisterTimes → RegisterRequest → Program Response
unfolding client_ip decode_json
register_program w t request =
    act (allow_register (client_ip w.config request.remote request.forwarded_for) t.allow_at) (
      limited (issue_program t (label_of (decode_json 4096 request.public_url)))
        (codes "too many registrations from this address, try again later"))

-- the admin handlers and their guard
unfoldable pub admin_program : Wiring → Str → Program Response → Program Response
unfolding is_admin
admin_program w header next =
    if is_admin w.config.admin_token header
    then next
    else finish (write_err 401 (codes "unauthorized"))

abbrev pub list_program : Program Response
list_program = act list_all (λ r. finish (list_reply r))

abbrev pub revoke_program : Option ℤ → ℕ → Program Response
revoke_program none now = finish (write_err 400 (codes "invalid id"))
revoke_program (some id) now = act (revoke_id id now) (λ r. finish (revoke_reply r))

module _ (hash_key : Str → Str) (w : Wiring) where
  unfoldable pub program : Exchange → Endpoint → Program Response
  unfolding send_program register_program admin_program atoi
  program x healthz = finish (record { status = 200; body = status_body (codes "ok") })
  program x register = register_program w x.register_times x.registration
  program x send = send_program hash_key w x.send_times x.authorization x.messages
  program x admin_list = admin_program w x.authorization list_program
  program x (admin_revoke id) =
      admin_program w x.authorization (revoke_program (atoi id) x.revoke_at)
