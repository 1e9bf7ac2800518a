-- ===== src/Api/Send.antt =====
-- internal/api/send.go: the fan-out of one `POST /v1/send`.
pub mod Slots
pub mod Results
pub mod Replies
pub mod Verdicts
pub mod Accepted
pub mod Admitted
pub mod Refunds
mod Tests
use slim_m_relay.Prelude.{
  ℕ, zero, suc, ◌+◌, ◌≡◌, refl, Bool, true, false, not, ◌&&◌, Option, none, some, List, [], ◌∷◌,
  ◌++◌, length, get_elem?, ltb, leb, ◌==◌, if◌then◌else◌,
}
use slim_m_relay.Prelude.Int.{ℤ, pos, negsuc, ◌*ℤ◌, wrap64, ltb_ℤ}
use slim_m_relay.Text.{Str, codes, str_eq, format_int}
use slim_m_relay.RateLimit.{Limiter, allow, give_back}
use slim_m_relay.Keys.Sql.{
  Error, not_found, registration_ceiling, sql_error, rand_error, Result, ok, err, Store,
}
use slim_m_relay.Keys.Store.{Key, Readings, verify, bind_token}
use slim_m_relay.Push.{
  Platform, ios, android, Kind, message, mention, call, wake, platform_text, kind_text, Message,
  Status, blank, error, forbidden, not_attempted, Outcome, Sender,
}
use slim_m_relay.Dispatch.{Item, dispatch}
use slim_m_relay.Config.{Config}
use slim_m_relay.Api.Http.{
  Parsed, value, malformed, end_of_file, Payload, decode_json, Response, write_err, results_body,
  bearer_token,
}
use slim_m_relay.Api.Server.{Wiring, Server}

-- sendMessage
pub record SendMessage : Type 0 where
  pub platform : Str
  pub token : Str
  pub kind : Str
  pub payload : Str

abbrev pub max_payload_bytes : ℕ
max_payload_bytes = 4096

unfoldable pub parse_platform : Str → Option Platform
unfolding str_eq
parse_platform s =
    if str_eq s (codes "ios")
    then some ios
    else if str_eq s (codes "android")
    then some android
    else none

unfoldable pub parse_kind : Str → Option Kind
unfolding str_eq
parse_kind s =
    if str_eq s (codes "message")
    then some message
    else if str_eq s (codes "mention")
    then some mention
    else if str_eq s (codes "call")
    then some call
    else if str_eq s (codes "wake")
    then some wake
    else none

-- `time.Duration(s.cfg.TokenRetentionDays) * 24 * time.Hour`, in wrapping 64-bit nanoseconds
unfoldable pub retention_of : Config → ℤ
unfolding wrap64 ◌*ℤ◌
retention_of cfg = wrap64 (wrap64 (cfg.token_retention_days *ℤ pos 24) *ℤ pos 3600000000000)

-- the clock's readings while one message is looked at
pub record Moment : Type 0 where
  pub allow_at : ℕ
  pub bind_at : ℕ
  pub prune_at : Readings

-- What the first loop decides of a message: no result, a result at once, or an item to dispatch.
pub data Verdict : Type 0 where
  skip : Verdict
  refuse : Status → Verdict
  accept : Sender → Message → Verdict

abbrev pub is_call : Kind → Bool
is_call call = true
is_call _ = false

abbrev pub sender_for : Wiring → Platform → Sender
sender_for w ios = w.ios_sender
sender_for w android = w.android_sender

-- the outcome of `BindToken`
abbrev pub check_owner : Wiring → ℕ → Platform → Message → Result ℕ → Verdict
check_owner w key_id platform msg (err e) = refuse error
check_owner w key_id platform msg (ok owner) =
    if owner == key_id then accept (sender_for w platform) msg else refuse forbidden

abbrev pub with_store : Server → Store → Server
with_store s store = record s { store = store }

-- the part of the loop's body behind the call budget
unfoldable pub bind_message : Wiring → ℕ → Moment → Platform → Message → Server → Server × Verdict
unfolding retention_of platform_text
bind_message w key_id t platform msg s =
    let (r, store) =
      bind_token key_id (platform_text platform) msg.token (retention_of w.config) t.bind_at
        t.prune_at s.store in
    (with_store s store, check_owner w key_id platform msg r)

-- `kind == push.KindCall && !s.callLim.Allow(…)`: a call pays first
unfoldable pub charge_call : ℕ → Moment → Kind → Server → Server × Bool
unfolding format_int
charge_call key_id t kind s =
    if is_call kind
    then (let (lim, granted) = allow s.call_lim (format_int key_id) t.allow_at in
        (record s { call_lim = lim }, granted))
    else (s, true)

unfoldable pub charge_and_bind :
    Wiring → ℕ → Moment → Platform → Message → Server → Server × Verdict
unfolding charge_call bind_message
charge_and_bind w key_id t platform msg s =
    let (s', granted) = charge_call key_id t msg.kind s in
    if granted then bind_message w key_id t platform msg s' else (s', refuse error)

abbrev pub with_kind :
    Wiring → ℕ → Moment → SendMessage → Platform → Option Kind → Server → Server × Verdict
with_kind w key_id t m platform none s = (s, refuse error)
with_kind w key_id t m platform (some kind) s =
    charge_and_bind w key_id t platform
      (record { token = m.token; kind = kind; payload = m.payload }) s

abbrev pub with_platform :
    Wiring → ℕ → Moment → SendMessage → Option Platform → Server → Server × Verdict
with_platform w key_id t m none s = (s, refuse error)
with_platform w key_id t m (some platform) s = with_kind w key_id t m platform (parse_kind m.kind) s

abbrev pub is_empty : Str → Bool
is_empty [] = true
is_empty (c ∷ s) = false

-- the body of the first loop
unfoldable pub look_at : Wiring → ℕ → Moment → SendMessage → Server → Server × Verdict
unfolding parse_platform parse_kind charge_and_bind
look_at w key_id t m s =
    if is_empty m.token
    then (s, skip)
    else if ltb max_payload_bytes (length m.payload)
    then (s, refuse error)
    else with_platform w key_id t m (parse_platform m.platform) s

-- `results` and `items` while the loop runs
pub record Batch : Type 0 where
  pub server : Server
  pub results : List Outcome
  pub items : List Item

abbrev pub empty_slot : Outcome
empty_slot = record { token = []; status = blank }

unfoldable pub record_verdict : Str → Verdict → Batch → Batch
record_verdict token skip b = b
record_verdict token (refuse status) b = record b {
  results = b.results ++ record { token = token; status = status } ∷ [];
}
record_verdict token (accept sender msg) b = record b {
  results = b.results ++ empty_slot ∷ [];
  items = b.items ++ record { result_idx = length b.results; sender = sender; msg = msg } ∷ [];
}

unfoldable pub take_message : Wiring → ℕ → Moment → SendMessage → Batch → Batch
unfolding look_at record_verdict
take_message w key_id t m b =
    let (s, verdict) = look_at w key_id t m b.server in
    record_verdict m.token verdict (record b { server = s })

unfoldable pub parse_loop : Wiring → ℕ → (ℕ → Moment) → ℕ → List SendMessage → Batch → Batch
unfolding take_message
parse_loop w key_id clock n [] b = b
parse_loop w key_id clock n (m ∷ ms) b =
    parse_loop w key_id clock (suc n) ms (take_message w key_id (clock n) m b)

abbrev pub is_not_attempted : Option Outcome → Bool
is_not_attempted none = false
is_not_attempted (some r) = elim r.status [ not_attempted ↦ true | _ ↦ false ]

-- `refundNotAttemptedCalls`
unfoldable pub refund_calls : Str → List Item → List Outcome → Limiter → Limiter
unfolding give_back
refund_calls key [] results lim = lim
refund_calls key (item ∷ items) results lim = refund_calls key items results (
    if is_call item.msg.kind && is_not_attempted (get_elem? results item.result_idx)
    then give_back lim key
    else lim)

-- the rest of the handler: dispatch, cut off after `cut` items, refund, reply
unfoldable pub finish_send : ℕ → ℕ → Batch → Server × Response
unfolding dispatch refund_calls format_int
finish_send key_id cut b =
    let results = dispatch cut b.items b.results in
    (
      record b.server {
        call_lim = refund_calls (format_int key_id) b.items results b.server.call_lim;
      },
      record { status = 200; body = results_body results },
    )

-- the readings of the clock in one request, and the number of items that the deadline lets through
pub record SendTimes : Type 0 where
  pub verify_at : ℕ
  pub allow_at : ℕ
  pub clock : ℕ → Moment
  pub cut : ℕ

abbrev pub send_batch :
    Wiring → SendTimes → ℕ → Parsed (List SendMessage) → Server → Server × Response
send_batch w t key_id (value messages) s =
    if ltb_ℤ w.config.max_messages (pos (length messages))
    then (s, write_err 400 (codes "too many messages in one request"))
    else finish_send key_id t.cut
        (parse_loop w key_id t.clock 0 messages (record { server = s; results = []; items = [] }))
send_batch w t key_id _ s = (s, write_err 400 (codes "invalid body"))

unfoldable pub with_key :
    Wiring → SendTimes → Payload (List SendMessage) → ℕ → Server → Server × Response
unfolding format_int decode_json parse_loop finish_send
with_key w t body key_id s =
    let (lim, granted) = allow s.send_lim (format_int key_id) t.allow_at in
    let s' = record s { send_lim = lim } in
    if granted
    then send_batch w t key_id (decode_json 1048576 body) s'
    else (s', write_err 429 (codes "rate limit exceeded"))

abbrev pub verified :
    Wiring → SendTimes → Payload (List SendMessage) → Result Key → Server → Server × Response
verified w t body (ok k) s = with_key w t body k.id s
verified w t body (err not_found) s = (s, write_err 401 (codes "invalid or revoked key"))
verified w t body (err _) s = (s, write_err 500 (codes "server error"))

-- `handleSend`, with the Authorization header and the body of the request
unfoldable pub handle_send :
    (Str → Str) → Wiring → SendTimes → Str → Payload (List SendMessage) → Server → Server × Response
unfolding bearer_token with_key
handle_send hash_key w t header body s =
    let plain = bearer_token header in
    if is_empty plain
    then (s, write_err 401 (codes "missing bearer key"))
    else (let (r, store) = verify hash_key plain t.verify_at s.store in
        verified w t body r (with_store s store))
