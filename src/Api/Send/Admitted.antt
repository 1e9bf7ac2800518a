-- ===== src/Api/Send/Admitted.antt =====
-- The budget for sends of a key, at one request to `handleSend` of internal/api/send.go.
use slim_m_relay.Prelude.{
  ℕ, suc, ◌+◌, ◌*◌, ◌≤◌, ◌≡◌, refl, sym, ◌∙◌, ap, true, inl, inr, Option, none, some, List, [], ◌∷◌,
  length, ltb, Bool-cases, subst,
}
use slim_m_relay.Prelude.Int.{pos, ltb_ℤ}
use slim_m_relay.Text.{Str, format_int}
use slim_m_relay.Push.{Platform, Kind, Message, Outcome}
use slim_m_relay.RateLimit.{token_unit, idle_limit, Limiter, allow}
use slim_m_relay.RateLimit.Level.{IsLimiter, level}
use slim_m_relay.Keys.Sql.{Result, ok, err, not_found, registration_ceiling, sql_error, rand_error}
use slim_m_relay.Keys.Store.{Key, verify}
use slim_m_relay.Api.Http.{
  Parsed, value, malformed, end_of_file, Payload, decode_json, bearer_token,
}
use slim_m_relay.Api.Server.{Wiring, Server}
use slim_m_relay.Api.Send.{
  SendMessage, Moment, SendTimes, Verdict, skip, refuse, accept, is_call, is_empty, charge_call,
  bind_message, charge_and_bind, with_kind, with_platform, look_at, max_payload_bytes,
  parse_platform, parse_kind, Batch, record_verdict, take_message, parse_loop, finish_send,
  send_batch, with_key, verified, with_store, handle_send,
}
use slim_m_relay.Api.Send.Accepted.{granted-level}
use slim_m_relay.Api.Send.Replies.{success}

-- what the loop does leaves the limiter for sends alone
abbrev SameSends : Server → Server → Type 0
SameSends s s' = s'.send_lim ≡ s.send_lim

module _ (w : Wiring) (key_id : ℕ) where
  charge_call-SameSends :
      (t : Moment) (kind : Kind) (s : Server) → SameSends s (charge_call key_id t kind s).0
  unfolding charge_call
  charge_call-SameSends t kind s = elim (Bool-cases (is_call kind)) [
    | inl paid ↦ rw paid refl
    | inr free ↦ rw free refl
  ]

  charge_and_bind-SameSends :
      (t : Moment) (platform : Platform) (msg : Message) (s : Server)
      → SameSends s (charge_and_bind w key_id t platform msg s).0
  unfolding charge_and_bind bind_message
  charge_and_bind-SameSends t platform msg s =
      elim (Bool-cases (charge_call key_id t msg.kind s).1) [
        | inl paid ↦ rw paid (charge_call-SameSends t msg.kind s)
        | inr broke ↦ rw broke (charge_call-SameSends t msg.kind s)
      ]

  with_kind-SameSends :
      (t : Moment) (m : SendMessage) (platform : Platform) (o : Option Kind) (s : Server)
      → SameSends s (with_kind w key_id t m platform o s).0
  with_kind-SameSends t m platform none s = refl
  with_kind-SameSends t m platform (some kind) s = charge_and_bind-SameSends t platform _ s

  with_platform-SameSends :
      (t : Moment) (m : SendMessage) (o : Option Platform) (s : Server)
      → SameSends s (with_platform w key_id t m o s).0
  with_platform-SameSends t m none s = refl
  with_platform-SameSends t m (some platform) s =
      with_kind-SameSends t m platform (parse_kind m.kind) s

  look_at-SameSends :
      (t : Moment) (m : SendMessage) (s : Server) → SameSends s (look_at w key_id t m s).0
  unfolding look_at
  look_at-SameSends t m s = elim (Bool-cases (is_empty m.token)) [
    | inl gone ↦ rw gone refl
    | inr here ↦ elim (Bool-cases (ltb max_payload_bytes (length m.payload))) [
      | inl large ↦ rw (here, large) refl
      | inr small ↦ rw (here, small) (with_platform-SameSends t m (parse_platform m.platform) s)
    ]
  ]

  record_verdict-server :
      (token : Str) (v : Verdict) (b : Batch) → (record_verdict token v b).server ≡ b.server
  unfolding record_verdict
  record_verdict-server token skip b = refl
  record_verdict-server token (refuse status) b = refl
  record_verdict-server token (accept sender msg) b = refl

  parse_loop-SameSends :
      (clock : ℕ → Moment) (n : ℕ) (ms : List SendMessage) (b : Batch)
      → SameSends b.server (parse_loop w key_id clock n ms b).server
  unfolding parse_loop take_message
  parse_loop-SameSends clock n [] b = refl
  parse_loop-SameSends clock n (m ∷ ms) b =
      let looked = look_at w key_id (clock n) m b.server in
      parse_loop-SameSends clock (suc n) ms
        (record_verdict m.token looked.1 (record b { server = looked.0 }))
      ∙ ap (λ (s : Server). s.send_lim)
          (record_verdict-server m.token looked.1 (record b { server = looked.0 }))
      ∙ look_at-SameSends (clock n) m b.server

  send_batch-SameSends :
      (t : SendTimes) (p : Parsed (List SendMessage)) (s : Server)
      → SameSends s (send_batch w t key_id p s).0
  unfolding finish_send
  send_batch-SameSends t malformed s = refl
  send_batch-SameSends t end_of_file s = refl
  send_batch-SameSends t (value ms) s =
      elim (Bool-cases (ltb_ℤ w.config.max_messages (pos (length ms)))) [
        | inl many ↦ rw many refl
        | inr few ↦
            rw few
              (parse_loop-SameSends t.clock 0 ms (record { server = s; results = []; items = [] }))
      ]

  -- an admitted request has been granted a token, and keeps to it
  with_key-granted :
      (t : SendTimes) (body : Payload (List SendMessage)) (s : Server) (results : List Outcome)
      → (with_key w t body key_id s).1 ≡ success results
      → ((allow s.send_lim (format_int key_id) t.allow_at).1 ≡ true)
        × ((with_key w t body key_id s).0.send_lim
            ≡ (allow s.send_lim (format_int key_id) t.allow_at).0)
  unfolding with_key
  with_key-granted t body s results e =
      elim (Bool-cases (allow s.send_lim (format_int key_id) t.allow_at).1) [
        | inl granted ↦ (granted, rw granted (send_batch-SameSends t (decode_json 1048576 body) _))
        | inr refused ↦ absurd (let q = rw refused at e in cc)
      ]

-- A send is answered with results only under a key that `Verify` accepts, and only if the key's budget
-- for sends held a whole token when it was asked, which the request has then taken. The limiter for
-- sends is well formed, its burst holds a token and comes back within ten minutes, and the clock does
-- not go back.
pub handle_send-admitted :
    (hash_key : Str → Str) (w : Wiring) (r b since : ℕ) (t : SendTimes) (header : Str)
    (body : Payload (List SendMessage)) (s : Server) (results : List Outcome)
    → token_unit ≤ b
    → b ≤ idle_limit * r
    → since ≤ t.allow_at
    → IsLimiter r b since s.send_lim
    → (handle_send hash_key w t header body s).1 ≡ success results
    → (k : Key) × ((verify hash_key (bearer_token header) t.verify_at s.store).0 ≡ ok k)
      × (level (handle_send hash_key w t header body s).0.send_lim (format_int k.id) t.allow_at
            + token_unit
          ≡ level s.send_lim (format_int k.id) t.allow_at)
unfolding handle_send
handle_send-admitted hash_key w r b since t header body s results big full past v e =
    elim (Bool-cases (is_empty (bearer_token header))) [
      | inl missing ↦ absurd (let q = rw missing at e in cc)
      | inr given ↦
          let x = verify hash_key (bearer_token header) t.verify_at s.store in
          rw given (accepted x.0 (with_store s x.1) refl (rw given at e))
    ]
  where
    accepted :
        (o : Result Key) (s' : Server)
        → s'.send_lim ≡ s.send_lim
        → (verified w t body o s').1 ≡ success results
        → (k : Key) × (o ≡ ok k)
          × (level (verified w t body o s').0.send_lim (format_int k.id) t.allow_at + token_unit
              ≡ level s.send_lim (format_int k.id) t.allow_at)
    accepted (err not_found) s' same q = absurd (cc)
    accepted (err registration_ceiling) s' same q = absurd (cc)
    accepted (err sql_error) s' same q = absurd (cc)
    accepted (err rand_error) s' same q = absurd (cc)
    accepted (ok k) s' same q =
        let (granted, kept) = with_key-granted w k.id t body s' results q in
        let taken =
          granted-level r b s'.send_lim (format_int k.id) since t.allow_at big full past
            (subst (IsLimiter r b since) (sym same) v) granted in
        (
          k,
          refl,
          ap (λ (l : Limiter). level l (format_int k.id) t.allow_at + token_unit) kept
              ∙ taken
              ∙ ap (λ (l : Limiter). level l (format_int k.id) t.allow_at) same,
        )
