-- ===== src/Api/Runs.antt =====
-- What the requests of internal/api do to the key store, as histories of calls of internal/keys.
pub mod Serving
pub mod Kept
use slim_m_relay.Prelude.{
  ℕ, suc, ◌≤◌, ◌≡◌, ◌≢◌, refl, sym, ◌∙◌, ap, Bool, true, false, Option, none, some, List, [], ◌∷◌,
  ◌++◌, length, All, All-append, take, arith, ltb, Bool-cases, inl, inr, ◌⊎◌, subst,
}
use slim_m_relay.Prelude.Int.{ℤ, pos, ltb_ℤ}
use slim_m_relay.Text.{Str, format_int, trim_space}
use slim_m_relay.RateLimit.{allow}
use slim_m_relay.Push.{Platform, Kind, Message, platform_text}
use slim_m_relay.Keys.Tables.{Db}
use slim_m_relay.Keys.Sql.{
  Error, not_found, registration_ceiling, sql_error, rand_error, Result, ok, err, Store,
}
use slim_m_relay.Keys.Store.{Key, issue, verify, revoke, list_keys, bind_token}
use slim_m_relay.Keys.Run.{Call, issues, verifies, revokes, lists, binds, run, run-append}
use slim_m_relay.Config.{Config, atoi}
use slim_m_relay.Api.Http.{
  Parsed, value, malformed, end_of_file, decode_json, Response, bearer_token, Payload,
}
use slim_m_relay.Api.Address.{client_ip}
use slim_m_relay.Api.Server.{Wiring, Server}
use slim_m_relay.Api.Register.{
  RegisterTimes, RegisterRequest, max_label_len, label_of, issue_for, handle_register,
}
use slim_m_relay.Api.Admin.{
  is_admin, require_admin, handle_admin_list_keys, handle_admin_revoke_key, revoke_parsed,
}
use slim_m_relay.Api.Send.{
  SendMessage, Moment, SendTimes, Batch, Verdict, retention_of, is_call, is_empty,
  max_payload_bytes, bind_message, charge_call, charge_and_bind, with_kind, with_platform,
  parse_platform, parse_kind, look_at, record_verdict, take_message, parse_loop, finish_send,
  send_batch, with_key, verified, handle_send, skip, refuse, accept,
}
use slim_m_relay.Api.Send.Verdicts.{charge_call-store}
use slim_m_relay.Api.Router.{
  Endpoint, healthz, register, send, admin_list, admin_revoke, Exchange, serve_endpoint, match,
  serve,
}

-- the calls that a request may lead to, by whether it carries the admin token
abbrev pub MayCall : Bool → Call → Type 0
MayCall true c = Unit
MayCall false (revokes id now) = ⊥
MayCall false lists = ⊥
MayCall false (issues raw label now) = Unit
MayCall false (verifies plain now) = Unit
MayCall false (binds key_id platform token now t) = Unit

module _ (hash_key : Str → Str) (w : Wiring) (admin : Bool) where
  abbrev pub history : Store → List Call → Store
  history = run hash_key w.config.max_registrations (retention_of w.config)

  -- `s'` is `s` after some calls that the request may lead to
  abbrev pub Runs : Store → Store → Type 0
  Runs s s' = (calls : List Call) × (All (MayCall admin) calls × (s' ≡ history s calls))

  pub Runs-same : (s : Store) → Runs s s
  unfolding run
  Runs-same s = ([], (tt, refl))

  pub Runs-one : (c : Call) (s : Store) → MayCall admin c → Runs s (history s (c ∷ []))
  Runs-one c s h = (c ∷ [], ((h, tt), refl))

  pub Runs-then : (s s' s'' : Store) → Runs s s' → Runs s' s'' → Runs s s''
  Runs-then s s' s'' (cs, (h, e)) (ds, (h', e')) = (
    cs ++ ds,
    (
      All-append (MayCall admin) cs ds h h',
      e'
          ∙ ap (λ z. history z ds) e
          ∙ sym (run-append hash_key w.config.max_registrations (retention_of w.config) s cs ds),
    ),
  )

  may_verify : (plain : Str) (now : ℕ) → MayCall admin (verifies plain now)
  may_verify plain now = elim admin as (λ b. MayCall b (verifies plain now)) [
    | true ↦ tt
    | false ↦ tt
  ]

  verify-Runs : (plain : Str) (now : ℕ) (s : Store) → Runs s (verify hash_key plain now s).1
  unfolding run
  verify-Runs plain now s = Runs-one (verifies plain now) s (may_verify plain now)

  pub issue-Runs :
      (raw : Option (List ℕ)) (label : Str) (now : ℕ) (s : Store)
      → Runs s (issue hash_key raw label w.config.max_registrations now s).1
  unfolding run
  issue-Runs raw label now s =
      Runs-one (issues raw label now) s
        (elim admin as (λ b. MayCall b (issues raw label now)) [ true ↦ tt | false ↦ tt ])

  bind_message-Runs :
      (key_id : ℕ) (t : Moment) (platform : Platform) (msg : Message) (s : Server)
      → Runs s.store (bind_message w key_id t platform msg s).0.store
  unfolding run bind_message
  bind_message-Runs key_id t platform msg s =
      Runs-one (binds key_id (platform_text platform) msg.token t.bind_at t.prune_at) s.store
        (elim admin
          as (λ b.
            MayCall b (binds key_id (platform_text platform) msg.token t.bind_at t.prune_at)) [
              | true ↦ tt
              | false ↦ tt
            ])

  charge_and_bind-Runs :
      (key_id : ℕ) (t : Moment) (platform : Platform) (msg : Message) (s : Server)
      → Runs s.store (charge_and_bind w key_id t platform msg s).0.store
  unfolding charge_and_bind
  charge_and_bind-Runs key_id t platform msg s =
      let same : (charge_call key_id t msg.kind s).0.store ≡ s.store =
        charge_call-store key_id t msg.kind s in
      elim (Bool-cases (charge_call key_id t msg.kind s).1) [
        | inl granted ↦ rw granted (
            subst
              (λ z.
                Runs z
                  (bind_message w key_id t platform msg
                    (charge_call key_id t msg.kind s).0).0.store)
              same (bind_message-Runs key_id t platform msg (charge_call key_id t msg.kind s).0))
        | inr refused ↦ rw refused (rw same (Runs-same s.store))
      ]

  with_kind-Runs :
      (key_id : ℕ) (t : Moment) (m : SendMessage) (platform : Platform) (k : Option Kind)
      (s : Server)
      → Runs s.store (with_kind w key_id t m platform k s).0.store
  with_kind-Runs key_id t m platform none s = Runs-same s.store
  with_kind-Runs key_id t m platform (some kind) s = charge_and_bind-Runs key_id t platform _ s

  with_platform-Runs :
      (key_id : ℕ) (t : Moment) (m : SendMessage) (p : Option Platform) (s : Server)
      → Runs s.store (with_platform w key_id t m p s).0.store
  with_platform-Runs key_id t m none s = Runs-same s.store
  with_platform-Runs key_id t m (some platform) s =
      with_kind-Runs key_id t m platform (parse_kind m.kind) s

  look_at-Runs :
      (key_id : ℕ) (t : Moment) (m : SendMessage) (s : Server)
      → Runs s.store (look_at w key_id t m s).0.store
  unfolding look_at
  look_at-Runs key_id t m s = elim (Bool-cases (is_empty m.token)) [
    | inl gone ↦ rw gone (Runs-same s.store)
    | inr here ↦ elim (Bool-cases (ltb max_payload_bytes (length m.payload))) [
      | inl large ↦ rw (here, large) (Runs-same s.store)
      | inr small ↦ rw (here, small) (with_platform-Runs key_id t m (parse_platform m.platform) s)
    ]
  ]

  record_verdict-server :
      (token : Str) (v : Verdict) (b : Batch) → (record_verdict token v b).server ≡ b.server
  unfolding record_verdict
  record_verdict-server token skip b = refl
  record_verdict-server token (refuse status) b = refl
  record_verdict-server token (accept sender msg) b = refl

  take_message-Runs :
      (key_id : ℕ) (t : Moment) (m : SendMessage) (b : Batch)
      → Runs b.server.store (take_message w key_id t m b).server.store
  unfolding take_message
  take_message-Runs key_id t m b =
      let (s, verdict) = look_at w key_id t m b.server in
      rw (record_verdict-server m.token verdict (record b { server = s }))
        (look_at-Runs key_id t m b.server)

  parse_loop-Runs :
      (key_id : ℕ) (clock : ℕ → Moment) (n : ℕ) (ms : List SendMessage) (b : Batch)
      → Runs b.server.store (parse_loop w key_id clock n ms b).server.store
  unfolding parse_loop
  parse_loop-Runs key_id clock n [] b = Runs-same b.server.store
  parse_loop-Runs key_id clock n (m ∷ ms) b =
      let b' = take_message w key_id (clock n) m b in
      Runs-then b.server.store b'.server.store
        (parse_loop w key_id clock (suc n) ms b').server.store
        (take_message-Runs key_id (clock n) m b) (parse_loop-Runs key_id clock (suc n) ms b')

  finish_send-store :
      (key_id cut : ℕ) (b : Batch) → (finish_send key_id cut b).0.store ≡ b.server.store
  unfolding finish_send
  finish_send-store key_id cut b = refl

  send_batch-Runs :
      (t : SendTimes) (key_id : ℕ) (p : Parsed (List SendMessage)) (s : Server)
      → Runs s.store (send_batch w t key_id p s).0.store
  send_batch-Runs t key_id malformed s = Runs-same s.store
  send_batch-Runs t key_id end_of_file s = Runs-same s.store
  send_batch-Runs t key_id (value ms) s =
      elim (Bool-cases (ltb_ℤ w.config.max_messages (pos (length ms)))) [
        | inl many ↦ rw many (Runs-same s.store)
        | inr few ↦
            let b =
              parse_loop w key_id t.clock 0 ms (record { server = s; results = []; items = [] }) in
            rw few (
              rw (finish_send-store key_id t.cut b) (
                parse_loop-Runs key_id t.clock 0 ms
                  (record { server = s; results = []; items = [] })))
      ]

  with_key-Runs :
      (t : SendTimes) (body : Payload (List SendMessage)) (key_id : ℕ) (s : Server)
      → Runs s.store (with_key w t body key_id s).0.store
  unfolding with_key
  with_key-Runs t body key_id s =
      elim (Bool-cases (allow s.send_lim (format_int key_id) t.allow_at).1) [
        | inl granted ↦ rw granted (
            send_batch-Runs t key_id (decode_json 1048576 body)
              (record s { send_lim = (allow s.send_lim (format_int key_id) t.allow_at).0 }))
        | inr limited ↦ rw limited (Runs-same s.store)
      ]

  verified-Runs :
      (t : SendTimes) (body : Payload (List SendMessage)) (r : Result Key) (s : Server)
      → Runs s.store (verified w t body r s).0.store
  verified-Runs t body (ok k) s = with_key-Runs t body k.id s
  verified-Runs t body (err not_found) s = Runs-same s.store
  verified-Runs t body (err registration_ceiling) s = Runs-same s.store
  verified-Runs t body (err sql_error) s = Runs-same s.store
  verified-Runs t body (err rand_error) s = Runs-same s.store

  pub handle_send-Runs :
      (t : SendTimes) (header : Str) (body : Payload (List SendMessage)) (s : Server)
      → Runs s.store (handle_send hash_key w t header body s).0.store
  unfolding handle_send
  handle_send-Runs t header body s = elim (Bool-cases (is_empty (bearer_token header))) [
    | inl missing ↦ rw missing (Runs-same s.store)
    | inr given ↦
        let v = verify hash_key (bearer_token header) t.verify_at s.store in
        rw given (
          Runs-then s.store v.1 (verified w t body v.0 (record s { store = v.1 })).0.store
            (verify-Runs (bearer_token header) t.verify_at s.store)
            (verified-Runs t body v.0 (record s { store = v.1 })))
  ]
