-- ===== src/Api/Router/Access.antt =====
-- Who sees the list of keys of internal/api.
use slim_m_relay.Prelude.{
  ℕ, ◌≡◌, ◌≢◌, refl, ◌∙◌, ap, Bool, true, false, Option, none, some, some-injective, List, [], ◌∷◌,
  length, if◌then◌else◌, Bool-cases, inl, inr, ◌&&◌, ◌==◌,
}
use slim_m_relay.Prelude.Int.{ℤ, pos, ltb_ℤ}
use slim_m_relay.Text.{Str, codes, format_int, str_eq, str_eq_iff}
use slim_m_relay.RateLimit.{allow}
use slim_m_relay.Keys.Sql.{not_found, registration_ceiling, sql_error, rand_error, Result, ok, err}
use slim_m_relay.Keys.Store.{Key, issue, verify, revoke}
use slim_m_relay.Api.Http.{
  Parsed, value, malformed, end_of_file, decode_json, Response, bearer_token, Payload, keys_body,
}
use slim_m_relay.Api.Address.{client_ip}
use slim_m_relay.Api.Server.{Wiring, Server}
use slim_m_relay.Api.Register.{
  RegisterTimes, RegisterRequest, label_of, issue_for, issue_reply, handle_register,
}
use slim_m_relay.Api.Admin.{
  is_admin, require_admin, handle_admin_list_keys, handle_admin_revoke_key, revoke_parsed,
  revoke_reply,
}
use slim_m_relay.Api.Send.{
  Batch, SendMessage, SendTimes, finish_send, send_batch, with_key, verified, handle_send, is_empty,
}
use slim_m_relay.Api.Router.{
  Endpoint, healthz, register, send, admin_list, admin_revoke, Exchange, serve_endpoint, match,
  serve, is_get, is_path,
}

-- a reply without the list of keys
abbrev IsPublic : Response → Type 0
IsPublic reply = (keys : List Key) → reply.body ≢ keys_body keys

-- the endpoints behind `requireAdmin`
abbrev IsGuarded : Endpoint → Type 0
IsGuarded healthz = ⊥
IsGuarded register = ⊥
IsGuarded send = ⊥
IsGuarded admin_list = Unit
IsGuarded (admin_revoke id) = Unit

module _ (hash_key : Str → Str) (w : Wiring) where
  issue_reply-IsPublic : (r : Result Str) → IsPublic (issue_reply r)
  issue_reply-IsPublic (ok key) = λ keys e. cc
  issue_reply-IsPublic (err not_found) = λ keys e. cc
  issue_reply-IsPublic (err registration_ceiling) = λ keys e. cc
  issue_reply-IsPublic (err sql_error) = λ keys e. cc
  issue_reply-IsPublic (err rand_error) = λ keys e. cc

  issue_for-IsPublic :
      (t : RegisterTimes) (o : Option Str) (s : Server) → IsPublic (issue_for hash_key w t o s).1
  issue_for-IsPublic t none s = λ keys e. cc
  issue_for-IsPublic t (some label) s =
      issue_reply-IsPublic
        (issue hash_key t.raw label w.config.max_registrations t.issue_at s.store).0

  handle_register-IsPublic :
      (t : RegisterTimes) (request : RegisterRequest) (s : Server)
      → IsPublic (handle_register hash_key w t request s).1
  unfolding handle_register
  handle_register-IsPublic t request s =
      let a =
        allow s.register_lim (client_ip w.config request.remote request.forwarded_for) t.allow_at in
      elim (Bool-cases a.1) [
        | inl granted ↦ rw granted (
            issue_for-IsPublic t (label_of (decode_json 4096 request.public_url))
              (record s { register_lim = a.0 }))
        | inr refused ↦ rw refused (λ keys e. cc)
      ]

  finish_send-IsPublic : (key_id cut : ℕ) (b : Batch) → IsPublic (finish_send key_id cut b).1
  unfolding finish_send
  finish_send-IsPublic key_id cut b = λ keys e. cc

  send_batch-IsPublic :
      (t : SendTimes) (key_id : ℕ) (p : Parsed (List SendMessage)) (s : Server)
      → IsPublic (send_batch w t key_id p s).1
  send_batch-IsPublic t key_id malformed s = λ keys e. cc
  send_batch-IsPublic t key_id end_of_file s = λ keys e. cc
  send_batch-IsPublic t key_id (value ms) s =
      elim (Bool-cases (ltb_ℤ w.config.max_messages (pos (length ms)))) [
        | inl many ↦ rw many (λ keys e. cc)
        | inr few ↦ rw few (finish_send-IsPublic key_id t.cut _)
      ]

  with_key-IsPublic :
      (t : SendTimes) (body : Payload (List SendMessage)) (key_id : ℕ) (s : Server)
      → IsPublic (with_key w t body key_id s).1
  unfolding with_key
  with_key-IsPublic t body key_id s =
      let a = allow s.send_lim (format_int key_id) t.allow_at in
      elim (Bool-cases a.1) [
        | inl granted ↦
            rw granted (
              send_batch-IsPublic t key_id (decode_json 1048576 body) (record s { send_lim = a.0 }))
        | inr limited ↦ rw limited (λ keys e. cc)
      ]

  verified-IsPublic :
      (t : SendTimes) (body : Payload (List SendMessage)) (r : Result Key) (s : Server)
      → IsPublic (verified w t body r s).1
  verified-IsPublic t body (ok k) s = with_key-IsPublic t body k.id s
  verified-IsPublic t body (err not_found) s = λ keys e. cc
  verified-IsPublic t body (err registration_ceiling) s = λ keys e. cc
  verified-IsPublic t body (err sql_error) s = λ keys e. cc
  verified-IsPublic t body (err rand_error) s = λ keys e. cc

  handle_send-IsPublic :
      (t : SendTimes) (header : Str) (body : Payload (List SendMessage)) (s : Server)
      → IsPublic (handle_send hash_key w t header body s).1
  unfolding handle_send
  handle_send-IsPublic t header body s = elim (Bool-cases (is_empty (bearer_token header))) [
    | inl missing ↦ rw missing (λ keys e. cc)
    | inr given ↦
        let v = verify hash_key (bearer_token header) t.verify_at s.store in
        rw given (verified-IsPublic t body v.0 (record s { store = v.1 }))
  ]

  revoke_reply-IsPublic : (r : Result (Unit {0})) → IsPublic (revoke_reply r)
  revoke_reply-IsPublic (ok u) = λ keys e. cc
  revoke_reply-IsPublic (err not_found) = λ keys e. cc
  revoke_reply-IsPublic (err registration_ceiling) = λ keys e. cc
  revoke_reply-IsPublic (err sql_error) = λ keys e. cc
  revoke_reply-IsPublic (err rand_error) = λ keys e. cc

  revoke_parsed-IsPublic :
      (id : Option ℤ) (now : ℕ) (s : Server) → IsPublic (revoke_parsed id now s).1
  revoke_parsed-IsPublic none now s = λ keys e. cc
  revoke_parsed-IsPublic (some id) now s = revoke_reply-IsPublic (revoke id now s.store).0

  require_admin-sees :
      (header : Str) (next : Server → Server × Response) (s : Server) (keys : List Key)
      → (require_admin w.config.admin_token header next s).1.body ≡ keys_body keys
      → is_admin w.config.admin_token header ≡ true
  unfolding require_admin
  require_admin-sees header next s keys e =
      elim (Bool-cases (is_admin w.config.admin_token header)) [
        | inl admin ↦ admin
        | inr other ↦ absurd (let q = rw other at e in cc)
      ]

  serve_endpoint-sees :
      (x : Exchange) (endpoint : Endpoint) (s : Server) (keys : List Key)
      → (serve_endpoint hash_key w x endpoint s).1.body ≡ keys_body keys
      → (is_admin w.config.admin_token x.authorization ≡ true) × IsGuarded endpoint
  serve_endpoint-sees x healthz s keys e = absurd (cc)
  serve_endpoint-sees x register s keys e =
      absurd (handle_register-IsPublic x.register_times x.registration s keys e)
  serve_endpoint-sees x send s keys e =
      absurd (handle_send-IsPublic x.send_times x.authorization x.messages s keys e)
  serve_endpoint-sees x admin_list s keys e =
      (require_admin-sees x.authorization handle_admin_list_keys s keys e, tt)
  serve_endpoint-sees x (admin_revoke id) s keys e =
      (require_admin-sees x.authorization (handle_admin_revoke_key id x.revoke_at) s keys e, tt)

unguarded :
    (a b c : Bool) (endpoint : Endpoint)
    → (if a then some healthz else if b then some register else if c then some send else none)
      ≡ some endpoint
    → IsGuarded endpoint
    → ⊥
unguarded true b c endpoint e guarded = rw (← some-injective _ _ e) at guarded
unguarded false true c endpoint e guarded = rw (← some-injective _ _ e) at guarded
unguarded false false true endpoint e guarded = rw (← some-injective _ _ e) at guarded
unguarded false false false endpoint e guarded = cc

-- without an admin token no request meets an admin pattern
match-IsGuarded :
    (token method : Str) (path : List Str) (endpoint : Endpoint)
    → match token method path ≡ some endpoint
    → IsGuarded endpoint
    → token ≢ []
unfolding match
match-IsGuarded (c ∷ token) method path endpoint e guarded q = cc
match-IsGuarded [] method path endpoint e guarded q =
    unguarded (is_get method && is_path path (codes "healthz" ∷ []))
      (str_eq method (codes "POST") && is_path path (codes "v1" ∷ codes "register" ∷ []))
      (str_eq method (codes "POST") && is_path path (codes "v1" ∷ codes "send" ∷ [])) endpoint e
      guarded

both_true : (a b : Bool) → (a && b) ≡ true → b ≡ true
both_true true b e = e
both_true false b e = absurd (cc)

pub bearer-admin : (want header : Str) → is_admin want header ≡ true → bearer_token header ≡ want
unfolding is_admin
bearer-admin want header e =
    (str_eq_iff (bearer_token header) want).0 (
      both_true (length (bearer_token header) == length want) (str_eq (bearer_token header) want) e)

-- The list of keys is in the reply only to a request whose bearer token is the configured admin token,
-- and only where one is configured.
pub serve-keys_body :
    (hash_key : Str → Str) (w : Wiring) (method : Str) (path : List Str) (x : Exchange)
    (s s' : Server) (reply : Response) (keys : List Key)
    → serve hash_key w method path x s ≡ some (s', reply)
    → reply.body ≡ keys_body keys
    → (bearer_token x.authorization ≡ w.config.admin_token) × (w.config.admin_token ≢ [])
unfolding serve
serve-keys_body hash_key w method path x s s' reply keys e listed =
    go (match w.config.admin_token method path) refl
  where
    go :
        (o : Option Endpoint)
        → match w.config.admin_token method path ≡ o
        → (bearer_token x.authorization ≡ w.config.admin_token) × (w.config.admin_token ≢ [])
    go none q = absurd (let z = rw (serve, q) at e in cc)
    go (some endpoint) q =
        let z = rw (serve, q) at e in
        let same : (serve_endpoint hash_key w x endpoint s).1 ≡ reply =
          ap (λ (r : Server × Response). r.1) (some-injective _ _ z) in
        let (admin, guarded) =
          serve_endpoint-sees hash_key w x endpoint s keys
            (ap (λ (r : Response). r.body) same ∙ listed) in
        (
          bearer-admin w.config.admin_token x.authorization admin,
          match-IsGuarded w.config.admin_token method path endpoint q guarded,
        )
