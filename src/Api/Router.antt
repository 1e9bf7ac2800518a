-- ===== src/Api/Router.antt =====
-- `Router` of internal/api/server.go, and the health check.
pub mod Access
use slim_m_relay.Prelude.{
  ℕ, Bool, true, false, ◌||◌, Option, none, some, List, [], ◌∷◌, if◌then◌else◌, ◌&&◌,
}
use slim_m_relay.Text.{Str, codes, str_eq}
use slim_m_relay.Api.Http.{Payload, Response, write_err, status_body, bearer_token}
use slim_m_relay.Api.Server.{Wiring, Server}
use slim_m_relay.Api.Register.{RegisterRequest, RegisterTimes, handle_register}
use slim_m_relay.Api.Send.{SendMessage, SendTimes, handle_send}
use slim_m_relay.Api.Admin.{require_admin, handle_admin_list_keys, handle_admin_revoke_key}

-- what a request asks for; the patterns of `Router`
pub data Endpoint : Type 0 where
  healthz register send admin_list : Endpoint
  admin_revoke : Str → Endpoint

-- The pattern that a request meets, by its method and the segments of its path. A GET pattern also
-- takes HEAD. `none` is a request that net/http's mux answers itself, with 404 or 405.
abbrev pub is_get : Str → Bool
is_get method = str_eq method (codes "GET") || str_eq method (codes "HEAD")

abbrev pub is_path : List Str → List Str → Bool
is_path [] [] = true
is_path [] (q ∷ qs) = false
is_path (p ∷ ps) [] = false
is_path (p ∷ ps) (q ∷ qs) = str_eq p q && is_path ps qs

abbrev pub admin_revoke_path : List Str → Option Str
admin_revoke_path (a ∷ k ∷ id ∷ r ∷ []) =
    if is_path (a ∷ k ∷ r ∷ []) (codes "admin" ∷ codes "keys" ∷ codes "revoke" ∷ [])
    then some id
    else none
admin_revoke_path _ = none

abbrev pub admin_post : List Str → Option Endpoint
admin_post path = elim (admin_revoke_path path) [ none ↦ none | some id ↦ some (admin_revoke id) ]

-- the admin patterns, which are there only where a token is configured
abbrev pub admin_match : Str → Str → List Str → Option Endpoint
admin_match [] method path = none
admin_match (c ∷ token) method path =
    if is_get method && is_path path (codes "admin" ∷ codes "keys" ∷ [])
    then some admin_list
    else if str_eq method (codes "POST")
    then admin_post path
    else none

unfoldable pub match : Str → Str → List Str → Option Endpoint
unfolding str_eq
match admin_token method path =
    if is_get method && is_path path (codes "healthz" ∷ [])
    then some healthz
    else if str_eq method (codes "POST") && is_path path (codes "v1" ∷ codes "register" ∷ [])
    then some register
    else if str_eq method (codes "POST") && is_path path (codes "v1" ∷ codes "send" ∷ [])
    then some send
    else admin_match admin_token method path

-- the parts of a request and of its time that some handler reads
pub record Exchange : Type 0 where
  pub authorization : Str
  pub registration : RegisterRequest
  pub register_times : RegisterTimes
  pub messages : Payload (List SendMessage)
  pub send_times : SendTimes
  pub revoke_at : ℕ

-- `handleHealth`
abbrev pub handle_health : Server → Server × Response
handle_health s = (s, record { status = 200; body = status_body (codes "ok") })

module _ (hash_key : Str → Str) (w : Wiring) where
  abbrev pub serve_endpoint : Exchange → Endpoint → Server → Server × Response
  serve_endpoint x healthz s = handle_health s
  serve_endpoint x register s = handle_register hash_key w x.register_times x.registration s
  serve_endpoint x send s = handle_send hash_key w x.send_times x.authorization x.messages s
  serve_endpoint x admin_list s =
      require_admin w.config.admin_token x.authorization handle_admin_list_keys s
  serve_endpoint x (admin_revoke id) s =
      require_admin w.config.admin_token x.authorization (handle_admin_revoke_key id x.revoke_at) s

  -- the handler that `Router` returns, for a request that the mux does not answer itself
  unfoldable pub serve : Str → List Str → Exchange → Server → Option (Server × Response)
  unfolding match handle_register handle_send require_admin handle_admin_list_keys
      handle_admin_revoke_key
  serve method path x s = elim (match w.config.admin_token method path) [
    | none ↦ none
    | some endpoint ↦ some (serve_endpoint x endpoint s)
  ]

-- one request after another; the mux's own replies change nothing
pub record Request : Type 0 where
  pub method : Str
  pub path : List Str
  pub exchange : Exchange

abbrev pub served : Server → Option (Server × Response) → Server
served s none = s
served s (some (s', reply)) = s'

unfoldable pub serve_all : (Str → Str) → Wiring → Server → List Request → Server
unfolding serve
serve_all hash_key w s [] = s
serve_all hash_key w s (r ∷ requests) =
    serve_all hash_key w (served s (serve hash_key w r.method r.path r.exchange s)) requests
