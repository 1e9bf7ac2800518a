-- ===== src/Api/Runs/Serving.antt =====
-- What a request to internal/api, and a sequence of requests, do to the key store.
use slim_m_relay.Prelude.{
  ℕ, ◌<◌, ◌≤◌, ◌≡◌, refl, sym, ap, Bool, true, false, Option, none, some, some-injective, List, [],
  ◌∷◌, length, Bool-cases, inl, inr, subst,
}
use slim_m_relay.Prelude.Int.{ℤ, pos}
use slim_m_relay.Text.{Str}
use slim_m_relay.RateLimit.{allow}
use slim_m_relay.Keys.Run.{revokes, lists, run}
use slim_m_relay.Keys.Ceiling.{keys-le-ceiling}
use slim_m_relay.Config.{atoi}
use slim_m_relay.Api.Http.{decode_json, Response}
use slim_m_relay.Api.Address.{client_ip}
use slim_m_relay.Api.Server.{Wiring, Server}
use slim_m_relay.Api.Register.{RegisterTimes, RegisterRequest, label_of, issue_for, handle_register}
use slim_m_relay.Api.Admin.{
  is_admin, require_admin, handle_admin_list_keys, handle_admin_revoke_key, revoke_parsed,
}
use slim_m_relay.Api.Send.{retention_of}
use slim_m_relay.Api.Router.{
  Endpoint, healthz, register, send, admin_list, admin_revoke, Exchange, serve_endpoint, match,
  serve, Request, served, serve_all,
}
use slim_m_relay.Api.Runs.{Runs, Runs-same, Runs-one, issue-Runs, handle_send-Runs}

module _ (hash_key : Str → Str) (w : Wiring) where
  issue_for-Runs :
      (admin : Bool) (t : RegisterTimes) (label : Option Str) (s : Server)
      → Runs hash_key w admin s.store (issue_for hash_key w t label s).0.store
  issue_for-Runs admin t none s = Runs-same hash_key w admin s.store
  issue_for-Runs admin t (some label) s = issue-Runs hash_key w admin t.raw label t.issue_at s.store

  handle_register-Runs :
      (admin : Bool) (t : RegisterTimes) (request : RegisterRequest) (s : Server)
      → Runs hash_key w admin s.store (handle_register hash_key w t request s).0.store
  unfolding handle_register
  handle_register-Runs admin t request s =
      let a =
        allow s.register_lim (client_ip w.config request.remote request.forwarded_for) t.allow_at in
      elim (Bool-cases a.1) [
        | inl granted ↦ rw granted (
            issue_for-Runs admin t (label_of (decode_json 4096 request.public_url))
              (record s { register_lim = a.0 }))
        | inr refused ↦ rw refused (Runs-same hash_key w admin s.store)
      ]

  list-Runs : (s : Server) → Runs hash_key w true s.store (handle_admin_list_keys s).0.store
  unfolding handle_admin_list_keys run
  list-Runs s = Runs-one hash_key w true lists s.store tt

  revoke-Runs :
      (id : Option ℤ) (now : ℕ) (s : Server)
      → Runs hash_key w true s.store (revoke_parsed id now s).0.store
  unfolding run
  revoke-Runs none now s = Runs-same hash_key w true s.store
  revoke-Runs (some id) now s = Runs-one hash_key w true (revokes id now) s.store tt

  require_admin-Runs :
      (header : Str) (next : Server → Server × Response) (s : Server)
      → Runs hash_key w true s.store (next s).0.store
      → Runs hash_key w
          (is_admin w.config.admin_token header)
          s.store
          (require_admin w.config.admin_token header next s).0.store
  unfolding require_admin
  require_admin-Runs header next s h = elim (Bool-cases (is_admin w.config.admin_token header)) [
    | inl admin ↦ rw admin h
    | inr other ↦ rw other (Runs-same hash_key w false s.store)
  ]

  serve_endpoint-Runs :
      (x : Exchange) (endpoint : Endpoint) (s : Server)
      → Runs hash_key w
          (is_admin w.config.admin_token x.authorization)
          s.store
          (serve_endpoint hash_key w x endpoint s).0.store
  unfolding handle_admin_revoke_key
  serve_endpoint-Runs x healthz s = Runs-same hash_key w _ s.store
  serve_endpoint-Runs x register s = handle_register-Runs _ x.register_times x.registration s
  serve_endpoint-Runs x send s =
      handle_send-Runs hash_key w _ x.send_times x.authorization x.messages s
  serve_endpoint-Runs x admin_list s =
      require_admin-Runs x.authorization handle_admin_list_keys s (list-Runs s)
  serve_endpoint-Runs x (admin_revoke id) s =
      require_admin-Runs x.authorization (handle_admin_revoke_key id x.revoke_at) s
        (revoke-Runs (atoi id) x.revoke_at s)

-- Whatever a request is, what it does to the store is a history of the calls of the key store, under
-- the configured ceiling and retention; and none of them lists or revokes keys, unless the request
-- carries the admin token.
pub serve-Runs :
    (hash_key : Str → Str) (w : Wiring) (method : Str) (path : List Str) (x : Exchange)
    (s s' : Server) (reply : Response)
    → serve hash_key w method path x s ≡ some (s', reply)
    → Runs hash_key w (is_admin w.config.admin_token x.authorization) s.store s'.store
unfolding serve
serve-Runs hash_key w method path x s s' reply e = go (match w.config.admin_token method path) refl
  where
    go :
        (o : Option Endpoint)
        → match w.config.admin_token method path ≡ o
        → Runs hash_key w (is_admin w.config.admin_token x.authorization) s.store s'.store
    go none q = absurd (let z = rw (serve, q) at e in cc)
    go (some endpoint) q =
        let z = rw (serve, q) at e in
        let same : (serve_endpoint hash_key w x endpoint s).0.store ≡ s'.store =
          ap (λ (r : Server × Response). r.0.store) (some-injective _ _ z) in
        subst (λ t. Runs hash_key w (is_admin w.config.admin_token x.authorization) s.store t) same
          (serve_endpoint-Runs hash_key w x endpoint s)

-- A history of requests never takes the key table from within a positive ceiling past it, whatever the requests are
-- and whichever statements the database refuses.
pub serve_all-le-ceiling :
    (hash_key : Str → Str) (w : Wiring) (n : ℕ) (s : Server) (requests : List Request)
    → w.config.max_registrations ≡ pos n
    → 0 < n
    → length s.store.db.keys ≤ n
    → length (serve_all hash_key w s requests).store.db.keys ≤ n
unfolding serve_all
serve_all-le-ceiling hash_key w n s [] m p h = h
serve_all-le-ceiling hash_key w n s (r ∷ requests) m p h =
    serve_all-le-ceiling hash_key w n (served s (serve hash_key w r.method r.path r.exchange s))
      requests m p (go (serve hash_key w r.method r.path r.exchange s) refl)
  where
    go :
        (o : Option (Server × Response))
        → serve hash_key w r.method r.path r.exchange s ≡ o
        → length (served s o).store.db.keys ≤ n
    go none q = h
    go (some (s', reply)) q =
        let (calls, (_, after)) = serve-Runs hash_key w r.method r.path r.exchange s s' reply q in
        rw after (
          subst (λ z. length (run hash_key z (retention_of w.config) s.store calls).db.keys ≤ n)
            (sym m) (keys-le-ceiling hash_key n (retention_of w.config) s.store calls p h))
