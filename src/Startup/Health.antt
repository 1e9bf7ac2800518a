-- ===== src/Startup/Health.antt =====
-- The health check of cmd/relay/main.go, and the address that the relay listens on.
use slim_m_relay.Prelude.{
  ℕ, suc, ◌<◌, ◌^◌, ◌≡◌, refl, ◌∙◌, Option, none, some, [], ◌∷◌, ◌++◌, ◌⊎◌, inl, inr, ◌==◌,
  if◌then◌else◌, subst,
}
use slim_m_relay.Prelude.Int.{ℤ, pos, negsuc}
use slim_m_relay.Text.{Str, codes, format_int}
use slim_m_relay.Config.{Config, Environment, load, getenv, getint, atoi}
use slim_m_relay.Config.Numbers.{atoi-format_int, format_int-cons}

-- `%d`
abbrev pub format_ℤ : ℤ → Str
format_ℤ (pos n) = format_int n
format_ℤ (negsuc n) = b'-' ∷ format_int (suc n)

-- `fmt.Sprintf(":%d", cfg.Port)`
abbrev pub listen_address : Config → Str
listen_address cfg = b':' ∷ format_ℤ cfg.port

unfoldable pub health_url : Environment → Str
unfolding getenv
health_url env =
    codes "http://127.0.0.1:" ++ getenv env (codes "RELAY_PORT") (codes "8090") ++ codes "/healthz"

-- the exit code of `healthcheck`; `get` gives a status, or `none` for an error
unfoldable pub healthcheck : (Str → Option ℕ) → Environment → ℕ
unfolding health_url
healthcheck get env = elim (get (health_url env)) [
  | none ↦ 1
  | some status ↦ if status == 200 then 0 else 1
]

-- The health check asks the address that the relay listens on, if RELAY_PORT is not set or is the
-- plain text of a number below 2 ^ 63.
pub health_url-eq :
    (env : Environment)
    → (env (codes "RELAY_PORT") ≡ [])
      ⊎ ((n : ℕ) × (n < 2 ^ 63) × (env (codes "RELAY_PORT") ≡ format_int n))
    → health_url env ≡ codes "http://127.0.0.1" ++ listen_address (load env) ++ codes "/healthz"
unfolding health_url getenv load getint format_int
health_url-eq env (inl unset) = rw unset refl
health_url-eq env (inr (n, small, e)) =
    let (c, (s, text)) = format_int-cons n in
    let given : env (codes "RELAY_PORT") ≡ c ∷ s = e ∙ text in
    let port : atoi (c ∷ s) ≡ some (pos n) =
      subst (λ (z : Str). atoi z ≡ some (pos n)) text (atoi-format_int n small) in
    rw (given, port, text) refl
