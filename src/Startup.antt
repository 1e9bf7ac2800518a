-- ===== src/Startup.antt =====
-- cmd/relay/main.go: how the process builds its senders, where it listens, and its health check. What
-- the two provider packages make of credentials, and the file system, are parameters.
pub mod Health
pub mod Boot
mod Tests
use slim_m_relay.Prelude.{
  ℕ, suc, ◌≡◌, ◌≢◌, ◌⊎◌, refl, Bool, true, false, ◌||◌, Option, none, some, List, [], ◌∷◌, ◌++◌,
  ◌==◌, if◌then◌else◌, Option-cases, Bool-cases, inl, inr, some-injective, subst, sym,
}
use slim_m_relay.Prelude.Int.{ℤ, pos, negsuc}
use slim_m_relay.Text.{Str, codes, format_int}
use slim_m_relay.Push.{Sender, IsSender, unconfigured, unconfigured-IsSender}
use slim_m_relay.Apns.{Client, apns_sender, apns_sender-IsSender}
use slim_m_relay.Fcm.{Json, Race, Network, fcm_sender}
use slim_m_relay.Fcm.Errors.{fcm_sender-IsSender}
use slim_m_relay.Config.{Config, Environment, load, getenv}

abbrev pub is_empty : Str → Bool
is_empty [] = true
is_empty (c ∷ s) = false

-- What google.CredentialsFromJSON gives: the races of its token source, and the project.
pub record Credentials : Type 0 where
  pub race : ℕ → Race
  pub project_id : Str

-- os.ReadFile, and the parts of the oauth2, apns2 and net/http packages that the senders stand on
pub record Host : Type 0 where
  pub read_file : Str → Option Str
  pub credentials : Str → Option Credentials
  pub json : Json
  pub network : Network
  pub auth_key : Str → Option Str
  pub client : Bool → Str → Str → Str → Client

abbrev pub fcm_endpoint : Str
fcm_endpoint = codes "https://fcm.googleapis.com"

-- `fcm.New`
abbrev pub fcm_from : Host → Option Credentials → Option Sender
fcm_from host none = none
fcm_from host (some c) =
    if is_empty c.project_id
    then none
    else some (fcm_sender host.json c.race host.network fcm_endpoint c.project_id)

abbrev pub fcm_from_file : Host → Option Str → Option Sender
fcm_from_file host none = none
fcm_from_file host (some text) = fcm_from host (host.credentials text)

-- `buildFCM`; `none` is log.Fatalf
unfoldable pub build_fcm : Host → Config → Option Sender
unfolding unconfigured fcm_sender
build_fcm host cfg =
    if is_empty cfg.fcm_credentials_file
    then some unconfigured
    else fcm_from_file host (host.read_file cfg.fcm_credentials_file)

-- `apns.New`
abbrev pub apns_from : Host → Config → Option Str → Option Sender
apns_from host cfg none = none
apns_from host cfg (some key) = some (
    apns_sender (host.client cfg.apns_production key cfg.apns_key_id cfg.apns_team_id)
      cfg.apns_bundle_id)

-- `buildAPNs`
unfoldable pub build_apns : Host → Config → Option Sender
unfolding unconfigured apns_sender
build_apns host cfg =
    if is_empty cfg.apns_key_path
      || (is_empty cfg.apns_key_id || (is_empty cfg.apns_team_id || is_empty cfg.apns_bundle_id))
    then some unconfigured
    else apns_from host cfg (host.auth_key cfg.apns_key_path)

-- The Android sender that the settings ask for: the stub without a credentials file; with one, a sender
-- for the project that its credentials name, at Google's endpoint.
abbrev pub IsAndroidSender : Host → Config → Sender → Type 0
IsAndroidSender host cfg s =
    ((cfg.fcm_credentials_file ≡ []) × (s ≡ unconfigured))
    ⊎ ((cfg.fcm_credentials_file ≢ [])
        × ((text : Str) × (c : Credentials) × (host.read_file cfg.fcm_credentials_file ≡ some text)
            × (host.credentials text ≡ some c)
            × (c.project_id ≢ [])
            × (s
                ≡ fcm_sender host.json c.race host.network (codes "https://fcm.googleapis.com")
                    c.project_id)))

-- The iOS sender that they ask for: the stub where one of the four is missing, else a sender for the
-- bundle, on a client with the key that was read.
abbrev pub IsIosSender : Host → Config → Sender → Type 0
IsIosSender host cfg s =
    (((cfg.apns_key_path ≡ [])
        ⊎ ((cfg.apns_key_id ≡ []) ⊎ ((cfg.apns_team_id ≡ []) ⊎ (cfg.apns_bundle_id ≡ []))))
      × (s ≡ unconfigured))
    ⊎ ((cfg.apns_key_path ≢ [])
        × (cfg.apns_key_id ≢ [])
        × (cfg.apns_team_id ≢ [])
        × (cfg.apns_bundle_id ≢ [])
        × ((key : Str) × (host.auth_key cfg.apns_key_path ≡ some key)
            × (s
                ≡ apns_sender (host.client cfg.apns_production key cfg.apns_key_id cfg.apns_team_id)
                    cfg.apns_bundle_id)))

nil_cases : (s : Str) → ((is_empty s ≡ true) × (s ≡ [])) ⊎ ((is_empty s ≡ false) × (s ≢ []))
nil_cases [] = inl (refl, refl)
nil_cases (c ∷ s) = inr (refl, λ e. cc)

fcm_from-found :
    (host : Host) (o : Option Credentials) (s : Sender)
    → fcm_from host o ≡ some s
    → (c : Credentials) × (o ≡ some c)
      × (c.project_id ≢ [])
      × (s ≡ fcm_sender host.json c.race host.network fcm_endpoint c.project_id)
fcm_from-found host none s e = absurd (cc)
fcm_from-found host (some c) s e = elim (nil_cases c.project_id) [
  | inl (missing, _) ↦ absurd (let q = rw missing at e in cc)
  | inr (given, named) ↦ (c, refl, named, sym (some-injective _ _ (rw given at e)))
]

fcm_from_file-found :
    (host : Host) (o : Option Str) (s : Sender)
    → fcm_from_file host o ≡ some s
    → (text : Str) × (c : Credentials) × (o ≡ some text)
      × (host.credentials text ≡ some c)
      × (c.project_id ≢ [])
      × (s ≡ fcm_sender host.json c.race host.network fcm_endpoint c.project_id)
fcm_from_file-found host none s e = absurd (cc)
fcm_from_file-found host (some text) s e =
    let (c, found, named, made) = fcm_from-found host (host.credentials text) s e in
    (text, c, refl, found, named, made)

pub build_fcm-IsAndroidSender :
    (host : Host) (cfg : Config) (s : Sender)
    → build_fcm host cfg ≡ some s
    → IsAndroidSender host cfg s
unfolding build_fcm
build_fcm-IsAndroidSender host cfg s e = elim (nil_cases cfg.fcm_credentials_file) [
  | inl (unset, nil) ↦ inl (nil, sym (some-injective _ _ (rw unset at e)))
  | inr (set, given) ↦
      inr
        (given, fcm_from_file-found host (host.read_file cfg.fcm_credentials_file) s (rw set at e))
]

apns_from-found :
    (host : Host) (cfg : Config) (o : Option Str) (s : Sender)
    → apns_from host cfg o ≡ some s
    → (key : Str) × (o ≡ some key)
      × (s
          ≡ apns_sender
              (host.client cfg.apns_production key cfg.apns_key_id cfg.apns_team_id)
              cfg.apns_bundle_id)
apns_from-found host cfg none s e = absurd (cc)
apns_from-found host cfg (some key) s e = (key, refl, sym (some-injective _ _ e))

pub build_apns-IsIosSender :
    (host : Host) (cfg : Config) (s : Sender)
    → build_apns host cfg ≡ some s
    → IsIosSender host cfg s
unfolding build_apns
build_apns-IsIosSender host cfg s e = elim (nil_cases cfg.apns_key_path) [
  | inl (a, q) ↦ inl (inl q, sym (some-injective _ _ (rw a at e)))
  | inr (a, path) ↦ elim (nil_cases cfg.apns_key_id) [
    | inl (b, q) ↦ inl (inr (inl q), sym (some-injective _ _ (rw (a, b) at e)))
    | inr (b, id) ↦ elim (nil_cases cfg.apns_team_id) [
      | inl (c, q) ↦ inl (inr (inr (inl q)), sym (some-injective _ _ (rw (a, b, c) at e)))
      | inr (c, team) ↦ elim (nil_cases cfg.apns_bundle_id) [
        | inl (d, q) ↦ inl (inr (inr (inr q)), sym (some-injective _ _ (rw (a, b, c, d) at e)))
        | inr (d, bundle) ↦ inr (
          path,
          id,
          team,
          bundle,
          apns_from-found host cfg (host.auth_key cfg.apns_key_path) s (rw (a, b, c, d) at e),
        )
      ]
    ]
  ]
]
