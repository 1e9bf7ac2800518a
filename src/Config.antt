-- ===== src/Config.antt =====
-- internal/config/config.go: the settings and their reading from the environment.
pub mod Numbers
mod Tests
use slim_m_relay.Prelude.{
  ℕ, zero, suc, ◌+◌, ◌-◌, ◌*◌, ◌^◌, Bool, true, false, ◌&&◌, ◌||◌, Option, none, some, List, [],
  ◌∷◌, leb, ltb, ◌==◌, if◌then◌else◌,
}
use slim_m_relay.Prelude.Int.{ℤ, pos, negsuc}
use slim_m_relay.Text.{Str, codes, str_eq}

pub record Config : Type 0 where
  pub port : ℤ
  pub db_path : Str
  pub admin_token : Str
  pub fcm_credentials_file : Str
  pub apns_key_path : Str
  pub apns_key_id : Str
  pub apns_team_id : Str
  pub apns_bundle_id : Str
  pub apns_production : Bool
  pub trust_proxy : Bool
  pub register_per_hour : ℤ
  pub register_burst : ℤ
  pub max_registrations : ℤ
  pub send_per_minute : ℤ
  pub send_burst : ℤ
  pub call_send_per_minute : ℤ
  pub call_send_burst : ℤ
  pub max_messages : ℤ
  pub send_concurrency : ℤ
  pub send_timeout_seconds : ℤ
  pub token_retention_days : ℤ

-- the digits of `strconv.Atoi`, which has no separators in base 10
unfoldable pub digits : ℕ → Str → Option ℕ
digits n [] = some n
digits n (c ∷ s) = if leb b'0' c && leb c b'9' then digits (n * 10 + (c - b'0')) s else none

unfoldable pub unsigned : Str → Option ℕ
unfolding digits
unsigned [] = none
unsigned (c ∷ s) = digits 0 (c ∷ s)

-- a magnitude with its sign, within 64 bits
abbrev pub signed : Bool → Option ℕ → Option ℤ
signed negative none = none
signed true (some zero) = some (pos 0)
signed true (some (suc n)) = if ltb n (2 ^ 63) then some (negsuc n) else none
signed false (some n) = if ltb n (2 ^ 63) then some (pos n) else none

-- `strconv.Atoi`; `none` is its error
unfoldable pub atoi : Str → Option ℤ
unfolding unsigned
atoi [] = none
atoi (c ∷ s) =
    if c == b'-'
    then signed true (unsigned s)
    else if c == b'+'
    then signed false (unsigned s)
    else signed false (unsigned (c ∷ s))

abbrev pub one_of : Str → List Str → Bool
one_of s [] = false
one_of s (t ∷ ts) = str_eq s t || one_of s ts

-- `strconv.ParseBool`
unfoldable pub parse_bool : Str → Option Bool
unfolding str_eq
parse_bool s =
    if one_of s
      (codes "1" ∷ codes "t" ∷ codes "T" ∷ codes "TRUE" ∷ codes "true" ∷ codes "True" ∷ [])
    then some true
    else if one_of s
        (codes "0" ∷ codes "f" ∷ codes "F" ∷ codes "FALSE" ∷ codes "false" ∷ codes "False" ∷ [])
    then some false
    else none

-- `os.Getenv` gives the empty text for what is not set
abbrev pub Environment : Type 0
Environment = Str → Str

abbrev pub or_default {ℓ} : {A : Type ℓ} → A → Option A → A
or_default def none = def
or_default def (some a) = a

abbrev pub parsed {ℓ} : {A : Type ℓ} → (Str → Option A) → A → Str → A
parsed parse def [] = def
parsed parse def (c ∷ s) = or_default def (parse (c ∷ s))

unfoldable pub getenv : Environment → Str → Str → Str
getenv env key def = parsed some def (env key)

unfoldable pub getint : Environment → Str → ℤ → ℤ
unfolding atoi
getint env key def = parsed atoi def (env key)

unfoldable pub getbool : Environment → Str → Bool → Bool
unfolding parse_bool
getbool env key def = parsed parse_bool def (env key)

unfoldable pub load : Environment → Config
unfolding getenv getint getbool
load env = record {
  port = getint env (codes "RELAY_PORT") (pos 8090);
  db_path = getenv env (codes "RELAY_DB_PATH") (codes "/data/relay.db");
  admin_token = getenv env (codes "RELAY_ADMIN_TOKEN") [];
  fcm_credentials_file = getenv env (codes "RELAY_FCM_CREDENTIALS_FILE") [];
  apns_key_path = getenv env (codes "RELAY_APNS_KEY_PATH") [];
  apns_key_id = getenv env (codes "RELAY_APNS_KEY_ID") [];
  apns_team_id = getenv env (codes "RELAY_APNS_TEAM_ID") [];
  apns_bundle_id = getenv env (codes "RELAY_APNS_BUNDLE_ID") [];
  apns_production = getbool env (codes "RELAY_APNS_PRODUCTION") true;
  trust_proxy = getbool env (codes "RELAY_TRUST_PROXY") false;
  register_per_hour = getint env (codes "RELAY_REGISTER_PER_HOUR") (pos 5);
  register_burst = getint env (codes "RELAY_REGISTER_BURST") (pos 3);
  max_registrations = getint env (codes "RELAY_MAX_REGISTRATIONS") (pos 10000);
  send_per_minute = getint env (codes "RELAY_SEND_PER_MINUTE") (pos 120);
  send_burst = getint env (codes "RELAY_SEND_BURST") (pos 60);
  call_send_per_minute = getint env (codes "RELAY_CALL_SEND_PER_MINUTE") (pos 10);
  call_send_burst = getint env (codes "RELAY_CALL_SEND_BURST") (pos 5);
  max_messages = getint env (codes "RELAY_MAX_MESSAGES") (pos 500);
  send_concurrency = getint env (codes "RELAY_SEND_CONCURRENCY") (pos 8);
  send_timeout_seconds = getint env (codes "RELAY_SEND_TIMEOUT_SECONDS") (pos 20);
  token_retention_days = getint env (codes "RELAY_TOKEN_RETENTION_DAYS") (pos 90);
}
