-- ===== src/Api/Register.antt =====
-- internal/api/register.go: registration, and what it does to the store.
pub mod Effects
use slim_m_relay.Prelude.{
  ℕ, ◌≤◌, ◌≡◌, refl, Bool, true, false, Option, none, some, List, [], ◌∷◌, take, length, ltb,
  if◌then◌else◌, Bool-cases, inl, inr,
}
use slim_m_relay.Text.{Str, codes, trim_space}
use slim_m_relay.RateLimit.{allow}
use slim_m_relay.Keys.Sql.{
  Error, not_found, registration_ceiling, sql_error, rand_error, Result, ok, err, Store,
}
use slim_m_relay.Keys.Store.{issue}
use slim_m_relay.Api.Address.{client_ip}
use slim_m_relay.Api.Http.{
  Parsed, value, malformed, end_of_file, Payload, decode_json, Response, write_err, key_body,
}
use slim_m_relay.Api.Server.{Wiring, Server}

abbrev pub max_label_len : ℕ
max_label_len = 256

-- a request; the body is its `publicUrl`, empty if it is left out
pub record RegisterRequest : Type 0 where
  pub remote : Str
  pub forwarded_for : Str
  pub public_url : Payload Str

-- the clock's readings, and what `rand.Read` gives
pub record RegisterTimes : Type 0 where
  pub allow_at : ℕ
  pub issue_at : ℕ
  pub raw : Option (List ℕ)

-- an empty body is fine, any other error is not
abbrev pub label_of : Parsed Str → Option Str
label_of (value url) = some (take max_label_len (trim_space url))
label_of malformed = none
label_of end_of_file = some []

-- the reply to what `Issue` gave
abbrev pub issue_reply : Result Str → Response
issue_reply (ok key) = record { status = 200; body = key_body key }
issue_reply (err registration_ceiling) =
    write_err 403 (codes "relay has reached its maximum number of registrations")
issue_reply (err _) = write_err 500 (codes "could not issue key")

module _ (hash_key : Str → Str) where
  abbrev pub issue_for : Wiring → RegisterTimes → Option Str → Server → Server × Response
  issue_for w t none s = (s, write_err 400 (codes "invalid body"))
  issue_for w t (some label) s =
      let (r, store) = issue hash_key t.raw label w.config.max_registrations t.issue_at s.store in
      (record s { store = store }, issue_reply r)

  unfoldable pub handle_register :
      Wiring → RegisterTimes → RegisterRequest → Server → Server × Response
  unfolding issue allow client_ip decode_json trim_space
  handle_register w t request s =
      let (lim, granted) =
        allow s.register_lim (client_ip w.config request.remote request.forwarded_for) t.allow_at in
      let s' = record s { register_lim = lim } in
      if granted
      then issue_for w t (label_of (decode_json 4096 request.public_url)) s'
      else (s', write_err 429 (codes "too many registrations from this address, try again later"))
