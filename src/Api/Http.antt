-- ===== src/Api/Http.antt =====
-- Requests and responses as internal/api sees them, and the helpers of internal/api/helpers.go.
use slim_m_relay.Prelude.{
  ℕ, suc, ◌≡◌, refl, ◌&&◌, List, [], ◌∷◌, length, take, drop, ltb, if◌then◌else◌,
}
use slim_m_relay.Text.{Str, codes, equal_fold, trim_space}
use slim_m_relay.Push.{Outcome, Status}
use slim_m_relay.Keys.Store.{Key}

-- What `json.Decoder` makes of a body: a value of the wanted form, an error, or nothing at all.
pub data Parsed (A : Type 0) : Type 0 where
  value : A → Parsed A
  malformed : Parsed A
  end_of_file : Parsed A

-- `size` is the number of bytes up to the end of the first JSON value, or to the error.
pub record Payload (A : Type 0) : Type 0 where
  pub size : ℕ
  pub parsed : Parsed A

-- `decodeJSON`: a value that ends behind the limit is an error
unfoldable pub decode_json : {A : Type 0} → ℕ → Payload A → Parsed A
decode_json max body = if ltb max body.size then malformed else body.parsed

pub data Body : Type 0 where
  error_body : Str → Body
  results_body : List Outcome → Body
  key_body : Str → Body
  keys_body : List Key → Body
  status_body : Str → Body
  no_body : Body

pub record Response : Type 0 where
  pub status : ℕ
  pub body : Body

-- `writeErr`
abbrev pub write_err : ℕ → Str → Response
write_err status msg = record { status = status; body = error_body msg }

abbrev pub bearer_prefix : Str
bearer_prefix = codes "Bearer "

-- `bearerToken` of the Authorization header
unfoldable pub bearer_token : Str → Str
unfolding equal_fold trim_space
bearer_token h =
    let n = length bearer_prefix in
    if ltb n (length h) && equal_fold (take n h) bearer_prefix then trim_space (drop n h) else []

bearer_token_samples :
    (bearer_token (codes "bearer  k1 ") ≡ codes "k1")
    × (bearer_token (codes "Bearer ") ≡ [])
    × (bearer_token (codes "Basic abc") ≡ [])
unfolding bearer_token
bearer_token_samples = (refl, refl, refl)

-- `tally`
pub record Tally : Type 0 where
  pub delivered : ℕ
  pub unregistered : ℕ
  pub forbidden : ℕ
  pub not_attempted : ℕ
  pub failed : ℕ

abbrev pub count_status : Tally → Status → Tally
count_status t Status.delivered = record t { delivered = suc t.delivered }
count_status t Status.unregistered = record t { unregistered = suc t.unregistered }
count_status t Status.forbidden = record t { forbidden = suc t.forbidden }
count_status t Status.not_attempted = record t { not_attempted = suc t.not_attempted }
count_status t _ = record t { failed = suc t.failed }

unfoldable pub tally_from : Tally → List Outcome → Tally
tally_from t [] = t
tally_from t (r ∷ rs) = tally_from (count_status t r.status) rs

unfoldable pub tally : List Outcome → Tally
unfolding tally_from
tally =
    tally_from
      (record { delivered = 0; unregistered = 0; forbidden = 0; not_attempted = 0; failed = 0 })
