-- ===== src/Push.antt =====
-- internal/push/push.go: the vocabulary that the API and the two provider clients share. A Go string
-- type with constants is a data type with a constructor for each; the zero value of `Status` is
-- `blank`, and that of the other two is the `none` of the parsers in Api/Send.
pub mod Logging
mod Tests
use slim_m_relay.Prelude.{
  ℕ, suc, ◌≡◌, refl, ap, Bool, true, false, Option, none, some, List, [], ◌∷◌, map, if◌then◌else◌,
  ◌≢◌, ◌||◌, All,
}
use slim_m_relay.Text.{Str, str_eq, codes}

pub data Platform : Type 0 where
  ios android : Platform

pub data Kind : Type 0 where
  message mention call wake : Kind

unfoldable pub kind_text : Kind → Str
kind_text message = codes "message"
kind_text mention = codes "mention"
kind_text call = codes "call"
kind_text wake = codes "wake"

unfoldable pub platform_text : Platform → Str
platform_text ios = codes "ios"
platform_text android = codes "android"

pub record Message : Type 0 where
  pub token : Str
  pub kind : Kind
  pub payload : Str

pub data Status : Type 0 where
  blank delivered unregistered forbidden error not_attempted : Status

-- push.Result
pub record Outcome : Type 0 where
  pub token : Str
  pub status : Status

-- `Send` of the interface. The number says which of the calls of a request it is, and with it what the
-- provider and the deadline do at that time.
pub record Sender : Type 0 where
  pub send : ℕ → List Message → List Outcome

abbrev pub outcome_tokens : List Outcome → List Str
outcome_tokens = map (λ r. r.token)

abbrev pub message_tokens : List Message → List Str
message_tokens = map (λ m. m.token)

-- a status that only a provider's answer has
abbrev pub IsAnswer : Outcome → Type 0
IsAnswer r = (r.status ≢ blank) × (r.status ≢ not_attempted)

-- What a `Sender` promises: one result for each message, in order, each with an answer.
pub record IsSender (s : Sender) : Type 0 where
  pub tokens : (n : ℕ) (ms : List Message) → outcome_tokens (s.send n ms) ≡ message_tokens ms
  pub answers : (n : ℕ) (ms : List Message) → All IsAnswer (s.send n ms)

-- The loop of a sender that treats its messages one by one, from number `i` on.
unfoldable pub send_each : (ℕ → Message → Status) → ℕ → List Message → List Outcome
send_each one i [] = []
send_each one i (m ∷ ms) = record { token = m.token; status = one i m } ∷ send_each one (suc i) ms

pub send_each-tokens :
    (one : ℕ → Message → Status) (i : ℕ) (ms : List Message)
    → outcome_tokens (send_each one i ms) ≡ message_tokens ms
unfolding send_each
send_each-tokens one i [] = refl
send_each-tokens one i (m ∷ ms) =
    ap (λ (r : List Str). m.token ∷ r) (send_each-tokens one (suc i) ms)

pub send_each-answers :
    (one : ℕ → Message → Status)
    → ((i : ℕ) (m : Message) → (one i m ≢ blank) × (one i m ≢ not_attempted))
    → (i : ℕ) (ms : List Message) → All IsAnswer (send_each one i ms)
unfolding send_each
send_each-answers one h i [] = tt
send_each-answers one h i (m ∷ ms) = (h i m, send_each-answers one h (suc i) ms)

-- `unconfigured.Send`
unfoldable pub unconfigured : Sender
unfolding send_each
unconfigured = record { send = λ n ms. send_each (λ _ _. error) 0 ms }

pub unconfigured-IsSender : IsSender unconfigured
unfolding unconfigured
unconfigured-IsSender = record {
  tokens = λ n ms. send_each-tokens _ 0 ms;
  answers = λ n ms. send_each-answers _ (λ i m. (λ e. cc, λ e. cc)) 0 ms;
}

unfoldable pub is_logged : Str → List Str → Bool
is_logged p [] = false
is_logged p (q ∷ scope) = str_eq q p || is_logged p scope

-- `logRejection`: the platforms logged in the request's scope, if there is one, and whether it
-- writes a line
unfoldable pub log_rejection : Str → Option (List Str) → Option (List Str) × Bool
unfolding is_logged
log_rejection platform none = (none, true)
log_rejection platform (some scope) =
    if is_logged platform scope then (some scope, false) else (some (platform ∷ scope), true)
