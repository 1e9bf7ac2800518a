-- ===== src/Fcm.antt =====
-- internal/fcm/fcm.go: the sender for Android. The token source of golang.org/x/oauth2 is a parameter,
-- as is what the network answers to a request, by the call of the request and the message's place
-- in it. `json.Unmarshal` into the two structs of the source is a parameter of what reads a body.
pub mod Errors
mod Tests
use slim_m_relay.Prelude.{
  ℕ, ◌≡◌, ◌≢◌, refl, Bool, true, false, ◌&&◌, ◌||◌, Option, none, some, List, [], ◌∷◌, ◌++◌, take,
  any, ltb, ◌==◌, if◌then◌else◌,
}
use slim_m_relay.Text.{Str, codes, str_eq}
use slim_m_relay.Push.{
  Message, kind_text, Status, blank, delivered, unregistered, error, not_attempted, Outcome, Sender,
  IsSender, send_each, send_each-tokens, send_each-answers,
}

abbrev pub max_error_body_bytes : ℕ
max_error_body_bytes = 16384

-- fcmErrorDetail
pub record ErrorDetail : Type 0 where
  pub error_code : Str
  pub field_violations : List Str

-- the body that `errorCode` reads; `tokenFieldViolation` reads the details alone
pub record ErrorBody : Type 0 where
  pub status : Str
  pub details : List ErrorDetail

-- what `json.Unmarshal` makes of a body in `errorCode` and in `tokenFieldViolation`, if it can
pub record Json : Type 0 where
  pub error_body : Str → Option ErrorBody
  pub error_details : Str → Option (List ErrorDetail)

abbrev pub is_empty : Str → Bool
is_empty [] = true
is_empty (c ∷ s) = false

-- the loop of `errorCode`, and what it returns behind it
unfoldable pub first_code : List ErrorDetail → Str → Str
first_code [] status = status
first_code (d ∷ ds) status =
    let rest = first_code ds status in if is_empty d.error_code then rest else d.error_code

unfoldable pub error_code : Json → Str → Str
unfolding first_code
error_code json body = elim (json.error_body body) [
  | none ↦ []
  | some resp ↦ first_code resp.details resp.status
]

abbrev pub token_field : Str
token_field = codes "message.token"

-- the two loops of `tokenFieldViolation`
abbrev pub has_token_field : ErrorDetail → Bool
has_token_field d = any (λ field. str_eq field token_field) d.field_violations

unfoldable pub token_field_violation : Json → Str → Bool
token_field_violation json body = elim (json.error_details body) [
  | none ↦ false
  | some details ↦ any has_token_field details
]

-- the request of `sendOne`; the fields of its JSON body are the message's
pub record Request : Type 0 where
  pub url : Str
  pub authorization : Str
  pub token : Str
  pub kind : Str
  pub payload : Str
  pub priority : Str

-- What becomes of a request: it cannot be made (the URL does not parse), it fails, or it is answered.
pub data Exchange : Type 0 where
  not_made failed : Exchange
  answered : ℕ → Str → Exchange

abbrev pub Network : Type 0
Network = ℕ → ℕ → Request → Exchange

unfoldable pub status_of_exchange : Json → Exchange → Status
unfolding error_code token_field_violation str_eq
status_of_exchange json not_made = error
status_of_exchange json failed = error
status_of_exchange json (answered code body) =
    if ltb code 300
    then delivered
    else (let raw = take max_error_body_bytes body in
        if code == 400 && token_field_violation json raw
        then unregistered
        else if str_eq (error_code json raw) (codes "UNREGISTERED")
        then unregistered
        else error)

unfoldable pub request_of : Str → Str → Message → Request
unfolding kind_text
request_of url access m = record {
  url = url;
  authorization = codes "Bearer " ++ access;
  token = m.token;
  kind = kind_text m.kind;
  payload = m.payload;
  priority = codes "high";
}

-- The race of `token`: the fetch comes first, with a token or an error, or the deadline does.
pub data Race : Type 0 where
  fetched : Option Str → Race
  cancelled : Race

abbrev pub token_of : Race → Option Str
token_of (fetched r) = r
token_of cancelled = none

abbrev pub send_url : Str → Str → Str
send_url endpoint project_id =
    endpoint ++ codes "/v1/projects/" ++ project_id ++ codes "/messages:send"

-- `Send` with the token that `s.token(ctx)` gave
unfoldable pub send_with : Json → Network → Str → ℕ → Option Str → List Message → List Outcome
unfolding send_each status_of_exchange request_of
send_with json network url n none ms = send_each (λ _ _. error) 0 ms
send_with json network url n (some access) ms =
    send_each (λ i m. status_of_exchange json (network n i (request_of url access m))) 0 ms

unfoldable pub fcm_sender : Json → (ℕ → Race) → Network → Str → Str → Sender
unfolding send_with
fcm_sender json race network endpoint project_id = record {
  send = λ n ms. send_with json network (send_url endpoint project_id) n (token_of (race n)) ms;
}
