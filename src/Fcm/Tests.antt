-- ===== src/Fcm/Tests.antt =====
-- Answers of FCM that internal/fcm/fcm.go meets, and the theorems at them.
use slim_m_relay.Prelude.{
  ℕ, zero, suc, ◌≡◌, ◌↔◌, ◌⊎◌, ◌≤◌, ◌<◌, refl, none, some, if◌then◌else◌, List, [], ◌∷◌, take,
}
use slim_m_relay.Text.{Str, codes, str_eq}
use slim_m_relay.Push.{Message, call, delivered, unregistered, error, IsSender, send_each}
use slim_m_relay.Fcm.{
  Json, ErrorDetail, Network, failed, answered, Race, fetched, cancelled, fcm_sender, error_code,
  max_error_body_bytes, status_of_exchange, token_field_violation,
}
use slim_m_relay.Fcm.Errors.{fcm_sender-IsSender, status_of_exchange_iff, NamesToken, HasCode}

abbrev details : List ErrorDetail
details =
    record { error_code = []; field_violations = codes "message.data" ∷ codes "message.token" ∷ [] }
    ∷ record { error_code = codes "UNREGISTERED"; field_violations = [] }
    ∷ []

-- a decoder that knows one body with a violation
abbrev json : Json
json = record {
  error_body = λ s. none;
  error_details = λ s. if str_eq s (codes "bad") then some details else none;
}

abbrev network : Network
network n zero r = answered 200 []
network n (suc zero) r = answered 400 (codes "bad")
network n (suc (suc zero)) r = answered 500 (codes "bad")
network n _ r = failed

abbrev ringing : Message
ringing = record { token = codes "a"; kind = call; payload = codes "x" }

-- the second call comes too late for its token
abbrev race : ℕ → Race
race zero = fetched (some (codes "t"))
race (suc n) = cancelled

fcm_sender_samples :
    ((fcm_sender json race network [] []).send 0 (ringing ∷ ringing ∷ ringing ∷ ringing ∷ [])
      ≡ record { token = codes "a"; status = delivered }
        ∷ record { token = codes "a"; status = unregistered }
        ∷ record { token = codes "a"; status = error }
        ∷ record { token = codes "a"; status = error }
        ∷ [])
    × ((fcm_sender json race network [] []).send 1 (ringing ∷ [])
        ≡ record { token = codes "a"; status = error } ∷ [])
unfolding fcm_sender send_each status_of_exchange str_eq error_code token_field_violation
fcm_sender_samples = (refl, refl)

fcm_sender-IsSender_example : IsSender (fcm_sender json race network [] [])
fcm_sender-IsSender_example = fcm_sender-IsSender json race network [] []

status_of_exchange_iff_example :
    ((status_of_exchange json (answered 400 (codes "bad")) ≡ unregistered) ↔ (
      (code : ℕ) × (body : Str) × (answered 400 (codes "bad") ≡ answered code body)
      × ((300 ≤ code)
          × (((code ≡ 400) × NamesToken json (take max_error_body_bytes body))
              ⊎ HasCode json (take max_error_body_bytes body) (codes "UNREGISTERED")))))
    × ((status_of_exchange json (answered 400 (codes "bad")) ≡ delivered) ↔ (
        (code : ℕ) × (body : Str) × (answered 400 (codes "bad") ≡ answered code body)
        × (code < 300)))
status_of_exchange_iff_example = status_of_exchange_iff json (answered 400 (codes "bad"))
