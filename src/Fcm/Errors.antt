-- ===== src/Fcm/Errors.antt =====
-- How internal/fcm/fcm.go reads the answers of FCM, and what its sender promises.
use slim_m_relay.Prelude.{
  ℕ, suc, get_elem?, ◌≤◌, ◌<◌, ◌≡◌, ◌≢◌, ◌↔◌, ◌⊎◌, inl, inr, refl, sym, ◌∙◌, ap, subst, zero,
  some-injective, Bool, true, false, Option, none, some, List, All, [], ◌∷◌, ◌&&◌, take, any,
  any-Has, Has, ltb, ◌==◌, if◌then◌else◌, arith, Bool-cases,
}
use slim_m_relay.Text.{Str, codes, str_eq, str_eq_iff}
use slim_m_relay.Push.{
  Message, blank, delivered, unregistered, error, not_attempted, IsAnswer, IsSender,
  send_each-tokens, send_each-answers, outcome_tokens, message_tokens,
}
use slim_m_relay.Fcm.{
  is_empty, ErrorDetail, ErrorBody, Json, max_error_body_bytes, first_code, error_code, token_field,
  has_token_field, token_field_violation, Exchange, not_made, failed, answered, Network, Race,
  token_of, request_of, status_of_exchange, send_with, fcm_sender,
}

status_of_exchange-answers :
    (json : Json) (x : Exchange)
    → (status_of_exchange json x ≢ blank) × (status_of_exchange json x ≢ not_attempted)
unfolding status_of_exchange
status_of_exchange-answers json not_made = (λ e. cc, λ e. cc)
status_of_exchange-answers json failed = (λ e. cc, λ e. cc)
status_of_exchange-answers json (answered code body) =
    let raw = take max_error_body_bytes body in
    (
      ground (arith, Bool-cases (token_field_violation json raw)),
      ground (arith, Bool-cases (token_field_violation json raw)),
    )

send_with-IsSender :
    (json : Json) (network : Network) (url : Str) (n : ℕ) (o : Option Str) (ms : List Message)
    → (outcome_tokens (send_with json network url n o ms) ≡ message_tokens ms)
      × All IsAnswer (send_with json network url n o ms)
unfolding send_with
send_with-IsSender json network url n none ms =
    (send_each-tokens _ 0 ms, send_each-answers _ (λ i m. (λ e. cc, λ e. cc)) 0 ms)
send_with-IsSender json network url n (some access) ms = (
  send_each-tokens _ 0 ms,
  send_each-answers (λ i m. status_of_exchange json (network n i (request_of url access m)))
      (λ i m. status_of_exchange-answers json (network n i (request_of url access m))) 0 ms,
)

-- Whatever the token source, the deadline and the network do, the Android sender gives one result for
-- each message, in their order and with their tokens, and none is blank or "not attempted".
pub fcm_sender-IsSender :
    (json : Json) (race : ℕ → Race) (network : Network) (endpoint project_id : Str)
    → IsSender (fcm_sender json race network endpoint project_id)
unfolding fcm_sender
fcm_sender-IsSender json race network endpoint project_id = record {
  tokens = λ n ms. (send_with-IsSender json network _ n (token_of (race n)) ms).0;
  answers = λ n ms. (send_with-IsSender json network _ n (token_of (race n)) ms).1;
}

-- a violation of the token's field in a body that decodes
abbrev pub NamesToken : Json → Str → Type 0
NamesToken json raw =
    (details : List ErrorDetail) × (json.error_details raw ≡ some details)
    × Has (λ d. Has (λ field. field ≡ token_field) d.field_violations) details

has_token_field-Has :
    (d : ErrorDetail)
    → (has_token_field d ≡ true) ↔ Has (λ field. field ≡ token_field) d.field_violations
has_token_field-Has d =
    any-Has (λ field. str_eq field token_field) (λ field. field ≡ token_field)
      (λ field. str_eq_iff field token_field) d.field_violations

token_field_violation-NamesToken :
    (json : Json) (raw : Str) → (token_field_violation json raw ≡ true) ↔ NamesToken json raw
unfolding token_field_violation
token_field_violation-NamesToken json raw = go (json.error_details raw) refl
  where
    go :
        (o : Option (List ErrorDetail))
        → json.error_details raw ≡ o
        → ((elim (json.error_details raw) [
          | none ↦ false
          | some details ↦ any has_token_field details
        ])
            ≡ true)
          ↔ NamesToken json raw
    go none e = rw e (λ q. absurd (cc), λ (ds, q, _). absurd (cc))
    go (some details) e = rw e (
      (λ q. (details, refl, (any-Has _ _ has_token_field-Has details).0 q)),
      (λ (ds, q, h).
          (any-Has _ _ has_token_field-Has details).1
            (subst (Has _) (some-injective ds details (sym q)) h)),
    )

-- `c` is the code of the first detail that has one, or the general status where none has
abbrev pub IsCodeOf : Str → Str → List ErrorDetail → Type 0
IsCodeOf c status details =
    ((n : ℕ) × (d : ErrorDetail) × (get_elem? details n ≡ some d)
      × (d.error_code ≡ c)
      × All (λ b. b.error_code ≡ []) (take n details))
    ⊎ ((status ≡ c) × All (λ b. b.error_code ≡ []) details)

-- a body that decodes, with the code `c`
abbrev pub HasCode : Json → Str → Str → Type 0
HasCode json raw c =
    (resp : ErrorBody) × (json.error_body raw ≡ some resp) × IsCodeOf c resp.status resp.details

is_empty-nil : (s : Str) → is_empty s ≡ true → s ≡ []
is_empty-nil [] e = refl
is_empty-nil (c ∷ s) e = absurd (cc)

module _ (c status : Str) (some_code : c ≢ []) where
  first_code-to :
      (details : List ErrorDetail) → first_code details status ≡ c → IsCodeOf c status details
  unfolding first_code
  first_code-to [] e = inr (e, tt)
  first_code-to (d ∷ ds) e = elim (Bool-cases (is_empty d.error_code)) [
    | inr found ↦ inl (0, d, refl, rw found at e, tt)
    | inl no_code ↦
        let none : d.error_code ≡ [] = is_empty-nil d.error_code no_code in
        elim (first_code-to ds (rw no_code at e)) [
          | inl (n, b, at, own, before) ↦ inl (suc n, b, at, own, (none, before))
          | inr (own, all) ↦ inr (own, (none, all))
        ]
  ]

  first_code-from :
      (details : List ErrorDetail) → IsCodeOf c status details → first_code details status ≡ c
  unfolding first_code
  first_code-from [] (inl (n, d, at, own, before)) = absurd (cc)
  first_code-from [] (inr (own, all)) = own
  first_code-from (d ∷ ds) (inr (own, all)) = rw all.0 (first_code-from ds (inr (own, all.1)))
  first_code-from (d ∷ ds) (inl (zero, b, at, own, before)) =
      let mine : d.error_code ≡ c =
        ap (λ (x : ErrorDetail). x.error_code) (some-injective d b at) ∙ own in
      rw (mine, not_empty c some_code) refl
    where
      not_empty : (s : Str) → s ≢ [] → is_empty s ≡ false
      not_empty [] h = absurd (h refl)
      not_empty (x ∷ s) h = refl
  first_code-from (d ∷ ds) (inl (suc n, b, at, own, before)) =
      rw before.0 (first_code-from ds (inl (n, b, at, own, before.1)))

error_code-HasCode :
    (c : Str) → c ≢ [] → (json : Json) (raw : Str) → (error_code json raw ≡ c) ↔ HasCode json raw c
unfolding error_code
error_code-HasCode c some_code json raw = go (json.error_body raw) refl
  where
    go :
        (o : Option ErrorBody)
        → json.error_body raw ≡ o
        → ((elim (json.error_body raw) [
          | none ↦ []
          | some resp ↦ first_code resp.details resp.status
        ])
            ≡ c)
          ↔ HasCode json raw c
    go none e = rw e (λ q. absurd (some_code (sym q)), λ (resp, q, _). absurd (cc))
    go (some resp) e = rw e (
      (λ q. (resp, refl, first_code-to c resp.status some_code resp.details q)),
      (λ (r, q, h). first_code-from c resp.status some_code resp.details (
          subst (λ (z : ErrorBody). IsCodeOf c z.status z.details) (some-injective r resp (sym q))
            h)),
    )

-- what holds of an answer, said of an exchange
at_answer :
    {S : Type 0} (P : ℕ → Str → Type 0) (code : ℕ) (body : Str)
    → (S ↔ P code body)
    → S ↔ ((c : ℕ) × (b : Str) × (answered code body ≡ answered c b) × P c b)
at_answer P code body h = (
  (λ s. (code, body, refl, h.0 s)),
  (λ (c, b, e, p).
      let number : c ≡ code = cc in
      let text : b ≡ body = cc in h.1 (subst (λ (z : ℕ). P z body) number (subst (P c) text p))),
)

by_code :
    {V U : Type 0} (code : ℕ) (v u : Bool)
    → ((v ≡ true) ↔ V)
    → ((u ≡ true) ↔ U)
    → (((if ltb code 300
            then delivered
            else if code == 400 && v
            then unregistered
            else if u
            then unregistered
            else error)
          ≡ unregistered)
        ↔ ((300 ≤ code) × (((code ≡ 400) × V) ⊎ U)))
      × (((if ltb code 300
              then delivered
              else if code == 400 && v
              then unregistered
              else if u
              then unregistered
              else error)
            ≡ delivered)
          ↔ (code < 300))
by_code code true true hv hu = ground (arith, hv, hu)
by_code code true false hv hu = ground (arith, hv, hu)
by_code code false true hv hu = ground (arith, hv, hu)
by_code code false false hv hu = ground (arith, hv, hu)

-- A message counts as delivered exactly when its request was answered, below 300. A token counts as
-- dead exactly when the request was answered with an error, and the first 16 KB of the body either
-- decode with a violation of the message's token field, in a 400, or have the code UNREGISTERED: in the
-- first detail that has a code, or in the general status where none has.
pub status_of_exchange_iff :
    (json : Json) (x : Exchange)
    → ((status_of_exchange json x ≡ unregistered) ↔ (
        (code : ℕ) × (body : Str) × (x ≡ answered code body)
        × ((300 ≤ code)
            × (((code ≡ 400) × NamesToken json (take max_error_body_bytes body))
                ⊎ HasCode json (take max_error_body_bytes body) (codes "UNREGISTERED")))))
      × ((status_of_exchange json x ≡ delivered)
          ↔ ((code : ℕ) × (body : Str) × (x ≡ answered code body) × (code < 300)))
unfolding status_of_exchange
status_of_exchange_iff json not_made = (
  (λ e. absurd (cc), λ (c, b, e, _). absurd (cc)),
  (λ e. absurd (cc), λ (c, b, e, _). absurd (cc)),
)
status_of_exchange_iff json failed = (
  (λ e. absurd (cc), λ (c, b, e, _). absurd (cc)),
  (λ e. absurd (cc), λ (c, b, e, _). absurd (cc)),
)
status_of_exchange_iff json (answered code body) =
    let raw = take max_error_body_bytes body in
    let both =
      by_code code (token_field_violation json raw)
        (str_eq (error_code json raw) (codes "UNREGISTERED"))
        (token_field_violation-NamesToken json raw) (is_code raw) in
    (
      at_answer
          (λ c b.
            (300 ≤ c)
            × (((c ≡ 400) × NamesToken json (take max_error_body_bytes b))
                ⊎ HasCode json (take max_error_body_bytes b) (codes "UNREGISTERED")))
          code body both.0,
      at_answer (λ c b. c < 300) code body both.1,
    )
  where
    is_code :
        (raw : Str)
        → (str_eq (error_code json raw) (codes "UNREGISTERED") ≡ true)
          ↔ HasCode json raw (codes "UNREGISTERED")
    is_code raw =
        let eq = str_eq_iff (error_code json raw) (codes "UNREGISTERED") in
        let has = error_code-HasCode (codes "UNREGISTERED") (λ q. cc) json raw in
        ((λ q. has.0 (eq.0 q)), (λ h. eq.1 (has.1 h)))
