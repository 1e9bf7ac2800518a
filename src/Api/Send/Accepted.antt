-- ===== src/Api/Send/Accepted.antt =====
-- What a message of `handleSend` in internal/api/send.go has met when it goes to a sender, and what the
-- request has met when it is answered with results.
use slim_m_relay.Prelude.{
  ℕ, ◌+◌, ◌-◌, ◌*◌, ◌≤◌, ◌≡◌, ◌≢◌, refl, sym, ◌∙◌, ap, true, ◌⊎◌, inl, inr, none, some,
  some-injective, [], length, leb, arith, Bool-cases, subst,
}
use slim_m_relay.Text.{Str, codes, str_eq, str_eq_iff, str_eq_refl, format_int}
use slim_m_relay.Push.{
  Platform, ios, android, Kind, message, mention, call, wake, Message, Sender, platform_text,
}
use slim_m_relay.RateLimit.{token_unit, idle_limit, Limiter, allow}
use slim_m_relay.RateLimit.Level.{IsLimiter, level}
use slim_m_relay.RateLimit.Budget.{allow-level, paid}
use slim_m_relay.Keys.Tables.{owner_of}
use slim_m_relay.Keys.Sql.{Store}
use slim_m_relay.Api.Server.{Wiring, Server}
use slim_m_relay.Api.Send.{
  SendMessage, Moment, accept, max_payload_bytes, sender_for, charge_call, parse_platform,
  parse_kind, look_at,
}
use slim_m_relay.Api.Send.Verdicts.{look_at-Passed}

-- the platform of this name has this sender
abbrev pub IsSenderOf : Wiring → Str → Sender → Type 0
IsSenderOf w name sender =
    ((name ≡ codes "ios") × (sender ≡ w.ios_sender))
    ⊎ ((name ≡ codes "android") × (sender ≡ w.android_sender))

-- the kind of this name
abbrev pub IsKindOf : Str → Kind → Type 0
IsKindOf name message = name ≡ codes "message"
IsKindOf name mention = name ≡ codes "mention"
IsKindOf name call = name ≡ codes "call"
IsKindOf name wake = name ≡ codes "wake"

-- the token is bound to nobody on the platform of this name, or to key `key_id`
abbrev pub IsFreeFor : ℕ → Str → Str → Store → Type 0
IsFreeFor key_id name token s =
    (owner_of name token s.db.tokens ≡ none) ⊎ (owner_of name token s.db.tokens ≡ some key_id)

parse_kind-IsKindOf : (name : Str) (kind : Kind) → parse_kind name ≡ some kind → IsKindOf name kind
unfolding parse_kind
parse_kind-IsKindOf name kind e = elim (Bool-cases (str_eq name (codes "message"))) [
  | inl a ↦ at message a (rw a at e)
  | inr a ↦ elim (Bool-cases (str_eq name (codes "mention"))) [
    | inl b ↦ at mention b (rw (a, b) at e)
    | inr b ↦ elim (Bool-cases (str_eq name (codes "call"))) [
      | inl c ↦ at call c (rw (a, b, c) at e)
      | inr c ↦ elim (Bool-cases (str_eq name (codes "wake"))) [
        | inl d ↦ at wake d (rw (a, b, c, d) at e)
        | inr d ↦ absurd (let q = rw (a, b, c, d) at e in cc)
      ]
    ]
  ]
]
  where
    text : Kind → Str
    text message = codes "message"
    text mention = codes "mention"
    text call = codes "call"
    text wake = codes "wake"

    named : (k : Kind) → name ≡ text k → IsKindOf name k
    named message q = q
    named mention q = q
    named call q = q
    named wake q = q

    at : (k : Kind) → str_eq name (text k) ≡ true → some k ≡ some kind → IsKindOf name kind
    at k same q =
        subst (IsKindOf name) (some-injective _ _ q) (named k ((str_eq_iff name (text k)).0 same))

-- what the text of a platform means: its sender, and the text under which its tokens are stored
parse_platform-IsSenderOf :
    (w : Wiring) (name : Str) (platform : Platform)
    → parse_platform name ≡ some platform
    → IsSenderOf w name (sender_for w platform) × (platform_text platform ≡ name)
unfolding parse_platform platform_text
parse_platform-IsSenderOf w name platform e = elim (Bool-cases (str_eq name (codes "ios"))) [
  | inl a ↦
      let one : ios ≡ platform = some-injective _ _ (rw a at e) in
      let text = (str_eq_iff name (codes "ios")).0 a in rw (← one) (inl (text, refl), sym text)
  | inr a ↦ elim (Bool-cases (str_eq name (codes "android"))) [
    | inl b ↦
        let one : android ≡ platform = some-injective _ _ (rw (a, b) at e) in
        let text = (str_eq_iff name (codes "android")).0 b in
        rw (← one) (inr (text, refl), sym text)
    | inr b ↦ absurd (let q = rw (a, b) at e in cc)
  ]
]

-- What `Allow` grants costs a token of the level.
pub granted-level :
    (r b : ℕ) (l : Limiter) (k : Str) (t now : ℕ)
    → token_unit ≤ b
    → b ≤ idle_limit * r
    → t ≤ now
    → IsLimiter r b t l
    → (allow l k now).1 ≡ true
    → level (allow l k now).0 k now + token_unit ≡ level l k now
granted-level r b l k t now big full past v granted =
    let step = allow-level r b l k k t now big full past v in
    let enough : leb token_unit (level l k now) ≡ true = sym step.0 ∙ granted in
    let left : level (allow l k now).0 k now ≡ level l k now - token_unit =
      rw (str_eq_refl k, granted) at step.1 in
    ground arith

-- a call has taken a token from the key's budget for calls, between the two states
abbrev pub HasPaid : ℕ → ℕ → Kind → Server → Server → Type 0
HasPaid key_id now kind s s' =
    (kind ≢ call)
    ⊎ (level s'.call_lim (format_int key_id) now + token_unit
        ≡ level s.call_lim (format_int key_id) now)

charge_call-HasPaid :
    (r b since key_id : ℕ) (t : Moment) (kind : Kind) (s s' : Server)
    → token_unit ≤ b
    → b ≤ idle_limit * r
    → since ≤ t.allow_at
    → IsLimiter r b since s.call_lim
    → (charge_call key_id t kind s).1 ≡ true
    → s'.call_lim ≡ (charge_call key_id t kind s).0.call_lim
    → HasPaid key_id t.allow_at kind s s'
unfolding charge_call
charge_call-HasPaid r b since key_id t message s s' big full past v granted kept = inl (λ q. cc)
charge_call-HasPaid r b since key_id t mention s s' big full past v granted kept = inl (λ q. cc)
charge_call-HasPaid r b since key_id t wake s s' big full past v granted kept = inl (λ q. cc)
charge_call-HasPaid r b since key_id t call s s' big full past v granted kept = inr (
    ap (λ (l : Limiter). level l (format_int key_id) t.allow_at + token_unit) kept
    ∙ granted-level r b s.call_lim (format_int key_id) since t.allow_at big full past v granted)

-- A message goes to a sender only if its platform is "ios" or "android", and then to that platform's;
-- its kind is one of the four names; its token is not empty and is bound on its platform to the key or
-- to nobody; its payload has at most 4096 bytes; and if it is a call, a whole token has been taken from
-- the key's budget for calls. It goes with its own token, kind and payload. The limiter for calls is
-- well formed, its burst holds a token and comes back within ten minutes, and the clock does not go back.
pub look_at-accepts :
    (w : Wiring) (r b since key_id : ℕ) (t : Moment) (m : SendMessage) (s : Server)
    (sender : Sender) (msg : Message)
    → token_unit ≤ b
    → b ≤ idle_limit * r
    → since ≤ t.allow_at
    → IsLimiter r b since s.call_lim
    → (look_at w key_id t m s).1 ≡ accept sender msg
    → IsSenderOf w m.platform sender
      × IsKindOf m.kind msg.kind
      × (m.token ≢ [])
      × IsFreeFor key_id m.platform m.token s.store
      × (length m.payload ≤ max_payload_bytes)
      × HasPaid key_id t.allow_at msg.kind s (look_at w key_id t m s).0
      × (msg ≡ record { token = m.token; kind = msg.kind; payload = m.payload })
look_at-accepts w r b since key_id t m s sender msg big full past v e =
    let (platform, (kind, p, q, given, short, paid, own, sent, same, kept)) =
      look_at-Passed w key_id t m s sender msg e in
    let (sends, name) = parse_platform-IsSenderOf w m.platform platform p in
    let own_kind : msg.kind ≡ kind = ap (λ (z : Message). z.kind) same in
    (
      rw sent sends,
      rw own_kind (parse_kind-IsKindOf m.kind kind q),
      given,
      subst (λ (z : Str). IsFreeFor key_id z m.token s.store) name own,
      short,
      rw own_kind (
          charge_call-HasPaid r b since key_id t kind s (look_at w key_id t m s).0 big full past v
            paid kept),
      same
          ∙ ap (λ (k : Kind). record { token = m.token; kind = k; payload = m.payload })
              (sym own_kind),
    )
