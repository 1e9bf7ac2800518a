-- ===== src/Api/Send/Verdicts.antt =====
-- Which messages the first loop of `handleSend` in internal/api/send.go lets through to a sender.
use slim_m_relay.Prelude.{
  ℕ, ◌≤◌, ◌≡◌, ◌≢◌, [], ◌∷◌, refl, sym, ◌∙◌, ap, true, false, ◌⊎◌, inl, inr, Option, none, some,
  length, ltb, ◌==◌, arith, Bool-cases, subst,
}
use slim_m_relay.Text.{Str}
use slim_m_relay.Push.{Platform, Kind, Message, platform_text, Sender}
use slim_m_relay.Keys.Tables.{owner_of}
use slim_m_relay.Keys.Sql.{Result, ok, err, Store}
use slim_m_relay.Keys.Store.{unix, bind_in_transaction, prune_after, bind_token}
use slim_m_relay.Keys.Atomic.{Ends, IsBound, owner_after, bind_in_transaction-Ends}
use slim_m_relay.Api.Server.{Wiring, Server}
use slim_m_relay.Api.Send.{
  SendMessage, Moment, accept, max_payload_bytes, retention_of, is_call, is_empty, sender_for,
  check_owner, bind_message, charge_call, charge_and_bind, with_kind, with_platform, parse_platform,
  parse_kind, look_at,
}

pub charge_call-store :
    (key_id : ℕ) (t : Moment) (kind : Kind) (s : Server)
    → (charge_call key_id t kind s).0.store ≡ s.store
unfolding charge_call
charge_call-store key_id t kind s = elim (Bool-cases (is_call kind)) [
  | inl paid ↦ rw paid refl
  | inr free ↦ rw free refl
]

not_empty : (s : Str) → is_empty s ≡ false → s ≢ []
not_empty [] e q = absurd (cc)
not_empty (c ∷ s) e q = cc

owner_after-own :
    (key_id : ℕ) (o : Option ℕ) → owner_after key_id o ≡ key_id → (o ≡ none) ⊎ (o ≡ some key_id)
owner_after-own key_id none e = inl refl
owner_after-own key_id (some owner) e = inr (ap some e)

-- a token that key `key_id` may send to, in a store
abbrev pub IsOpenTo : ℕ → Platform → Str → Store → Type 0
IsOpenTo key_id platform token s =
    (owner_of (platform_text platform) token s.db.tokens ≡ none)
    ⊎ (owner_of (platform_text platform) token s.db.tokens ≡ some key_id)

module _ (w : Wiring) (key_id : ℕ) (t : Moment) where
  accepted_owner :
      (platform : Platform) (msg msg' : Message) (sender : Sender) (r : Result ℕ)
      → check_owner w key_id platform msg r ≡ accept sender msg'
      → (r ≡ ok key_id) × (sender ≡ sender_for w platform) × (msg' ≡ msg)
  accepted_owner platform msg msg' sender (err x) e = absurd (cc)
  accepted_owner platform msg msg' sender (ok owner) e = elim (Bool-cases (owner == key_id)) [
    | inl own ↦
        let q = rw own at e in let same : owner ≡ key_id = ground arith in (ap ok same, cc, cc)
    | inr other ↦ absurd (let q = rw other at e in cc)
  ]

  bound_to :
      (platform : Platform) (token : Str) (s : Store) (r : Result ℕ × Store)
      → Ends s.db (IsBound key_id (platform_text platform) token (unix t.bind_at) s) r
      → (prune_after (retention_of w.config) t.prune_at r).0 ≡ ok key_id
      → IsOpenTo key_id platform token s
  bound_to platform token s (err e, m) h q = absurd (cc)
  bound_to platform token s (ok owner, m) h q =
      let own : owner ≡ key_id = ground arith in
      owner_after-own key_id (owner_of (platform_text platform) token s.db.tokens) (sym h.0 ∙ own)

  bind_message-accepts :
      (platform : Platform) (msg msg' : Message) (sender : Sender) (s : Server)
      → (bind_message w key_id t platform msg s).1 ≡ accept sender msg'
      → IsOpenTo key_id platform msg.token s.store × (sender ≡ sender_for w platform) × (msg' ≡ msg)
  unfolding bind_message bind_token
  bind_message-accepts platform msg msg' sender s e =
      let r =
        bind_in_transaction key_id (platform_text platform) msg.token (unix t.bind_at) s.store in
      let (owns, sent, same) =
        accepted_owner platform msg msg' sender (prune_after (retention_of w.config) t.prune_at r).0
          e in
      (
        bound_to platform msg.token s.store r
            (bind_in_transaction-Ends key_id (platform_text platform) msg.token (unix t.bind_at)
              s.store)
            owns,
        sent,
        same,
      )

  charge_and_bind-accepts :
      (platform : Platform) (msg msg' : Message) (sender : Sender) (s : Server)
      → (charge_and_bind w key_id t platform msg s).1 ≡ accept sender msg'
      → ((charge_call key_id t msg.kind s).1 ≡ true)
        × IsOpenTo key_id platform msg.token s.store
        × (sender ≡ sender_for w platform)
        × (msg' ≡ msg)
        × ((charge_and_bind w key_id t platform msg s).0.call_lim
            ≡ (charge_call key_id t msg.kind s).0.call_lim)
  unfolding charge_and_bind bind_message
  charge_and_bind-accepts platform msg msg' sender s e =
      let s' = (charge_call key_id t msg.kind s).0 in
      elim (Bool-cases (charge_call key_id t msg.kind s).1) [
        | inl granted ↦
            let (own, sent, same) =
              bind_message-accepts platform msg msg' sender s' (rw granted at e) in
            (
              granted,
              subst (IsOpenTo key_id platform msg.token) (charge_call-store key_id t msg.kind s)
                  own,
              sent,
              same,
              rw granted refl,
            )
        | inr spent ↦ absurd (let q = rw spent at e in cc)
      ]

  -- what a message that is let through has passed, with the server behind it
  abbrev pub Passed : SendMessage → Server → Server → Sender → Message → Type 0
  Passed m s s' sender msg =
      (platform : Platform) × ((kind : Kind) × (parse_platform m.platform ≡ some platform)
        × (parse_kind m.kind ≡ some kind)
        × (m.token ≢ [])
        × (length m.payload ≤ max_payload_bytes)
        × ((charge_call key_id t kind s).1 ≡ true)
        × IsOpenTo key_id platform m.token s.store
        × (sender ≡ sender_for w platform)
        × (msg ≡ record { token = m.token; kind = kind; payload = m.payload })
        × (s'.call_lim ≡ (charge_call key_id t kind s).0.call_lim))

  with_kind-accepts :
      (m : SendMessage) (platform : Platform) (k : Option Kind) (msg : Message) (sender : Sender)
      (s : Server)
      → parse_platform m.platform ≡ some platform
      → parse_kind m.kind ≡ k
      → is_empty m.token ≡ false
      → length m.payload ≤ max_payload_bytes
      → (with_kind w key_id t m platform k s).1 ≡ accept sender msg
      → Passed m s (with_kind w key_id t m platform k s).0 sender msg
  with_kind-accepts m platform none msg sender s p q given short e = absurd (cc)
  with_kind-accepts m platform (some kind) msg sender s p q given short e =
      let (paid, own, sent, same, kept) =
        charge_and_bind-accepts platform
          (record { token = m.token; kind = kind; payload = m.payload }) msg sender s e in
      (platform, (kind, p, q, not_empty m.token given, short, paid, own, sent, same, kept))

  with_platform-accepts :
      (m : SendMessage) (o : Option Platform) (msg : Message) (sender : Sender) (s : Server)
      → parse_platform m.platform ≡ o
      → is_empty m.token ≡ false
      → length m.payload ≤ max_payload_bytes
      → (with_platform w key_id t m o s).1 ≡ accept sender msg
      → Passed m s (with_platform w key_id t m o s).0 sender msg
  with_platform-accepts m none msg sender s p given short e = absurd (cc)
  with_platform-accepts m (some platform) msg sender s p given short e =
      with_kind-accepts m platform (parse_kind m.kind) msg sender s p refl given short e

  pub look_at-Passed :
      (m : SendMessage) (s : Server) (sender : Sender) (msg : Message)
      → (look_at w key_id t m s).1 ≡ accept sender msg
      → Passed m s (look_at w key_id t m s).0 sender msg
  unfolding look_at
  look_at-Passed m s sender msg e = elim (Bool-cases (is_empty m.token)) [
    | inl gone ↦ absurd (let q = rw gone at e in cc)
    | inr here ↦ elim (Bool-cases (ltb max_payload_bytes (length m.payload))) [
      | inl large ↦ absurd (let q = rw (here, large) at e in cc)
      | inr small ↦
          rw (here, small)
            (with_platform-accepts m (parse_platform m.platform) msg sender s refl here
              (ground arith) (rw (here, small) at e))
    ]
  ]
