-- ===== src/Api/Threads/Foreign.antt =====
-- The program of `handleSend` in internal/api/send.go for a device token that belongs to another key:
-- what it answers for the token, if every bind of the token comes back with that key.
pub mod Outcomes
pub mod Refused
use slim_m_relay.Prelude.{
  ℕ, zero, suc, ◌≡◌, ◌≢◌, refl, sym, ◌∙◌, ap, subst, some-injective, true, false, ◌&&◌, none, some,
  Option, List, [], ◌∷◌, ◌++◌, length, get_elem?, set, All, All-append, ltb, leb, ◌==◌, ==_iff,
  Bool-cases, inl, inr, arith,
}
use slim_m_relay.Prelude.Int.{ℤ, pos, leb_ℤ, ltb_ℤ}
use slim_m_relay.Text.{Str, codes, str_eq}
use slim_m_relay.Keys.Sql.{Result, ok, err}
use slim_m_relay.Keys.Store.{Readings}
use slim_m_relay.Keys.Changes.{cutoff_at}
use slim_m_relay.Push.{
  Platform, ios, android, platform_text, Kind, Message, Status, blank, delivered, unregistered,
  forbidden, error, not_attempted, Outcome,
}
use slim_m_relay.Dispatch.{Item, attempt, attempt_from, mark_not_attempted, dispatch, is_blank}
use slim_m_relay.Api.Http.{
  Parsed, value, malformed, end_of_file, Payload, decode_json, Response, results_body,
}
use slim_m_relay.Api.Server.{Wiring}
use slim_m_relay.Api.Send.{
  SendMessage, Moment, SendTimes, Verdict, skip, refuse, accept, retention_of, is_call, is_empty,
  is_not_attempted, check_owner, max_payload_bytes, parse_platform, parse_kind,
}
use slim_m_relay.Api.Send.Replies.{success, results_of}
use slim_m_relay.Api.Threads.{Act, Answer, Program, bind}
use slim_m_relay.Api.Threads.Programs.{
  swept_if, prune_program, bind_program, bind_message_program, if_granted, charge_program,
  kind_program, platform_program, look_at_program, Gathered, gather, loop_program, refund_program,
  dispatch_program, batch_program, limited, key_program,
}
use slim_m_relay.Api.Threads.Promises.{Promises, Promises-bind}
use slim_m_relay.Api.Threads.Foreign.Outcomes.{
  IsSpared, attempt_from-IsSpared, mark_not_attempted-IsSpared, Spares, SparedSoFar,
  gather-SparedSoFar, error-IsRefusal, forbidden-IsRefusal,
}

parse_platform-eq : (p q : Platform) → some p ≡ parse_platform (platform_text q) → p ≡ q
unfolding parse_platform platform_text str_eq
parse_platform-eq p ios e = some-injective _ _ e
parse_platform-eq p android e = some-injective _ _ e

-- Key `n` is not `k`, to which the token is bound on `platform`.
module _ (k n : ℕ) (differ : n ≢ k) (platform : Platform) (token : Str) where
  abbrev pub AnyAct : Act → Type 0
  AnyAct a = Unit

  -- a bind of the token comes back with `k`
  abbrev pub ComesBack : (a : Act) → Answer a → Type 0
  ComesBack (bind id p t now) r =
      p ≡ platform_text platform → t ≡ token → (o : ℕ) → r ≡ ok o → o ≡ k
  ComesBack _ x = Unit

  -- the owner of a token is not `n`, if that is the one
  abbrev IsOthers : Str → Result ℕ → Type 0
  IsOthers t r = t ≡ token → (o : ℕ) → r ≡ ok o → o ≢ n

  check_owner-Spares :
      (w : Wiring) (p : Platform) (msg : Message) (r : Result ℕ)
      → IsOthers msg.token r
      → Spares token (check_owner w n p msg r)
  check_owner-Spares w p msg (err e) h = error-IsRefusal
  check_owner-Spares w p msg (ok o) h = elim (Bool-cases (o == n)) [
    | inl own ↦ rw own (λ e. h e o refl ((==_iff o n).0 own))
    | inr other ↦ rw other forbidden-IsRefusal
  ]

  prune-IsOthers :
      (retention : ℤ) (t : Readings) (name : Str) (r : Result ℕ)
      → IsOthers name r
      → Promises AnyAct ComesBack (IsOthers name) (prune_program retention t r)
  prune-IsOthers retention t name (err e) h = h
  prune-IsOthers retention t name (ok o) h = elim (Bool-cases (leb_ℤ retention (pos 0))) [
    | inl off ↦ rw off h
    | inr on ↦ rw on (
      tt,
      λ due _.
          elim due
            as (λ b.
              Promises AnyAct ComesBack (IsOthers name)
                (swept_if b o (cutoff_at retention t.cutoff))) [
                  | true ↦ (tt, λ _ _. h)
                  | false ↦ h
                ],
    )
  ]

  module _ (w : Wiring) where
    abbrev WillSpare : Program Verdict → Type 0
    WillSpare p = Promises AnyAct ComesBack (Spares token) p

    bind_message-WillSpare :
        (t : Moment) (p : Platform) (msg : Message)
        → (msg.token ≡ token → p ≡ platform)
        → WillSpare (bind_message_program w n t p msg)
    unfolding bind_message_program bind_program
    bind_message-WillSpare t p msg on =
        Promises-bind AnyAct ComesBack (IsOthers msg.token) (Spares token)
          (bind_program n (platform_text p) msg.token (retention_of w.config) t.bind_at t.prune_at)
          _
          (
            tt,
            λ r back.
                prune-IsOthers (retention_of w.config) t.prune_at msg.token r
                  (λ e o q own. differ (sym own ∙ back (ap platform_text (on e)) e o q)),
          )
          (λ r h. check_owner-Spares w p msg r h)

    charge-WillSpare :
        (t : Moment) (p : Platform) (msg : Message)
        → (msg.token ≡ token → p ≡ platform)
        → WillSpare (charge_program w n t p msg)
    unfolding charge_program
    charge-WillSpare t p msg on = elim (Bool-cases (is_call msg.kind)) [
      | inr free ↦ rw free (bind_message-WillSpare t p msg on)
      | inl call ↦ rw call (
        tt,
        λ b _. elim b as (λ b. WillSpare (if_granted (bind_message_program w n t p msg) b)) [
          | true ↦ bind_message-WillSpare t p msg on
          | false ↦ error-IsRefusal
        ],
      )
    ]

    -- a message for the token is one for `platform`
    abbrev pub IsOn : SendMessage → Type 0
    IsOn m = m.token ≡ token → m.platform ≡ platform_text platform

    look_at-WillSpare :
        (t : Moment) (m : SendMessage) → IsOn m → WillSpare (look_at_program w n t m)
    unfolding look_at_program
    look_at-WillSpare t m on = elim (Bool-cases (is_empty m.token)) [
      | inl gone ↦ rw gone tt
      | inr here ↦ elim (Bool-cases (ltb max_payload_bytes (length m.payload))) [
        | inl large ↦ rw (here, large) error-IsRefusal
        | inr small ↦ rw (here, small) (parsed (parse_platform m.platform) refl)
      ]
    ]
      where
        named :
            (p : Platform) (kind : Option Kind)
            → parse_platform m.platform ≡ some p
            → WillSpare (kind_program w n t m p kind)
        named p none e = error-IsRefusal
        named p (some kind) e =
            charge-WillSpare t p _
              (λ q. parse_platform-eq p platform (sym e ∙ ap parse_platform (on q)))

        parsed :
            (o : Option Platform)
            → parse_platform m.platform ≡ o
            → WillSpare (platform_program w n t m o)
        parsed none e = error-IsRefusal
        parsed (some p) e = named p (parse_kind m.kind) e

    loop-SparedSoFar :
        (clock : ℕ → Moment) (i : ℕ) (ms : List SendMessage) (g : Gathered)
        → All IsOn ms
        → SparedSoFar token g
        → Promises AnyAct ComesBack (SparedSoFar token) (loop_program w n clock i ms g)
    unfolding loop_program
    loop-SparedSoFar clock i [] g on h = h
    loop-SparedSoFar clock i (m ∷ ms) g on h =
        Promises-bind AnyAct ComesBack (Spares token) (SparedSoFar token)
          (look_at_program w n (clock i) m)
          (λ verdict. loop_program w n clock (suc i) ms (gather m.token verdict g))
          (look_at-WillSpare (clock i) m on.0)
          (λ v f.
            loop-SparedSoFar clock (suc i) ms (gather m.token v g) on.1
              (gather-SparedSoFar token m.token v g f h))

    -- a success delivers nothing to the token
    abbrev pub IsSparing : Response → Type 0
    IsSparing reply =
        (results : List Outcome) → reply ≡ success results → All (IsSpared token) results

    refund-IsSparing :
        (items : List Item) (results : List Outcome) (reply : Response)
        → IsSparing reply
        → Promises AnyAct ComesBack IsSparing (refund_program n items results reply)
    unfolding refund_program
    refund-IsSparing [] results reply h = h
    refund-IsSparing (item ∷ items) results reply h =
        elim (Bool-cases
          (is_call item.msg.kind && is_not_attempted (get_elem? results item.result_idx))) [
            | inl back ↦ rw back (tt, λ _ _. refund-IsSparing items results reply h)
            | inr kept ↦ rw kept (refund-IsSparing items results reply h)
          ]

    dispatch-IsSparing :
        (cut : ℕ) (g : Gathered)
        → SparedSoFar token g
        → Promises AnyAct ComesBack IsSparing (dispatch_program n cut g)
    unfolding dispatch_program dispatch
    dispatch-IsSparing cut g h = refund-IsSparing g.items _ _ (λ results e.
        subst (All (IsSpared token)) (ap (λ (r : Response). results_of results r.body) e) (
          mark_not_attempted-IsSpared token g.items (attempt_from 0 cut g.items g.results) h.1
            (attempt_from-IsSpared token 0 cut g.items g.results h.1 h.0)))

    batch-IsSparing :
        (t : SendTimes) (p : Parsed (List SendMessage))
        → ((ms : List SendMessage) → p ≡ value ms → All IsOn ms)
        → Promises AnyAct ComesBack IsSparing (batch_program w t n p)
    batch-IsSparing t malformed on = λ results e. absurd (cc)
    batch-IsSparing t end_of_file on = λ results e. absurd (cc)
    batch-IsSparing t (value ms) on =
        elim (Bool-cases (ltb_ℤ w.config.max_messages (pos (length ms)))) [
          | inl many ↦ rw many (λ results e. absurd (cc))
          | inr few ↦ rw few (
              Promises-bind AnyAct ComesBack (SparedSoFar token) IsSparing
                (loop_program w n t.clock 0 ms (record { results = []; items = [] }))
                (dispatch_program n t.cut)
                (loop-SparedSoFar t.clock 0 ms (record { results = []; items = [] }) (on ms refl)
                  (tt, tt))
                (λ g h. dispatch-IsSparing t.cut g h))
        ]

    -- Of a send behind `Verify`: it delivers nothing to a token of another key, if every bind of the
    -- token comes back with that key.
    pub key-IsSparing :
        (t : SendTimes) (body : Payload (List SendMessage))
        → ((ms : List SendMessage) → body.parsed ≡ value ms → All IsOn ms)
        → Promises AnyAct ComesBack IsSparing (key_program w t body n)
    unfolding key_program decode_json
    key-IsSparing t body on = (
      tt,
      λ granted _.
          elim granted
            as (λ b. Promises AnyAct ComesBack IsSparing (
              limited (batch_program w t n (decode_json 1048576 body)) (codes "rate limit exceeded")
                b)) [
                  | true ↦ elim (Bool-cases (ltb 1048576 body.size)) [
                    | inl large ↦ rw large (λ results e. absurd (cc))
                    | inr small ↦ rw small (batch-IsSparing t body.parsed on)
                  ]
                  | false ↦ λ results e. absurd (cc)
                ],
    )
