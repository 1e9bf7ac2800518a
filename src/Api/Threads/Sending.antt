-- ===== src/Api/Threads/Sending.antt =====
-- What the program of `handleSend` in internal/api/send.go promises, whatever answers its acts get.
use slim_m_relay.Prelude.{
  ℕ, ◌≡◌, refl, true, false, Option, none, some, length, ltb, Bool-cases, inl, inr,
}
use slim_m_relay.Prelude.Int.{pos, leb_ℤ}
use slim_m_relay.Text.{Str}
use slim_m_relay.Keys.Tables.{KeyRow}
use slim_m_relay.Keys.Sql.{Result, ok, err}
use slim_m_relay.Keys.Store.{Key, unix, scan_key}
use slim_m_relay.Keys.Changes.{cutoff_at}
use slim_m_relay.Push.{Platform, platform_text, Kind, Message}
use slim_m_relay.Api.Server.{Wiring}
use slim_m_relay.Api.Send.{
  SendMessage, SendTimes, retention_of, is_call, is_empty, max_payload_bytes, parse_platform,
  parse_kind,
}
use slim_m_relay.Api.Send.Results.{Fits, check_owner-Fits}
use slim_m_relay.Api.Threads.{
  Act, Answer, allow_send, allow_call, return_call, find_key, stamp, bind, prune_due, sweep_tokens,
}
use slim_m_relay.Api.Threads.Programs.{
  row_program, live_program, stamped_key, verify_program, swept_if, prune_program, bind_program,
  bind_message_program, if_granted, charge_program, kind_program, platform_program, look_at_program,
}
use slim_m_relay.Api.Threads.Promises.{Promises, Promises-bind}

-- The acts that a send with these readings of the clock may come to are within `W`, for the keys
-- that `May` holds of; and it holds of a key that is found and is not revoked.
pub record Covers (w : Wiring) (t : SendTimes) (W : Act → Type 0)
    (G : (a : Act) → Answer a → Type 0) (May : ℕ → Type 0) : Type 0 where
  pub finds : (hash : Str) → W (find_key hash)
  pub known :
      (hash : Str) (row : KeyRow)
      → G (find_key hash) (ok (some row))
      → row.revoked_at ≡ none
      → May row.id
  pub stamps : (id now : ℕ) → May id → W (stamp id now)
  pub pays : (id now : ℕ) → May id → W (allow_send id now)
  pub calls : (id now : ℕ) → May id → W (allow_call id now)
  pub returns : (id : ℕ) → May id → W (return_call id)
  pub binds :
      (id : ℕ) (platform token : Str) (n : ℕ)
      → May id
      → W (bind id platform token (t.clock n).bind_at)
  pub tests : (since mark : ℕ) → W (prune_due since mark)
  pub sweeps :
      (n : ℕ)
      → leb_ℤ (retention_of w.config) (pos 0) ≡ false
      → W (sweep_tokens (cutoff_at (retention_of w.config) (t.clock n).prune_at.cutoff))

module _ (hash_key : Str → Str) (w : Wiring) (t : SendTimes) (W : Act → Type 0)
    (G : (a : Act) → Answer a → Type 0) (May : ℕ → Type 0) (c : Covers w t W G May) where
  unfoldable pub MayBe : Result Key → Type 0
  MayBe (ok k) = May k.id
  MayBe (err e) = Unit

  stamped-MayBe : (k : Key) (used : ℕ) → May k.id → Promises W G MayBe (live_program none k used)
  unfolding MayBe
  stamped-MayBe k used may = (
    c.stamps k.id used may,
    λ x _. elim x as (λ r. MayBe (stamped_key k used r)) [ ok u ↦ may | err e ↦ may ],
  )

  row-MayBe :
      (hash : Str) (used : ℕ) (r : Result (Option KeyRow))
      → G (find_key hash) r
      → Promises W G MayBe (row_program used r)
  unfolding MayBe scan_key
  row-MayBe hash used (err e) g = tt
  row-MayBe hash used (ok none) g = tt
  row-MayBe hash used (ok (some row)) g = go row.revoked_at refl
    where
      go :
          (o : Option ℕ)
          → row.revoked_at ≡ o
          → Promises W G MayBe (live_program o (scan_key row) used)
      go (some at) e = tt
      go none e = stamped-MayBe (scan_key row) used (c.known hash row g e)

  pub verify-MayBe :
      (plain : Str) (now : ℕ) → Promises W G MayBe (verify_program hash_key plain now)
  unfolding verify_program
  verify-MayBe plain now =
      (c.finds (hash_key plain), λ r g. row-MayBe (hash_key plain) (unix now) r g)

  abbrev AnyResult : Result ℕ → Type 0
  AnyResult r = Unit

  prune-AnyResult :
      (n : ℕ) (r : Result ℕ)
      → Promises W G AnyResult (prune_program (retention_of w.config) (t.clock n).prune_at r)
  prune-AnyResult n (err e) = tt
  prune-AnyResult n (ok owner) = elim (Bool-cases (leb_ℤ (retention_of w.config) (pos 0))) [
    | inl off ↦ rw off tt
    | inr on ↦ rw on (
      c.tests (t.clock n).prune_at.since (t.clock n).prune_at.stamp,
      λ due _.
          elim due
            as (λ b.
              Promises W G AnyResult (
                swept_if b owner (cutoff_at (retention_of w.config) (t.clock n).prune_at.cutoff))) [
                  | true ↦ (c.sweeps n on, λ _ _. tt)
                  | false ↦ tt
                ],
    )
  ]

  module _ (key_id : ℕ) (may : May key_id) where
    bind_message-Fits :
        (n : ℕ) (platform : Platform) (msg : Message)
        → is_empty msg.token ≡ false
        → Promises W G (Fits msg.token) (bind_message_program w key_id (t.clock n) platform msg)
    unfolding bind_message_program bind_program
    bind_message-Fits n platform msg h =
        Promises-bind W G AnyResult (Fits msg.token)
          (bind_program key_id (platform_text platform) msg.token (retention_of w.config)
            (t.clock n).bind_at (t.clock n).prune_at)
          _ (c.binds key_id (platform_text platform) msg.token n may, λ r _. prune-AnyResult n r)
          (λ r _. check_owner-Fits w key_id (t.clock n) platform msg r h)

    charge-Fits :
        (n : ℕ) (platform : Platform) (msg : Message)
        → is_empty msg.token ≡ false
        → Promises W G (Fits msg.token) (charge_program w key_id (t.clock n) platform msg)
    unfolding charge_program
    charge-Fits n platform msg h = elim (Bool-cases (is_call msg.kind)) [
      | inr free ↦ rw free (bind_message-Fits n platform msg h)
      | inl call ↦ rw call (
        c.calls key_id (t.clock n).allow_at may,
        λ b _.
            elim b
              as (λ b.
                Promises W G (Fits msg.token)
                  (if_granted (bind_message_program w key_id (t.clock n) platform msg) b)) [
                    | true ↦ bind_message-Fits n platform msg h
                    | false ↦ (h, λ q. cc)
                  ],
      )
    ]

    kind-Fits :
        (n : ℕ) (m : SendMessage) (platform : Platform) (o : Option Kind)
        → is_empty m.token ≡ false
        → Promises W G (Fits m.token) (kind_program w key_id (t.clock n) m platform o)
    kind-Fits n m platform none h = (h, λ q. cc)
    kind-Fits n m platform (some kind) h = charge-Fits n platform _ h

    platform-Fits :
        (n : ℕ) (m : SendMessage) (o : Option Platform)
        → is_empty m.token ≡ false
        → Promises W G (Fits m.token) (platform_program w key_id (t.clock n) m o)
    platform-Fits n m none h = (h, λ q. cc)
    platform-Fits n m (some platform) h = kind-Fits n m platform (parse_kind m.kind) h

    pub look_at-Fits :
        (n : ℕ) (m : SendMessage)
        → Promises W G (Fits m.token) (look_at_program w key_id (t.clock n) m)
    unfolding look_at_program
    look_at-Fits n m = elim (Bool-cases (is_empty m.token)) [
      | inl gone ↦ rw gone gone
      | inr here ↦ elim (Bool-cases (ltb max_payload_bytes (length m.payload))) [
        | inl large ↦ rw (here, large) (here, λ q. cc)
        | inr small ↦ rw (here, small) (platform-Fits n m (parse_platform m.platform) here)
      ]
    ]
