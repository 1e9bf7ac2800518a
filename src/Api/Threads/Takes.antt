-- ===== src/Api/Threads/Takes.antt =====
-- How many acts the programs of internal/api and internal/keys do for one message of a send.
use slim_m_relay.Prelude.{
  ℕ, zero, suc, ◌+◌, ◌*◌, ◌≤◌, true, false, Option, none, some, List, [], ◌∷◌, length,
  length-append, ltb, Bool-cases, inl, inr, arith,
}
use slim_m_relay.Prelude.Int.{ℤ, pos, leb_ℤ}
use slim_m_relay.Text.{Str}
use slim_m_relay.Keys.Tables.{KeyRow}
use slim_m_relay.Keys.Sql.{Result, ok, err}
use slim_m_relay.Keys.Store.{Key, Readings, unix, scan_key}
use slim_m_relay.Keys.Changes.{cutoff_at}
use slim_m_relay.Push.{Platform, platform_text, Kind, Message}
use slim_m_relay.Api.Server.{Wiring}
use slim_m_relay.Api.Send.{
  SendMessage, Moment, Verdict, skip, refuse, accept, retention_of, is_call, is_empty,
  max_payload_bytes, parse_platform, parse_kind,
}
use slim_m_relay.Api.Threads.{Answer, Program, finish, act, ◌>>=◌}
use slim_m_relay.Api.Threads.Programs.{
  row_program, live_program, verify_program, swept_if, prune_program, bind_program,
  bind_message_program, if_granted, charge_program, kind_program, platform_program, look_at_program,
  Gathered, gather, loop_program,
}

-- The program does at most `n` acts, whatever they answer, and its result meets `Q`.
abbrev pub Takes : {A : Type 0} → ℕ → (A → Type 0) → Program A → Type 0
Takes n Q (finish x) = Q x
Takes zero Q (act a k) = ⊥
Takes (suc n) Q (act a k) = (x : Answer a) → Takes n Q (k x)

abbrev pub Anything : {A : Type 0} → A → Type 0
Anything x = Unit

pub Takes-le :
    {A : Type 0} (Q : A → Type 0) (m n : ℕ) (p : Program A) → m ≤ n → Takes m Q p → Takes n Q p
Takes-le Q m n (finish x) le h = h
Takes-le Q zero n (act a k) le h = absurd h
Takes-le Q (suc m) zero (act a k) le h = absurd (omega arith)
Takes-le Q (suc m) (suc n) (act a k) le h = λ x. Takes-le Q m n (k x) (omega arith) (h x)

pub Takes-bind :
    {A B : Type 0} (P : A → Type 0) (Q : B → Type 0) (m n total : ℕ) (p : Program A)
    (f : A → Program B)
    → m + n ≤ total
    → Takes m P p
    → ((x : A) → P x → Takes n Q (f x))
    → Takes total Q (p >>= f)
Takes-bind P Q m n total (finish x) f le h g = Takes-le Q n total (f x) (omega arith) (g x h)
Takes-bind P Q zero n total (act a k) f le h g = absurd h
Takes-bind P Q (suc m) n zero (act a k) f le h g = absurd (omega arith)
Takes-bind P Q (suc m) n (suc total) (act a k) f le h g =
    λ x. Takes-bind P Q m n total (k x) f (omega arith) (h x) g

module _ (hash_key : Str → Str) (w : Wiring) where
  live-Takes : (o : Option ℕ) (k : Key) (used : ℕ) → Takes 1 Anything (live_program o k used)
  live-Takes none k used = λ r. tt
  live-Takes (some t) k used = tt

  row-Takes : (used : ℕ) (r : Result (Option KeyRow)) → Takes 1 Anything (row_program used r)
  row-Takes used (err e) = tt
  row-Takes used (ok none) = tt
  row-Takes used (ok (some row)) = live-Takes row.revoked_at (scan_key row) used

  pub verify-Takes : (plain : Str) (now : ℕ) → Takes 2 Anything (verify_program hash_key plain now)
  unfolding verify_program
  verify-Takes plain now = λ r. row-Takes (unix now) r

  prune-Takes :
      (retention : ℤ) (t : Readings) (r : Result ℕ) → Takes 2 Anything (prune_program retention t r)
  prune-Takes retention t (err e) = tt
  prune-Takes retention t (ok owner) = elim (Bool-cases (leb_ℤ retention (pos 0))) [
    | inl off ↦ rw off tt
    | inr on ↦ rw on (λ due.
        elim due as (λ b. Takes 1 Anything (swept_if b owner (cutoff_at retention t.cutoff))) [
          | true ↦ λ r. tt
          | false ↦ tt
        ])
  ]

  bind_message-Takes :
      (key_id : ℕ) (t : Moment) (platform : Platform) (msg : Message)
      → Takes 3 Anything (bind_message_program w key_id t platform msg)
  unfolding bind_message_program bind_program
  bind_message-Takes key_id t platform msg =
      Takes-bind Anything Anything 3 0 3
        (bind_program key_id (platform_text platform) msg.token (retention_of w.config) t.bind_at
          t.prune_at)
        _ (omega arith) (λ r. prune-Takes (retention_of w.config) t.prune_at r) (λ r _. tt)

  charge-Takes :
      (key_id : ℕ) (t : Moment) (platform : Platform) (msg : Message)
      → Takes 4 Anything (charge_program w key_id t platform msg)
  unfolding charge_program
  charge-Takes key_id t platform msg = elim (Bool-cases (is_call msg.kind)) [
    | inr free ↦ rw free (
        Takes-le Anything 3 4 (bind_message_program w key_id t platform msg) (omega arith)
          (bind_message-Takes key_id t platform msg))
    | inl call ↦ rw call (λ granted.
        elim granted
          as (λ b. Takes 3 Anything (if_granted (bind_message_program w key_id t platform msg) b)) [
            | true ↦ bind_message-Takes key_id t platform msg
            | false ↦ tt
          ])
  ]

  kind-Takes :
      (key_id : ℕ) (t : Moment) (m : SendMessage) (platform : Platform) (o : Option Kind)
      → Takes 4 Anything (kind_program w key_id t m platform o)
  kind-Takes key_id t m platform none = tt
  kind-Takes key_id t m platform (some kind) = charge-Takes key_id t platform _

  platform-Takes :
      (key_id : ℕ) (t : Moment) (m : SendMessage) (o : Option Platform)
      → Takes 4 Anything (platform_program w key_id t m o)
  platform-Takes key_id t m none = tt
  platform-Takes key_id t m (some platform) = kind-Takes key_id t m platform (parse_kind m.kind)

  look_at-Takes :
      (key_id : ℕ) (t : Moment) (m : SendMessage) → Takes 4 Anything (look_at_program w key_id t m)
  unfolding look_at_program
  look_at-Takes key_id t m = elim (Bool-cases (is_empty m.token)) [
    | inl gone ↦ rw gone tt
    | inr here ↦ elim (Bool-cases (ltb max_payload_bytes (length m.payload))) [
      | inl large ↦ rw (here, large) tt
      | inr small ↦ rw (here, small) (platform-Takes key_id t m (parse_platform m.platform))
    ]
  ]

  unfoldable pub AtMost : ℕ → Gathered → Type 0
  AtMost n g = length g.items ≤ n

  gather-AtMost :
      (token : Str) (v : Verdict) (g : Gathered) (n : ℕ)
      → AtMost n g
      → AtMost (suc n) (gather token v g)
  unfolding AtMost gather
  gather-AtMost token skip g n h = omega arith
  gather-AtMost token (refuse status) g n h = omega arith
  gather-AtMost token (accept sender msg) g n h = omega (
    arith,
    length-append g.items
        (record { result_idx = length g.results; sender = sender; msg = msg } ∷ []),
  )

  pub loop-Takes :
      (key_id : ℕ) (clock : ℕ → Moment) (n : ℕ) (ms : List SendMessage) (g : Gathered) (m total : ℕ)
      → AtMost m g
      → length ms + m ≤ total
      → Takes (4 * length ms) (AtMost total) (loop_program w key_id clock n ms g)
  unfolding loop_program AtMost
  loop-Takes key_id clock n [] g m total h le = omega arith
  loop-Takes key_id clock n (x ∷ ms) g m total h le =
      Takes-bind Anything (AtMost total) 4 (4 * length ms) (4 * suc (length ms))
        (look_at_program w key_id (clock n) x)
        (λ v. loop_program w key_id clock (suc n) ms (gather x.token v g)) (omega arith)
        (look_at-Takes key_id (clock n) x)
        (λ v _.
          loop-Takes key_id clock (suc n) ms (gather x.token v g) (suc m) total
            (gather-AtMost x.token v g m h) (omega arith))
