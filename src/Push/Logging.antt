-- ===== src/Push/Logging.antt =====
-- How often the senders without credentials of internal/push/push.go write to the log.
use slim_m_relay.Prelude.{
  ℕ, ◌+◌, ◌≡◌, refl, true, false, ◌&&◌, Option, none, some, List, [], ◌∷◌, if◌then◌else◌,
  Bool-cases, inl, inr, arith,
}
use slim_m_relay.Text.{Str, codes, str_eq, str_eq_iff}
use slim_m_relay.Push.{is_logged, log_rejection}

-- the lines that name `p` while messages are rejected for one platform after another
unfoldable pub lines : Str → Option (List Str) → List Str → ℕ
unfolding log_rejection
lines p scope [] = 0
lines p scope (q ∷ qs) =
    let (scope', line) = log_rejection q scope in
    (if line && str_eq q p then 1 else 0) + lines p scope' qs

lines-scope :
    (p : Str) (scope qs : List Str)
    → lines p (some scope) qs ≡ (if is_logged p scope then 0 else if is_logged p qs then 1 else 0)
unfolding lines is_logged log_rejection
lines-scope p scope [] = elim (Bool-cases (is_logged p scope)) [
  | inl old ↦ rw old refl
  | inr new ↦ rw new refl
]
lines-scope p scope (q ∷ qs) = elim (Bool-cases (str_eq q p)) [
  | inl same ↦
      let own : q ≡ p = (str_eq_iff q p).0 same in
      elim (Bool-cases (is_logged p scope)) [
        | inl old ↦
            let at_q : is_logged q scope ≡ true = rw own old in
            rw (at_q, same, old) (rw (lines-scope p scope qs, old) refl)
        | inr new ↦
            let at_q : is_logged q scope ≡ false = rw own new in
            rw (at_q, same, new) (rw (lines-scope p (q ∷ scope) qs, same) refl)
      ]
  | inr other ↦ elim (Bool-cases (is_logged q scope)) [
    | inl old ↦ rw (old, other) (omega (arith, lines-scope p scope qs))
    | inr new ↦
        let rest = lines-scope p (q ∷ scope) qs in rw (new, other) (omega (arith, rw other at rest))
  ]
]

-- In the scope of one request a platform's rejection is logged once if it rejects a message at all,
-- however many messages are rejected and in whatever order.
pub lines-eq : (p : Str) (qs : List Str) → lines p (some []) qs ≡ (if is_logged p qs then 1 else 0)
unfolding is_logged
lines-eq p qs = lines-scope p [] qs

lines_samples :
    (lines (codes "fcm") (some []) (codes "fcm" ∷ codes "apns" ∷ codes "fcm" ∷ []) ≡ 1)
    × (lines (codes "fcm") none (codes "fcm" ∷ codes "apns" ∷ codes "fcm" ∷ []) ≡ 2)
unfolding lines str_eq log_rejection
lines_samples = (refl, refl)
