-- ===== src/RateLimit/Ledger.antt =====
-- A limiter of internal/ratelimit/ratelimit.go over any run of `Allow` and `Return`.
use slim_m_relay.Prelude.{
  ℕ, ◌+◌, ◌-◌, ◌*◌, ◌≤◌, ◌≡◌, refl, ap, ◌&&◌, List, [], ◌∷◌, ◌++◌, arith, if◌then◌else◌, Bool-cases,
  inl, inr, min,
}
use slim_m_relay.Prelude.Int.{pos}
use slim_m_relay.Prelude.Assoc.{lookup}
use slim_m_relay.Text.{Str, str_eq, str_eq_iff}
use slim_m_relay.RateLimit.{token_unit, idle_limit, Limiter, new, allow, give_back}
use slim_m_relay.RateLimit.Level.{IsLimiter, level, level-filled}
use slim_m_relay.RateLimit.Budget.{allow-level, give_back-level}
use slim_m_relay.RateLimit.Bound.{level-later, one_request, new-IsLimiter}

-- the calls for a key, in the order in which they take the mutex
pub data Entry : Type 0 where
  asks : Str → ℕ → Entry
  returns : Str → Entry

-- the readings of the clock do not go back, from `t` on, and end by `last`
abbrev pub InTurn : ℕ → ℕ → List Entry → Type 0
InTurn t last [] = t ≤ last
InTurn t last (asks k now ∷ rest) = (t ≤ now) × InTurn now last rest
InTurn t last (returns k ∷ rest) = InTurn t last rest

abbrev pub entered : Limiter → Entry → Limiter
entered l (asks k now) = (allow l k now).0
entered l (returns k) = give_back l k

abbrev pub after : Limiter → List Entry → Limiter
after l [] = l
after l (e ∷ rest) = after (entered l e) rest

abbrev pub charge : Str → Limiter → Entry → ℕ
charge k l (asks j now) = if str_eq j k && (allow l j now).1 then 1 else 0
charge k l (returns j) = 0

-- the requests for key `k` that are granted, and the refunds
unfoldable pub charged : Str → Limiter → List Entry → ℕ
charged k l [] = 0
charged k l (e ∷ rest) = charge k l e + charged k (entered l e) rest

abbrev pub refund : Str → Entry → ℕ
refund k (asks j now) = 0
refund k (returns j) = if str_eq j k then 1 else 0

unfoldable pub refunded : Str → List Entry → ℕ
refunded k [] = 0
refunded k (e ∷ rest) = refund k e + refunded k rest

pub after-append :
    (l : Limiter) (es more : List Entry) → after l (es ++ more) ≡ after (after l es) more
after-append l [] more = refl
after-append l (e ∷ es) more = after-append (entered l e) es more

pub charged-append :
    (k : Str) (l : Limiter) (es more : List Entry)
    → charged k l (es ++ more) ≡ charged k l es + charged k (after l es) more
unfolding charged
charged-append k l [] more = omega arith
charged-append k l (e ∷ es) more = omega (arith, charged-append k (entered l e) es more)

pub refunded-append :
    (k : Str) (es more : List Entry) → refunded k (es ++ more) ≡ refunded k es + refunded k more
unfolding refunded
refunded-append k [] more = omega arith
refunded-append k (e ∷ es) more = omega (arith, refunded-append k es more)

InTurn-le : (t last : ℕ) (es : List Entry) → InTurn t last es → t ≤ last
InTurn-le t last [] h = h
InTurn-le t last (asks k now ∷ rest) h =
    let ends : now ≤ last = InTurn-le now last rest h.1 in omega arith
InTurn-le t last (returns k ∷ rest) h = InTurn-le t last rest h

module _ (r b : ℕ) where
  -- a refund for `j` raises the level of `k` by a token at most, and only if they are the same
  one_refund :
      (j k : Str) (n n' : ℕ)
      → n' ≡ (if str_eq j k then min b (n + token_unit) else n)
      → n' ≤ n + (if str_eq j k then 1 else 0) * token_unit
  one_refund j k n n' e = elim (Bool-cases (str_eq j k)) [
    | inl s ↦ ground arith
    | inr s ↦ ground arith
  ]

  charged-level :
      (k : Str) (l : Limiter) (t last : ℕ) (es : List Entry)
      → token_unit ≤ b
      → b ≤ idle_limit * r
      → InTurn t last es
      → IsLimiter r b t l
      → charged k l es * token_unit ≤ level l k t + (last - t) * r + refunded k es * token_unit
  unfolding charged refunded
  charged-level k l t last [] big full h v = omega arith
  charged-level k l t last (asks j now ∷ rest) big full h v =
      let step = allow-level r b l j k t now big full h.0 v in
      let l' = (allow l j now).0 in
      let ok = (allow l j now).1 in
      let cost : (if str_eq j k && ok then 1 else 0) * token_unit + level l' k now ≤ level l k now =
        one_request r b j k ok (level l k now) (level l' k now) (level l j now) step.0
          (λ e. ap (λ (i : Str). level l i now) ((str_eq_iff j k).0 e)) step.1 in
      let times : last - t ≡ (last - now) + (now - t) =
        let ends : now ≤ last = InTurn-le now last rest h.1 in omega arith in
      omega (
        arith,
        charged-level k l' now last rest big full h.1 step.2,
        level-later r b l k t now h.0 v,
        ap (λ (n : ℕ). n * r) times,
      )
  charged-level k l t last (returns j ∷ rest) big full h v =
      let step = give_back-level r b l j k t v in
      let gain = one_refund j k (level l k t) (level (give_back l j) k t) step.0 in
      omega (arith, charged-level k (give_back l j) t last rest big full h step.1)

-- From its start at time `t` to time `last`, a limiter with a rate of `r` tokens an hour and a burst
-- of `n` grants one key at most the burst, what the rate brings, and as many as were returned for it. The
-- burst is at least one token, and the rate brings it within the ten minutes after which an idle bucket
-- is dropped; the readings of the clock do not go back.
pub ledger_bound :
    (r n t last : ℕ) (k : Str) (es : List Entry)
    → 1 ≤ n
    → n * token_unit ≤ idle_limit * r
    → InTurn t last es
    → charged k (new (pos r) (pos n) t) es * token_unit
      ≤ n * token_unit + (last - t) * r + refunded k es * token_unit
unfolding lookup new
ledger_bound r n t last k es some_burst full h =
    let v = new-IsLimiter r n t in
    let start : level (new (pos r) (pos n) t) k t ≡ n * token_unit =
      level-filled r (n * token_unit) (new (pos r) (pos n) t) k t t v in
    let all =
      charged-level r (n * token_unit) k (new (pos r) (pos n) t) t last es (omega arith) full h v in
    omega arith
