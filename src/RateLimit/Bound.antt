-- ===== src/RateLimit/Bound.antt =====
-- What a limiter of internal/ratelimit/ratelimit.go admits over a run of requests.
use slim_m_relay.Prelude.{
  ℕ, ◌+◌, ◌-◌, ◌*◌, ◌≤◌, ◌≡◌, refl, ap, Bool, true, ◌&&◌, List, [], ◌∷◌, leb, arith, if◌then◌else◌,
  Bool-cases, inl, inr, Option, none, some,
}
use slim_m_relay.Prelude.Int.{pos, ◌*ℤ◌}
use slim_m_relay.Prelude.Assoc.{lookup}
use slim_m_relay.Text.{Str, str_eq}
use slim_m_relay.RateLimit.{token_unit, Bucket, Limiter, new, allow}
use slim_m_relay.RateLimit.Level.{IsBucket, IsLimiter, level, level-filled, filled_or}
use slim_m_relay.RateLimit.Budget.{paid}

-- Requests, each for a key at a time, in the order in which they take the mutex.
abbrev pub Requests : Type 0
Requests = List (Str × ℕ)

-- the number of requests for key `k` that are granted
unfoldable pub admitted : Str → Limiter → Requests → ℕ
admitted k l [] = 0
admitted k l ((j, now) ∷ rest) =
    let (l', ok) = allow l j now in (if str_eq j k && ok then 1 else 0) + admitted k l' rest

module _ (r b : ℕ) where
  filled-later :
      (o : Option Bucket) (t now : ℕ)
      → t ≤ now
      → ((x : Bucket) → o ≡ some x → IsBucket b t x)
      → filled_or r b now o ≤ filled_or r b t o + (now - t) * r
  filled-later none t now h v = omega arith
  filled-later (some x) t now h v =
      let past : x.last ≤ t = (v x refl).past in
      let split : now - x.last ≡ (now - t) + (t - x.last) = omega arith in
      omega (arith, ap (λ (n : ℕ). n * r) split)

  -- a level grows by the rate, at most
  pub level-later :
      (l : Limiter) (k : Str) (t now : ℕ)
      → t ≤ now
      → IsLimiter r b t l
      → level l k now ≤ level l k t + (now - t) * r
  level-later l k t now h v = omega (
    arith,
    level-filled r b l k t now v,
    level-filled r b l k t t v,
    filled-later (lookup k l.buckets) t now h (v.at_key k),
  )

  -- what one request for `j` costs key `k`, against the level before it
  pub one_request :
      (j k : Str) (ok : Bool) (n n' m : ℕ)
      → ok ≡ leb token_unit m
      → (str_eq j k ≡ true → m ≡ n)
      → n' ≡ (if str_eq j k then paid ok n else n)
      → (if str_eq j k && ok then 1 else 0) * token_unit + n' ≤ n
  one_request j k ok n n' m e same e' = elim (Bool-cases (str_eq j k)) [
    | inl s ↦ let q : m ≡ n = same s in ground arith
    | inr s ↦ ground arith
  ]

-- A new limiter is full for every key.
pub new-IsLimiter : (r n t : ℕ) → IsLimiter r (n * token_unit) t (new (pos r) (pos n) t)
unfolding new lookup ◌*ℤ◌
new-IsLimiter r n t = record {
  rate_eq = refl;
  burst_eq = ground arith;
  is_map = tt;
  at_key = λ k x e. cc;
}
