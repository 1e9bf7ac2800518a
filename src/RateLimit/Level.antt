-- ===== src/RateLimit/Level.antt =====
-- The limiter of internal/ratelimit/ratelimit.go against an abstract budget: `level l k now` is what
-- key `k` could spend at `now`, where a key with no bucket has a full budget.
use slim_m_relay.Prelude.{
  ℕ, ◌+◌, ◌-◌, ◌*◌, ◌<◌, ◌≤◌, ◌≡◌, refl, ◌∙◌, sym, ap, Option, none, some, ltb, min, arith,
  Bool-cases, inl, inr,
}
use slim_m_relay.Prelude.Int.{pos, pos_part, neg_part}
use slim_m_relay.Prelude.Assoc.{lookup, IsMap, keep-IsMap, kept, lookup-keep}
use slim_m_relay.Text.{Str}
use slim_m_relay.RateLimit.{
  evict_interval, idle_limit, Bucket, Limiter, is_recent, evict_idle, sweep, refill,
}

-- what a bucket may be, under a burst of `b` units, at time `now`
pub record IsBucket (b now : ℕ) (x : Bucket) : Type 0 where
  pub solvent : neg_part x.tokens ≡ 0
  pub capped : pos_part x.tokens ≤ b
  pub past : x.last ≤ now

pub record IsLimiter (r b now : ℕ) (l : Limiter) : Type 0 where
  pub rate_eq : l.rate ≡ pos r
  pub burst_eq : l.burst ≡ pos b
  pub is_map : IsMap l.buckets
  pub at_key : (k : Str) (x : Bucket) → lookup k l.buckets ≡ some x → IsBucket b now x

abbrev pub level_of : Limiter → ℕ → Option Bucket → ℕ
level_of l now none = pos_part l.burst
level_of l now (some x) = pos_part (refill l x now)

pub level : Limiter → Str → ℕ → ℕ
level l k now = level_of l now (lookup k l.buckets)

-- what the bucket of `x` holds at `now`
abbrev pub filled : ℕ → ℕ → Bucket → ℕ → ℕ
filled r b x now = min b (pos_part x.tokens + (now - x.last) * r)

abbrev pub filled_or : ℕ → ℕ → ℕ → Option Bucket → ℕ
filled_or r b now none = b
filled_or r b now (some x) = filled r b x now

mul_mono : (r : ℕ) {m n : ℕ} → m ≤ n → m * r ≤ n * r
mul_mono r h = grind arith

module _ (r b : ℕ) where
  pub refill-filled :
      (l : Limiter) (x : Bucket) (t now : ℕ)
      → l.rate ≡ pos r
      → l.burst ≡ pos b
      → IsBucket b t x
      → refill l x now ≡ pos (filled r b x now)
  unfolding refill
  refill-filled l x t now e f h = rw (e, f) (ground arith)

  IsBucket-later : (t now : ℕ) (x : Bucket) → t ≤ now → IsBucket b t x → IsBucket b now x
  IsBucket-later t now x h v = record { solvent = v.solvent; capped = v.capped; past = omega arith }

  pub IsLimiter-later :
      (t now : ℕ) (l : Limiter) → t ≤ now → IsLimiter r b t l → IsLimiter r b now l
  IsLimiter-later t now l h v = record {
    rate_eq = v.rate_eq;
    burst_eq = v.burst_eq;
    is_map = v.is_map;
    at_key = λ k x e. IsBucket-later t now x h (v.at_key k x e);
  }

  -- a bucket that has been idle for `idle_limit` is full, where the rate fills it in that time
  stale_full :
      (x : Bucket) (now : ℕ) → b ≤ idle_limit * r → x.last + idle_limit < now → filled r b x now ≡ b
  stale_full x now full h =
      let more : idle_limit * r ≤ (now - x.last) * r = mul_mono r (omega arith) in omega arith

  -- the level of a limiter's bucket, through the facts that `level_of` reads
  level_of-filled :
      (l : Limiter) (o : Option Bucket) (t now : ℕ)
      → l.rate ≡ pos r
      → l.burst ≡ pos b
      → ((x : Bucket) → o ≡ some x → IsBucket b t x)
      → level_of l now o ≡ filled_or r b now o
  level_of-filled l none t now e f h = ap pos_part f
  level_of-filled l (some x) t now e f h = ap pos_part (refill-filled l x t now e f (h x refl))

  evicted_level :
      (now : ℕ) (k : Str) (o : Option Bucket)
      → b ≤ idle_limit * r
      → filled_or r b now (kept (is_recent now) k o) ≡ filled_or r b now o
  evicted_level now k none full = refl
  evicted_level now k (some x) full = ground (arith, stale_full x now)

  pub evict_idle-IsLimiter :
      (l : Limiter) (t now : ℕ) → t ≤ now → IsLimiter r b t l → IsLimiter r b now (evict_idle l now)
  unfolding evict_idle
  evict_idle-IsLimiter l t now h v = record {
    rate_eq = v.rate_eq;
    burst_eq = v.burst_eq;
    is_map = keep-IsMap (is_recent now) l.buckets v.is_map;
    at_key = λ k x e. IsBucket-later t now x h (
        v.at_key k x (
          kept-some k x (lookup k l.buckets)
            (sym (lookup-keep (is_recent now) k l.buckets v.is_map) ∙ e)));
  }
    where
      kept-some :
          (k : Str) (x : Bucket) (o : Option Bucket)
          → kept (is_recent now) k o ≡ some x
          → o ≡ some x
      kept-some k x none e = cc
      kept-some k x (some y) e = ground arith

  pub level-filled :
      (l : Limiter) (k : Str) (t now : ℕ)
      → IsLimiter r b t l
      → level l k now ≡ filled_or r b now (lookup k l.buckets)
  unfolding level
  level-filled l k t now v =
      level_of-filled l (lookup k l.buckets) t now v.rate_eq v.burst_eq (v.at_key k)

  evict_idle-level :
      (l : Limiter) (k : Str) (t now : ℕ)
      → b ≤ idle_limit * r
      → t ≤ now
      → IsLimiter r b t l
      → level (evict_idle l now) k now ≡ level l k now
  unfolding evict_idle
  evict_idle-level l k t now full h v =
      level-filled (evict_idle l now) k now now (evict_idle-IsLimiter l t now h v)
      ∙ ap (filled_or r b now) (lookup-keep (is_recent now) k l.buckets v.is_map)
      ∙ evicted_level now k (lookup k l.buckets) full
      ∙ sym (level-filled l k t now v)

  -- Where the rate fills a bucket within `idle_limit`, the sweep changes no level.
  pub sweep-level :
      (l : Limiter) (k : Str) (t now : ℕ)
      → b ≤ idle_limit * r
      → t ≤ now
      → IsLimiter r b t l
      → level (sweep l now) k now ≡ level l k now
  unfolding sweep level refill
  sweep-level l k t now full h v = elim (Bool-cases (ltb evict_interval (now - l.last_evict))) [
    | inl due ↦ rw due (evict_idle-level l k t now full h v)
    | inr early ↦ rw early refl
  ]

  pub sweep-IsLimiter :
      (l : Limiter) (t now : ℕ) → t ≤ now → IsLimiter r b t l → IsLimiter r b now (sweep l now)
  unfolding sweep
  sweep-IsLimiter l t now h v = elim (Bool-cases (ltb evict_interval (now - l.last_evict))) [
    | inl due ↦ rw due (
        let w = evict_idle-IsLimiter l t now h v in
        record { rate_eq = w.rate_eq; burst_eq = w.burst_eq; is_map = w.is_map; at_key = w.at_key })
    | inr early ↦ rw early (IsLimiter-later t now l h v)
  ]
