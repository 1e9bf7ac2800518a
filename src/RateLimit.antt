-- ===== src/RateLimit.antt =====
-- internal/ratelimit/ratelimit.go: token buckets. Times are nanoseconds of the process's monotonic
-- clock, whose readings, taken under the limiter's mutex, do not go back. The float64 amounts are
-- exact here, in units of 1/3,600,000,000,000 token: then a rate of r tokens an hour adds r units
-- each nanosecond.
pub mod Level
pub mod Budget
pub mod Bound
pub mod Ledger
pub mod Eviction
mod Tests
use slim_m_relay.Prelude.{
  ℕ, ◌+◌, ◌-◌, ◌<◌, Bool, true, false, not, Option, none, some, List, [], ◌∷◌, keep, ltb,
  if◌then◌else◌,
}
use slim_m_relay.Prelude.Int.{ℤ, pos, negsuc, ◌+ℤ◌, ◌-ℤ◌, ◌*ℤ◌, ltb_ℤ, leb_ℤ}
use slim_m_relay.Prelude.Assoc.{Assoc, lookup, insert}
use slim_m_relay.Text.{Str}

abbrev pub token_unit : ℕ
token_unit = 3600000000000

-- five minutes
abbrev pub evict_interval : ℕ
evict_interval = 300000000000

-- ten minutes
abbrev pub idle_limit : ℕ
idle_limit = 600000000000

pub record Bucket : Type 0 where
  pub tokens : ℤ
  pub last : ℕ

pub record Limiter : Type 0 where
  pub buckets : Assoc Bucket
  pub rate : ℤ
  pub burst : ℤ
  pub last_evict : ℕ

-- `New(perHour / 60.0, burst)`
unfoldable pub new : ℤ → ℤ → ℕ → Limiter
unfolding ◌*ℤ◌
new per_hour burst now = record {
  buckets = [];
  rate = per_hour;
  burst = burst *ℤ pos token_unit;
  last_evict = now;
}

-- `!b.last.Before(now.Add(-10 * time.Minute))`
abbrev pub is_recent : ℕ → Str × Bucket → Bool
is_recent now (k, b) = not (ltb (b.last + idle_limit) now)

unfoldable pub evict_idle : Limiter → ℕ → Limiter
evict_idle l now = record l { buckets = keep (is_recent now) l.buckets }

unfoldable pub sweep : Limiter → ℕ → Limiter
sweep l now =
    if ltb evict_interval (now - l.last_evict)
    then record (evict_idle l now) { last_evict = now }
    else l

-- `if b.tokens > l.burst { b.tokens = l.burst }`
unfoldable pub cap_tokens : ℤ → ℤ → ℤ
cap_tokens burst tokens = if ltb_ℤ burst tokens then burst else tokens

unfoldable pub refill : Limiter → Bucket → ℕ → ℤ
unfolding cap_tokens ◌+ℤ◌ ◌*ℤ◌
refill l b now = cap_tokens l.burst (b.tokens +ℤ pos (now - b.last) *ℤ l.rate)

-- the bucket's branch of `Allow`, after the sweep
unfoldable pub spend : Limiter → Str → ℕ → Option Bucket → Limiter × Bool
unfolding refill ◌-ℤ◌
spend l key now none = (
  record l {
    buckets = insert key (record { tokens = l.burst -ℤ pos token_unit; last = now }) l.buckets;
  },
  true,
)
spend l key now (some b) =
    let tokens = refill l b now in
    let ok = leb_ℤ (pos token_unit) tokens in
    (
      record l {
        buckets =
            insert key
              (record { tokens = if ok then tokens -ℤ pos token_unit else tokens; last = now })
              l.buckets;
      },
      ok,
    )

unfoldable pub allow : Limiter → Str → ℕ → Limiter × Bool
unfolding spend sweep evict_idle
allow l key now = let swept = sweep l now in spend swept key now (lookup key swept.buckets)

-- `Return`
unfoldable pub give_back : Limiter → Str → Limiter
unfolding cap_tokens ◌+ℤ◌
give_back l key = elim (lookup key l.buckets) [
  | none ↦ l
  | some b ↦ record l {
    buckets =
        insert key (record b { tokens = cap_tokens l.burst (b.tokens +ℤ pos token_unit) })
          l.buckets;
  }
]
