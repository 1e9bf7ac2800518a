-- ===== src/RateLimit/Tests.antt =====
-- Runs of the limiter of internal/ratelimit/ratelimit.go, and the theorems at concrete limiters.
use slim_m_relay.Prelude.{
  ◌+◌, ◌*◌, ◌-◌, ◌≤◌, ◌≡◌, refl, true, some, List, [], ◌∷◌, leb, arith, if◌then◌else◌,
}
use slim_m_relay.Prelude.Int.{pos, ◌*ℤ◌, ◌+ℤ◌, ◌-ℤ◌}
use slim_m_relay.Prelude.Assoc.{lookup, insert}
use slim_m_relay.Text.{Str, codes, str_eq}
use slim_m_relay.RateLimit.{token_unit, Limiter, new, allow, give_back, Bucket}
use slim_m_relay.RateLimit.Level.{IsLimiter, level}
use slim_m_relay.RateLimit.Budget.{allow-level, paid}
use slim_m_relay.RateLimit.Bound.{Requests, admitted, new-IsLimiter}
use slim_m_relay.RateLimit.Ledger.{Entry, asks, returns, charged, refunded, ledger_bound}
use slim_m_relay.RateLimit.Eviction.{evict_refills}

-- RELAY_CALL_SEND_PER_MINUTE and RELAY_CALL_SEND_BURST at their defaults
abbrev calls_lim : Limiter
calls_lim = new (pos 600) (pos 2) 0

abbrev ring : Str
ring = codes "7"

-- two calls at once, one too many, and one six seconds later
abbrev rings : Requests
rings = (ring, 1) ∷ (ring, 2) ∷ (ring, 3) ∷ (codes "8", 4) ∷ (ring, 6000000001) ∷ []

rings-admitted : admitted ring calls_lim rings ≡ 3
unfolding admitted allow new str_eq lookup insert ◌+ℤ◌ ◌-ℤ◌ ◌*ℤ◌
rings-admitted = refl

-- the second ring is given back, and its token is there again
abbrev rings_and_back : List Entry
rings_and_back =
    asks ring 1
    ∷ asks ring 2
    ∷ returns ring
    ∷ asks ring 3
    ∷ asks (codes "8") 4
    ∷ asks ring 6000000001
    ∷ []

rings-charged : (charged ring calls_lim rings_and_back ≡ 4) × (refunded ring rings_and_back ≡ 1)
unfolding charged refunded allow give_back new str_eq lookup insert ◌+ℤ◌ ◌-ℤ◌ ◌*ℤ◌
rings-charged = (refl, refl)

ledger_bound_example :
    charged ring calls_lim rings_and_back * token_unit
    ≤ 2 * token_unit + (6000000001 - 0) * 600 + refunded ring rings_and_back * token_unit
ledger_bound_example =
    ledger_bound 600 2 0 6000000001 ring rings_and_back (omega arith) (omega arith) (omega arith)

calls_lim-IsLimiter : IsLimiter 600 (2 * token_unit) 0 calls_lim
calls_lim-IsLimiter = new-IsLimiter 600 2 0

-- after the first ring
abbrev rung : Limiter
rung = (allow calls_lim ring 1).0

allow-level_example :
    ((allow calls_lim ring 1).1 ≡ leb token_unit (level calls_lim ring 1))
    × (level (allow calls_lim ring 1).0 (codes "8") 1 ≡ (
        if str_eq ring (codes "8")
        then paid (allow calls_lim ring 1).1 (level calls_lim (codes "8") 1)
        else level calls_lim (codes "8") 1))
    × IsLimiter 600 (2 * token_unit) 1 (allow calls_lim ring 1).0
allow-level_example =
    allow-level 600 (2 * token_unit) calls_lim ring (codes "8") 0 1 (omega arith) (omega arith)
      (omega arith) calls_lim-IsLimiter

rung-IsLimiter : IsLimiter 600 (2 * token_unit) 1 rung
rung-IsLimiter =
    (allow-level 600 (2 * token_unit) calls_lim ring ring 0 1 (omega arith) (omega arith)
      (omega arith) calls_lim-IsLimiter).2

abbrev rung_bucket : Bucket
rung_bucket = record { tokens = pos token_unit; last = 1 }

rung_has_bucket : lookup ring rung.buckets ≡ some rung_bucket
unfolding allow new str_eq lookup insert ◌+ℤ◌ ◌-ℤ◌ ◌*ℤ◌
rung_has_bucket = refl

rung_swept : rung.last_evict ≡ 0
unfolding allow new str_eq lookup insert ◌+ℤ◌ ◌-ℤ◌ ◌*ℤ◌
rung_swept = refl

evict_refills_example :
    ((allow rung ring 600000000002).1 ≡ true)
    × (level (allow rung ring 600000000002).0 ring 600000000002 + token_unit ≡ 2 * token_unit)
evict_refills_example =
    evict_refills 600 (2 * token_unit) rung ring rung_bucket 1 600000000002 (omega arith)
      (omega arith) rung-IsLimiter rung_has_bucket (omega arith) (rw rung_swept (omega arith))
