-- ===== src/RateLimit/Eviction.antt =====
-- What the sweep of internal/ratelimit/ratelimit.go does where the rate is slow, as that of the
-- registrations is (RELAY_REGISTER_PER_HOUR).
use slim_m_relay.Prelude.{
  ℕ, ◌+◌, ◌-◌, ◌<◌, ◌≤◌, ◌≡◌, refl, ◌∙◌, ap, Bool, true, none, some, leb, ltb, arith, lt→ltb,
  le→leb, if◌then◌else◌, [], ◌∷◌,
}
use slim_m_relay.Prelude.Int.{pos, ◌+ℤ◌, ◌-ℤ◌, ◌*ℤ◌}
use slim_m_relay.Prelude.Assoc.{lookup, insert, kept, lookup-keep}
use slim_m_relay.Text.{Str, str_eq, str_eq_refl, codes}
use slim_m_relay.RateLimit.{
  token_unit, idle_limit, evict_interval, is_recent, Bucket, Limiter, sweep, evict_idle, spend,
  allow, new,
}
use slim_m_relay.RateLimit.Level.{IsLimiter, level, level-filled, filled_or, sweep-IsLimiter}
use slim_m_relay.RateLimit.Budget.{spend-granted, spend-level, paid}
use slim_m_relay.RateLimit.Bound.{admitted, Requests}

module _ (r b : ℕ) where
  dropped :
      (l : Limiter) (k : Str) (x : Bucket) (t now : ℕ)
      → IsLimiter r b t l
      → lookup k l.buckets ≡ some x
      → x.last + idle_limit < now
      → lookup k (evict_idle l now).buckets ≡ none
  unfolding evict_idle
  dropped l k x t now v e stale =
      lookup-keep (is_recent now) k l.buckets v.is_map
      ∙ ap (kept (is_recent now) k) e
      ∙ ground arith

  swept_away :
      (l : Limiter) (k : Str) (x : Bucket) (t now : ℕ)
      → IsLimiter r b t l
      → lookup k l.buckets ≡ some x
      → x.last + idle_limit < now
      → l.last_evict + evict_interval < now
      → lookup k (sweep l now).buckets ≡ none
  unfolding sweep
  swept_away l k x t now v e stale due =
      let due' : ltb evict_interval (now - l.last_evict) ≡ true = lt→ltb _ _ (omega arith) in
      rw due' (dropped l k x t now v e stale)

  -- Once a key has been idle for ten minutes and a sweep is due, its next request is granted and it
  -- is left with the burst less one token, whatever the rate and whatever its bucket held. The limiter
  -- is well formed, its burst holds a token, and the clock does not go back.
  pub evict_refills :
      (l : Limiter) (k : Str) (x : Bucket) (t now : ℕ)
      → token_unit ≤ b
      → t ≤ now
      → IsLimiter r b t l
      → lookup k l.buckets ≡ some x
      → x.last + idle_limit < now
      → l.last_evict + evict_interval < now
      → ((allow l k now).1 ≡ true) × (level (allow l k now).0 k now + token_unit ≡ b)
  unfolding allow
  evict_refills l k x t now big h v e stale due =
      let s = sweep l now in
      let w : IsLimiter r b now s = sweep-IsLimiter r b l t now h v in
      let full : level s k now ≡ b =
        level-filled r b s k now now w
        ∙ ap (filled_or r b now) (swept_away l k x t now v e stale due) in
      let o = lookup k s.buckets in
      let granted : (spend s k now o).1 ≡ true =
        spend-granted r b s k now o big w refl ∙ ap (leb token_unit) full ∙ le→leb _ _ big in
      let left : level (spend s k now o).0 k now ≡ paid (spend s k now o).1 (level s k now) =
        spend-level r b s k k now o big w refl
        ∙ ap (λ (c : Bool). if c then paid (spend s k now o).1 (level s k now) else level s k now)
            (str_eq_refl k) in
      (granted, omega (arith, left ∙ ap (λ (c : Bool). paid c (level s k now)) granted))

-- three registrations at the start, and three more ten minutes later, from one address
abbrev slow_address : Requests
slow_address =
    (codes "ip", 1)
    ∷ (codes "ip", 1)
    ∷ (codes "ip", 1)
    ∷ (codes "ip", 600000000002)
    ∷ (codes "ip", 600000000002)
    ∷ (codes "ip", 600000000002)
    ∷ []

-- With the default 5 an hour and burst of 3 all six pass, where the rate and burst bring less than
-- four by then.
slow_address-admitted : admitted (codes "ip") (new (pos 5) (pos 3) 1) slow_address ≡ 6
unfolding admitted allow new str_eq lookup insert ◌+ℤ◌ ◌-ℤ◌ ◌*ℤ◌
slow_address-admitted = refl
