-- ===== src/RateLimit/Budget.antt =====
-- What `Allow` and `Return` of internal/ratelimit/ratelimit.go do to the levels.
use slim_m_relay.Prelude.{
  ℕ, ◌+◌, ◌-◌, ◌*◌, ◌≤◌, ◌≡◌, refl, ◌∙◌, sym, ap, Bool, true, false, Option, none, some, leb, min,
  arith, if◌then◌else◌, Option-cases, Bool-cases, inl, inr, ◌⊎◌,
}
use slim_m_relay.Prelude.Int.{pos, ◌+ℤ◌, ◌-ℤ◌, leb_ℤ}
use slim_m_relay.Prelude.Assoc.{lookup, insert, lookup-insert, insert-IsMap}
use slim_m_relay.Text.{Str, str_eq, str_eq_iff}
use slim_m_relay.RateLimit.{
  token_unit, idle_limit, Bucket, Limiter, sweep, cap_tokens, refill, spend, allow, give_back,
}
use slim_m_relay.RateLimit.Level.{
  IsBucket, IsLimiter, level, filled, filled_or, refill-filled, level-filled, sweep-level,
  sweep-IsLimiter,
}

-- the limiter with key `k`'s bucket replaced
abbrev pub with_bucket : Limiter → Str → Bucket → Limiter
with_bucket l k y = record l { buckets = insert k y l.buckets }

-- the abstract budget: a key may act while a whole token is left, and pays one
abbrev pub paid : Bool → ℕ → ℕ
paid ok n = if ok then n - token_unit else n

module _ (r b : ℕ) where
  pub with_bucket-IsLimiter :
      (l : Limiter) (k : Str) (y : Bucket) (now : ℕ)
      → IsBucket b now y
      → IsLimiter r b now l
      → IsLimiter r b now (with_bucket l k y)
  with_bucket-IsLimiter l k y now fresh v = record {
    rate_eq = v.rate_eq;
    burst_eq = v.burst_eq;
    is_map = insert-IsMap k y l.buckets v.is_map;
    at_key = λ j x e. pick j x (Bool-cases (str_eq k j)) (sym (lookup-insert k j y l.buckets) ∙ e);
  }
    where
      pick :
          (j : Str) (x : Bucket)
          → (str_eq k j ≡ true) ⊎ (str_eq k j ≡ false)
          → (if str_eq k j then some y else lookup j l.buckets) ≡ some x
          → IsBucket b now x
      pick j x (inl same) e = ground (arith, fresh)
      pick j x (inr other) e = v.at_key j x (ground arith)

  with_bucket-level :
      (l : Limiter) (k j : Str) (y : Bucket) (now : ℕ)
      → IsBucket b now y
      → IsLimiter r b now l
      → level (with_bucket l k y) j now ≡ (if str_eq k j then filled r b y now else level l j now)
  with_bucket-level l k j y now fresh v =
      level-filled r b (with_bucket l k y) j now now (with_bucket-IsLimiter l k y now fresh v)
      ∙ ap (filled_or r b now) (lookup-insert k j y l.buckets)
      ∙ pick (Bool-cases (str_eq k j))
    where
      pick :
          (str_eq k j ≡ true) ⊎ (str_eq k j ≡ false)
          → filled_or r b now (if str_eq k j then some y else lookup j l.buckets)
            ≡ (if str_eq k j then filled r b y now else level l j now)
      pick (inl same) = rw same refl
      pick (inr other) = rw other (sym (level-filled r b l j now now v))

  bucket_step :
      (l : Limiter) (k j : Str) (now : ℕ) (o : Option Bucket)
      → token_unit ≤ b
      → IsLimiter r b now l
      → lookup k l.buckets ≡ o
      → (y : Bucket) × (ok : Bool) × (spend l k now o ≡ (with_bucket l k y, ok))
        × IsBucket b now y
        × (ok ≡ leb token_unit (level l k now))
        × (filled r b y now ≡ paid ok (level l k now))
  unfolding spend
  bucket_step l k j now none big v e =
      let h : level l k now ≡ b = level-filled r b l k now now v ∙ ap (filled_or r b now) e in
      let f : l.burst ≡ pos b = v.burst_eq in
      (
        record { tokens = l.burst -ℤ pos token_unit; last = now },
        true,
        refl,
        ground arith,
        ground arith,
        ground arith,
      )
  bucket_step l k j now (some x) big v e =
      let h : level l k now ≡ filled r b x now =
        level-filled r b l k now now v ∙ ap (filled_or r b now) e in
      let f : refill l x now ≡ pos (filled r b x now) =
        refill-filled r b l x now now v.rate_eq v.burst_eq (v.at_key k x e) in
      let ok = leb_ℤ (pos token_unit) (refill l x now) in
      (
        record {
          tokens = if ok then refill l x now -ℤ pos token_unit else refill l x now;
          last = now;
        },
        ok,
        refl,
        ground arith,
        ground arith,
        ground arith,
      )

  pub spend-IsLimiter :
      (l : Limiter) (k : Str) (now : ℕ) (o : Option Bucket)
      → token_unit ≤ b
      → IsLimiter r b now l
      → lookup k l.buckets ≡ o
      → IsLimiter r b now (spend l k now o).0
  spend-IsLimiter l k now o big v e =
      let (y, ok, eq, fresh, _, _) = bucket_step l k k now o big v e in
      rw eq (with_bucket-IsLimiter l k y now fresh v)

  pub spend-granted :
      (l : Limiter) (k : Str) (now : ℕ) (o : Option Bucket)
      → token_unit ≤ b
      → IsLimiter r b now l
      → lookup k l.buckets ≡ o
      → (spend l k now o).1 ≡ leb token_unit (level l k now)
  spend-granted l k now o big v e =
      let (y, ok, eq, _, granted, _) = bucket_step l k k now o big v e in rw eq granted

  pub spend-level :
      (l : Limiter) (k j : Str) (now : ℕ) (o : Option Bucket)
      → token_unit ≤ b
      → IsLimiter r b now l
      → lookup k l.buckets ≡ o
      → level (spend l k now o).0 j now
        ≡ (if str_eq k j then paid (spend l k now o).1 (level l j now) else level l j now)
  spend-level l k j now o big v e =
      let (y, ok, eq, fresh, _, left) = bucket_step l k k now o big v e in
      rw eq (with_bucket-level l k j y now fresh v ∙ pick y ok left (Bool-cases (str_eq k j)))
    where
      pick :
          (y : Bucket) (ok : Bool)
          → filled r b y now ≡ paid ok (level l k now)
          → (str_eq k j ≡ true) ⊎ (str_eq k j ≡ false)
          → (if str_eq k j then filled r b y now else level l j now)
            ≡ (if str_eq k j then paid ok (level l j now) else level l j now)
      pick y ok left (inl same) = rw (same, ← (str_eq_iff k j).0 same) left
      pick y ok left (inr other) = rw other refl

  -- `Allow` is the abstract budget: it grants exactly when the key's level holds a whole token,
  -- takes that token, and changes no other key's level. The rate has to fill a bucket within the
  -- ten minutes after which an idle one is dropped, the burst has to hold a token, and the clock does
  -- not go back.
  pub allow-level :
      (l : Limiter) (k j : Str) (t now : ℕ)
      → token_unit ≤ b
      → b ≤ idle_limit * r
      → t ≤ now
      → IsLimiter r b t l
      → ((allow l k now).1 ≡ leb token_unit (level l k now))
        × (level (allow l k now).0 j now
            ≡ (if str_eq k j then paid (allow l k now).1 (level l j now) else level l j now))
        × IsLimiter r b now (allow l k now).0
  unfolding allow
  allow-level l k j t now big full h v =
      let s = sweep l now in
      let w : IsLimiter r b now s = sweep-IsLimiter r b l t now h v in
      (
        spend-granted s k now (lookup k s.buckets) big w refl
            ∙ ap (leb token_unit) (sweep-level r b l k t now full h v),
        rw (← sweep-level r b l j t now full h v)
            (spend-level s k j now (lookup k s.buckets) big w refl),
        spend-IsLimiter s k now (lookup k s.buckets) big w refl,
      )

  refund : Limiter → Bucket → Bucket
  unfolding cap_tokens ◌+ℤ◌
  refund l x = record x { tokens = cap_tokens l.burst (x.tokens +ℤ pos token_unit) }

  refund-IsBucket :
      (l : Limiter) (x : Bucket) (now : ℕ)
      → l.burst ≡ pos b
      → IsBucket b now x
      → IsBucket b now (refund l x)
  unfolding refund
  refund-IsBucket l x now f h = rw f (ground arith)

  refund-filled :
      (l : Limiter) (x : Bucket) (now : ℕ)
      → l.burst ≡ pos b
      → IsBucket b now x
      → filled r b (refund l x) now ≡ min b (filled r b x now + token_unit)
  unfolding refund
  refund-filled l x now f h = rw f (ground arith)

  -- In a limiter that is well formed, `Return` refunds one token to its key, up to the burst, and changes no other key's level; a key
  -- without a bucket has a full budget before and after.
  pub give_back-level :
      (l : Limiter) (k j : Str) (now : ℕ)
      → IsLimiter r b now l
      → (level (give_back l k) j now
          ≡ (if str_eq k j then min b (level l j now + token_unit) else level l j now))
        × IsLimiter r b now (give_back l k)
  unfolding give_back refund
  give_back-level l k j now v = elim (Option-cases (lookup k l.buckets)) [
    | inl e ↦ rw (e, give_back) (absent e (Bool-cases (str_eq k j)), v)
    | inr (x, e) ↦
        let fresh : IsBucket b now (refund l x) =
          refund-IsBucket l x now v.burst_eq (v.at_key k x e) in
        rw (e, give_back)
          (
            with_bucket-level l k j (refund l x) now fresh v
                ∙ present x e (Bool-cases (str_eq k j)),
            with_bucket-IsLimiter l k (refund l x) now fresh v,
          )
  ]
    where
      absent :
          lookup k l.buckets ≡ none
          → (str_eq k j ≡ true) ⊎ (str_eq k j ≡ false)
          → level l j now
            ≡ (if str_eq k j then min b (level l j now + token_unit) else level l j now)
      absent e (inl same) =
          let full : level l k now ≡ b =
            level-filled r b l k now now v ∙ ap (filled_or r b now) e in
          rw (same, ← (str_eq_iff k j).0 same) (omega arith)
      absent e (inr other) = rw other refl

      present :
          (x : Bucket)
          → lookup k l.buckets ≡ some x
          → (str_eq k j ≡ true) ⊎ (str_eq k j ≡ false)
          → (if str_eq k j then filled r b (refund l x) now else level l j now)
            ≡ (if str_eq k j then min b (level l j now + token_unit) else level l j now)
      present x e (inl same) =
          let had : level l k now ≡ filled r b x now =
            level-filled r b l k now now v ∙ ap (filled_or r b now) e in
          rw (same, ← (str_eq_iff k j).0 same, had)
            (refund-filled l x now v.burst_eq (v.at_key k x e))
      present x e (inr other) = rw other refl
