-- ===== src/Api/Send/Refunds.antt =====
-- The refund of `refundNotAttemptedCalls` in internal/api/send.go, as the call limiter's budget sees it.
use slim_m_relay.Prelude.{
  ℕ, suc, ◌≤◌, Option, none, some, ◌+◌, ◌*◌, ◌≡◌, refl, Bool, ◌&&◌, List, [], ◌∷◌, get_elem?, min,
  arith, if◌then◌else◌, Bool-cases, inl, inr, ◌∙◌,
}
use slim_m_relay.Prelude.Assoc.{lookup}
use slim_m_relay.Text.{Str, str_eq}
use slim_m_relay.Push.{Outcome}
use slim_m_relay.Dispatch.{Item}
use slim_m_relay.RateLimit.{Bucket, Limiter, give_back, token_unit}
use slim_m_relay.RateLimit.Level.{IsLimiter, level, filled_or, level-filled}
use slim_m_relay.RateLimit.Budget.{give_back-level}
use slim_m_relay.Api.Send.{is_call, is_not_attempted, refund_calls}

abbrev pub is_owed : List Outcome → Item → Bool
is_owed results item = is_call item.msg.kind && is_not_attempted (get_elem? results item.result_idx)

-- the calls among the items that were not attempted
abbrev pub owed : List Outcome → List Item → ℕ
owed results [] = 0
owed results (item ∷ items) =
    let rest = owed results items in if is_owed results item then suc rest else rest

filled_or-le : (r b now : ℕ) (o : Option Bucket) → filled_or r b now o ≤ b
filled_or-le r b now none = omega arith
filled_or-le r b now (some x) = omega arith

level-le : (r b now : ℕ) (l : Limiter) (k : Str) → IsLimiter r b now l → level l k now ≤ b
level-le r b now l k v =
    rw (level-filled r b l k now now v) (filled_or-le r b now (lookup k l.buckets))

-- After a send, the key's budget for calls has back one token for each call that was not attempted,
-- up to the burst, and the other keys' budgets are as before. The limiter is well formed.
pub refund_calls-level :
    (r b : ℕ) (key j : Str) (now : ℕ) (results : List Outcome) (items : List Item) (lim : Limiter)
    → IsLimiter r b now lim
    → (level (refund_calls key items results lim) j now ≡ (
        if str_eq key j
        then min b (level lim j now + owed results items * token_unit)
        else level lim j now))
      × IsLimiter r b now (refund_calls key items results lim)
unfolding refund_calls
refund_calls-level r b key j now results [] lim v =
    let le : level lim j now ≤ b = level-le r b now lim j v in
    (
      elim (Bool-cases (str_eq key j)) [
        | inl own ↦ rw own (omega arith)
        | inr other ↦ rw other refl
      ],
      v,
    )
refund_calls-level r b key j now results (item ∷ items) lim v =
    elim (Bool-cases (is_owed results item)) [
      | inl unpaid ↦
          let (back, v') = give_back-level r b lim key j now v in
          let (rest, v'') = refund_calls-level r b key j now results items (give_back lim key) v' in
          rw unpaid (both (level lim j now) _ _ (owed results items) back rest, v'')
      | inr settled ↦ rw settled (refund_calls-level r b key j now results items lim v)
    ]
  where
    both :
        (x y z n : ℕ)
        → y ≡ (if str_eq key j then min b (x + token_unit) else x)
        → z ≡ (if str_eq key j then min b (y + n * token_unit) else y)
        → z ≡ (if str_eq key j then min b (x + suc n * token_unit) else x)
    both x y z n p q = elim (Bool-cases (str_eq key j)) [
      | inl own ↦ rw own (let p' = rw own at p in let q' = rw own at q in omega arith)
      | inr other ↦ rw other (let p' = rw other at p in let q' = rw other at q in q' ∙ p')
    ]
