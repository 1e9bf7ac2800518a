-- ===== src/Api/Threads/Foreign/Outcomes.antt =====
-- The results of `handleSend` in internal/api/send.go that a device token of another key may get.
use slim_m_relay.Prelude.{
  ℕ, zero, suc, ◌≡◌, ◌≢◌, List, [], ◌∷◌, get_elem?, set, All, All-append, Bool-cases, inl, inr,
}
use slim_m_relay.Text.{Str}
use slim_m_relay.Push.{
  Status, blank, delivered, unregistered, forbidden, error, not_attempted, Outcome,
}
use slim_m_relay.Dispatch.{Item, attempt, attempt_from, mark_not_attempted, is_blank}
use slim_m_relay.Api.Send.{Verdict, skip, refuse, accept}
use slim_m_relay.Api.Threads.Programs.{Gathered, gather}

-- a status that no message gets which is handed to a sender, or waits for one
abbrev pub IsRefusal : Status → Type 0
IsRefusal s = (s ≢ delivered) × (s ≢ unregistered) × (s ≢ not_attempted)

pub error-IsRefusal : IsRefusal error
error-IsRefusal = (λ q. cc, λ q. cc, λ q. cc)

pub forbidden-IsRefusal : IsRefusal forbidden
forbidden-IsRefusal = (λ q. cc, λ q. cc, λ q. cc)

blank-IsRefusal : IsRefusal blank
blank-IsRefusal = (λ q. cc, λ q. cc, λ q. cc)

module _ (token : Str) where
  -- nothing for `token` goes to a sender
  abbrev pub IsSpared : Outcome → Type 0
  IsSpared r = r.token ≡ token → IsRefusal r.status

  abbrev pub IsElsewhere : Item → Type 0
  IsElsewhere item = item.msg.token ≢ token

  set-IsSpared :
      (i : ℕ) (r : Outcome) (rs : List Outcome)
      → IsSpared r
      → All IsSpared rs
      → All IsSpared (set rs i r)
  set-IsSpared i r [] h all = tt
  set-IsSpared zero r (x ∷ rs) h all = (h, all.1)
  set-IsSpared (suc i) r (x ∷ rs) h all = (all.0, set-IsSpared i r rs h all.1)

  pub attempt_from-IsSpared :
      (n cut : ℕ) (items : List Item) (rs : List Outcome)
      → All IsElsewhere items
      → All IsSpared rs
      → All IsSpared (attempt_from n cut items rs)
  unfolding attempt_from attempt
  attempt_from-IsSpared n zero items rs away h = h
  attempt_from-IsSpared n (suc cut) [] rs away h = h
  attempt_from-IsSpared n (suc cut) (item ∷ items) rs away h =
      attempt_from-IsSpared (suc n) cut items (set rs item.result_idx (attempt n item)) away.1
        (set-IsSpared item.result_idx (attempt n item) rs (λ e. absurd (away.0 e)) h)

  pub mark_not_attempted-IsSpared :
      (items : List Item) (rs : List Outcome)
      → All IsElsewhere items
      → All IsSpared rs
      → All IsSpared (mark_not_attempted items rs)
  unfolding mark_not_attempted
  mark_not_attempted-IsSpared [] rs away h = h
  mark_not_attempted-IsSpared (item ∷ items) rs away h =
      elim (Bool-cases (is_blank (get_elem? rs item.result_idx))) [
        | inl empty ↦ rw empty (
            mark_not_attempted-IsSpared items _ away.1
              (set-IsSpared item.result_idx _ rs (λ e. absurd (away.0 e)) h))
        | inr full ↦ rw full (mark_not_attempted-IsSpared items rs away.1 h)
      ]

  -- what a verdict may be
  abbrev pub Spares : Verdict → Type 0
  Spares skip = Unit
  Spares (refuse status) = IsRefusal status
  Spares (accept sender msg) = msg.token ≢ token

  abbrev pub SparedSoFar : Gathered → Type 0
  SparedSoFar g = All IsSpared g.results × All IsElsewhere g.items

  pub gather-SparedSoFar :
      (t : Str) (v : Verdict) (g : Gathered) → Spares v → SparedSoFar g → SparedSoFar (gather t v g)
  unfolding gather
  gather-SparedSoFar t skip g h all = all
  gather-SparedSoFar t (refuse status) g h all =
      (All-append IsSpared g.results _ all.0 ((λ _. h), tt), all.1)
  gather-SparedSoFar t (accept sender msg) g h all = (
    All-append IsSpared g.results _ all.0 ((λ e. blank-IsRefusal), tt),
    All-append IsElsewhere g.items _ all.1 (h, tt),
  )
