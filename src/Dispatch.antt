-- ===== src/Dispatch.antt =====
-- `dispatch` of internal/api/send.go: the bounded worker pool under a deadline.
pub mod Pool
pub mod Invariant
pub mod Refines
pub mod Progress
pub mod Marked
mod Tests
use slim_m_relay.Prelude.{
  ℕ, zero, suc, ◌+◌, ◌<◌, ◌≤◌, ◌≡◌, Bool, true, false, Option, none, some, List, [], ◌∷◌, length,
  get_elem?, set, leb, ltb, ◌==◌, if◌then◌else◌,
}
use slim_m_relay.Prelude.Int.{ℤ, pos, leb_ℤ, ltb_ℤ, pos_part}
use slim_m_relay.Push.{Message, Status, blank, error, not_attempted, Outcome, Sender}

-- dispatchItem
pub record Item : Type 0 where
  pub result_idx : ℕ
  pub sender : Sender
  pub msg : Message

-- `out[0].Status`, or an error for an empty answer
unfoldable pub status_of : List Outcome → Status
status_of [] = error
status_of (r ∷ rest) = r.status

-- what a worker writes for item `n`
unfoldable pub attempt : ℕ → Item → Outcome
unfolding status_of
attempt n item = record {
  token = item.msg.token;
  status = status_of (item.sender.send n (item.msg ∷ []));
}

-- SendConcurrency, at least one and at most one for each item
unfoldable pub worker_count : ℤ → ℕ → ℕ
worker_count concurrency n =
    let workers : ℤ = if leb_ℤ concurrency (pos 0) then pos 1 else concurrency in
    if ltb_ℤ (pos n) workers then n else pos_part workers

abbrev pub is_blank : Option Outcome → Bool
is_blank none = false
is_blank (some r) = elim r.status [ blank ↦ true | _ ↦ false ]

-- the loop behind `wg.Wait()`
unfoldable pub mark_not_attempted : List Item → List Outcome → List Outcome
mark_not_attempted [] results = results
mark_not_attempted (item ∷ items) results = mark_not_attempted items (
    if is_blank (get_elem? results item.result_idx)
    then set results item.result_idx (record { token = item.msg.token; status = not_attempted })
    else results)

-- One order of the workers: the first `cut` items from number `n` on, one after another.
unfoldable pub attempt_from : ℕ → ℕ → List Item → List Outcome → List Outcome
attempt_from n zero items results = results
attempt_from n (suc cut) [] results = results
attempt_from n (suc cut) (item ∷ items) results =
    attempt_from (suc n) cut items (set results item.result_idx (attempt n item))

-- `dispatch` when the deadline cuts the feed off after `cut` items
unfoldable pub dispatch : ℕ → List Item → List Outcome → List Outcome
unfolding attempt_from mark_not_attempted
dispatch cut items results = mark_not_attempted items (attempt_from 0 cut items results)
