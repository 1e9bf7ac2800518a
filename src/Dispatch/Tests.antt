-- ===== src/Dispatch/Tests.antt =====
-- A run of the pool of internal/api/send.go, and the theorems at it.
use slim_m_relay.Prelude.{
  ℕ, zero, suc, ◌+◌, ◌*◌, ◌<◌, ◌≤◌, ◌≡◌, ◌≢◌, refl, ◌⊎◌, true, false, none, some, List, [], ◌∷◌,
  length, get_elem?, set, arith,
}
use slim_m_relay.Prelude.Int.{pos}
use slim_m_relay.Text.{codes}
use slim_m_relay.Push.{
  wake, call, blank, delivered, error, not_attempted, Outcome, Sender, unconfigured,
}
use slim_m_relay.Dispatch.{Item, worker_count, attempt, is_blank, mark_not_attempted, dispatch}
use slim_m_relay.Dispatch.Pool.{
  waiting, sending, sent, update, Pool, start, hand, expire, stop, finish, Reach, here, later,
  IsDone,
}
use slim_m_relay.Dispatch.Invariant.{IsLayout, in_flight}
use slim_m_relay.Dispatch.Refines.{Pool-dispatch}
use slim_m_relay.Dispatch.Marked.{dispatch-at, settled}
use slim_m_relay.Dispatch.Progress.{most, in_flight_bound, pool_drains, steps, steps_bound, left}

abbrev always : Sender
always = record { send = λ n ms. record { token = []; status = delivered } ∷ [] }

abbrev first_item : Item
first_item = record {
  result_idx = 0;
  sender = always;
  msg = record { token = codes "a"; kind = wake; payload = [] };
}

abbrev second_item : Item
second_item = record {
  result_idx = 2;
  sender = unconfigured;
  msg = record { token = codes "b"; kind = call; payload = [] };
}

abbrev two_items : List Item
two_items = first_item ∷ second_item ∷ []

abbrev empty_result : Outcome
empty_result = record { token = []; status = blank }

-- the result between the two was refused in the first loop
abbrev before : List Outcome
before = empty_result ∷ record { token = codes "x"; status = error } ∷ empty_result ∷ []

two_items-IsLayout : IsLayout two_items (length before)
two_items-IsLayout = record { distinct = distinct; within = within }
  where
    within : (n : ℕ) (a : Item) → get_elem? two_items n ≡ some a → a.result_idx < length before
    within zero a e = ground arith
    within (suc zero) a e = ground arith
    within (suc (suc n)) a e = absurd (let no_item : none ≡ some a = e in ground arith)

    distinct :
        (m n : ℕ) (a b : Item)
        → get_elem? two_items m ≡ some a
        → get_elem? two_items n ≡ some b
        → a.result_idx ≡ b.result_idx
        → m ≡ n
    distinct zero zero a b e f q = refl
    distinct zero (suc zero) a b e f q = ground arith
    distinct (suc zero) zero a b e f q = ground arith
    distinct (suc zero) (suc zero) a b e f q = refl
    distinct (suc (suc m)) n a b e f q = absurd (let no_item : none ≡ some a = e in ground arith)
    distinct zero (suc (suc n)) a b e f q = absurd (let no_item : none ≡ some b = f in ground arith)
    distinct (suc zero) (suc (suc n)) a b e f q =
        absurd (let no_item : none ≡ some b = f in ground arith)

abbrev handing : Pool
handing = record (start 1 before) {
  handed = 1;
  idle = 0;
  active = 1;
  phase = update (λ _. waiting) 0 sending;
}

abbrev last_pool : Pool
last_pool = record {
  handed = 1;
  feeding = false;
  expired = true;
  idle = 1;
  active = 0;
  phase = update (update (λ _. waiting) 0 sending) 0 sent;
  results = set before 0 (attempt 0 first_item);
}

-- one worker takes the first item
with_first : Reach two_items (start 1 before) handing
with_first = later here (hand refl (omega arith) (omega arith) refl)

-- and the deadline fires before the second's turn
cut_off : Reach two_items (start 1 before) last_pool
cut_off =
    later
      (later (later {r = record handing { expired = true }} with_first (expire refl refl))
        (finish 0 first_item refl refl refl))
      (stop refl refl (omega arith) refl)

Pool-dispatch_example :
    (mark_not_attempted two_items last_pool.results ≡ dispatch 1 two_items before)
    × (1 ≤ 2)
    × ((◌≡◌ {A = ℕ} 1 2) ⊎ (last_pool.expired ≡ true))
Pool-dispatch_example =
    Pool-dispatch 1 two_items before last_pool two_items-IsLayout cut_off (refl, refl)

in_flight_bound_example : in_flight 2 handing.phase ≤ most (pos 1)
unfolding worker_count
in_flight_bound_example =
    in_flight_bound (pos 1) two_items before handing two_items-IsLayout with_first

pool_drains_example :
    (q : Pool) × Reach two_items handing q
    × IsDone q
    × (q.expired ≡ false)
    × ((handing.expired ≡ true) ⊎ ((n : ℕ) → n < 2 → q.phase n ≡ sent))
unfolding worker_count
pool_drains_example =
    pool_drains (pos 1) two_items before handing (omega arith) two_items-IsLayout with_first

steps_bound_example : steps cut_off + left two_items last_pool ≤ 2 * length two_items + 2
steps_bound_example = steps_bound two_items-IsLayout cut_off

blank_slots :
    (n : ℕ) (item : Item)
    → get_elem? two_items n ≡ some item
    → is_blank (get_elem? before item.result_idx) ≡ true
blank_slots zero item e = let one : first_item ≡ item = ground arith in rw (← one) refl
blank_slots (suc zero) item e = let one : second_item ≡ item = ground arith in rw (← one) refl
blank_slots (suc (suc n)) item e = absurd (let no_item : none ≡ some item = e in ground arith)

dispatch-at_example :
    ((n : ℕ) (item : Item)
      → get_elem? two_items n ≡ some item
      → get_elem? (dispatch 1 two_items before) item.result_idx ≡ settled 1 n item)
    × ((x : ℕ)
        → ((n : ℕ) (item : Item) → get_elem? two_items n ≡ some item → item.result_idx ≢ x)
        → get_elem? (dispatch 1 two_items before) x ≡ get_elem? before x)
    × (length (dispatch 1 two_items before) ≡ length before)
dispatch-at_example = dispatch-at 1 two_items before two_items-IsLayout blank_slots

dispatch_cut :
    dispatch 1 two_items before
    ≡ record { token = codes "a"; status = delivered }
      ∷ record { token = codes "x"; status = error }
      ∷ record { token = codes "b"; status = not_attempted }
      ∷ []
unfolding dispatch attempt
dispatch_cut = refl
