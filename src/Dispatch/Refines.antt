-- ===== src/Dispatch/Refines.antt =====
-- However the goroutines of `dispatch` in internal/api/send.go interleave, they fill the results in as
-- a plain loop over the items would that stops after some number of them.
use slim_m_relay.Prelude.{
  ℕ, zero, suc, ◌+◌, ◌<◌, ◌≤◌, ◌≡◌, ◌≢◌, refl, sym, ◌∙◌, ap, ◌⊎◌, inl, inr, true, false, some, List,
  [], ◌∷◌, length, get_elem?, get_elem?-lt, set, length-set, get_elem?-set_self, get_elem?-set_ne,
  list_ext, arith, ltb, ◌==◌, ==_iff, if◌then◌else◌, Bool-cases,
}
use slim_m_relay.Push.{Outcome}
use slim_m_relay.Dispatch.{Item, attempt, attempt_from, mark_not_attempted, dispatch}
use slim_m_relay.Dispatch.Pool.{Phase, sending, Pool, start, Reach, IsDone}
use slim_m_relay.Dispatch.Invariant.{in_flight, IsLayout, Inv, Reach-Inv}

-- the results after items `k`, `k + 1`, … up to `cut` of them have been attempted
pub record IsWritten (k cut : ℕ) (items : List Item) (before after : List Outcome) : Type 0 where
  pub at :
      (n : ℕ) (item : Item)
      → get_elem? items n ≡ some item
      → get_elem? after item.result_idx
        ≡ (if ltb n cut then some (attempt (k + n) item) else get_elem? before item.result_idx)
  pub others :
      (x : ℕ)
      → ((n : ℕ) (item : Item) → get_elem? items n ≡ some item → item.result_idx ≢ x)
      → get_elem? after x ≡ get_elem? before x
  pub sized : length after ≡ length before

pub IsLayout-tail :
    (item : Item) (items : List Item) (size : ℕ)
    → IsLayout (item ∷ items) size
    → IsLayout items size
IsLayout-tail item items size v = record {
  distinct = λ m n a b e f q.
      let same : suc m ≡ suc n = v.distinct (suc m) (suc n) a b e f q in omega arith;
  within = λ n a e. v.within (suc n) a e;
}

module _ (k cut : ℕ) (it : Item) (items : List Item) (before : List Outcome)
    (v : IsLayout (it ∷ items) (length before)) where
  written : List Outcome
  written = set before it.result_idx (attempt k it)

  rest-IsLayout : IsLayout items (length written)
  unfolding written
  rest-IsLayout =
      rw (length-set before it.result_idx (attempt k it)) (IsLayout-tail it items (length before) v)

  apart : (n : ℕ) (item : Item) → get_elem? items n ≡ some item → it.result_idx ≢ item.result_idx
  apart n item e q = let same : 0 ≡ suc n = v.distinct 0 (suc n) it item refl e q in omega arith

  cons-at :
      (after : List Outcome)
      → IsWritten (suc k) cut items written after
      → (n : ℕ) (item : Item) → get_elem? (it ∷ items) n ≡ some item
      → get_elem? after item.result_idx ≡ (
          if ltb n (suc cut) then some (attempt (k + n) item) else get_elem? before item.result_idx)
  unfolding written
  cons-at after w zero item e =
      let one : it ≡ item = ground arith in
      let number : k ≡ k + 0 = omega arith in
      rw (← one, ← number)
        (w.others it.result_idx (λ n b f q. apart n b f (sym q))
          ∙ get_elem?-set_self before it.result_idx (attempt k it) (v.within 0 it refl)
          ∙ ground arith)
  cons-at after w (suc n) item e =
      let number : suc k + n ≡ k + suc n = omega arith in
      let past : get_elem? written item.result_idx ≡ get_elem? before item.result_idx =
        get_elem?-set_ne before it.result_idx item.result_idx (attempt k it) (apart n item e) in
      rw (← number, ← past) (w.at n item e ∙ ground arith)

  cons-IsWritten :
      (after : List Outcome)
      → IsWritten (suc k) cut items written after
      → IsWritten k (suc cut) (it ∷ items) before after
  unfolding written
  cons-IsWritten after w = record {
    at = cons-at after w;
    others = λ x h.
        w.others x (λ n item e. h (suc n) item e)
        ∙ get_elem?-set_ne before it.result_idx x (attempt k it) (h 0 it refl);
    sized = w.sized ∙ length-set before it.result_idx (attempt k it);
  }

pub attempt_from-IsWritten :
    (k cut : ℕ) (items : List Item) (before : List Outcome)
    → IsLayout items (length before)
    → IsWritten k cut items before (attempt_from k cut items before)
unfolding attempt_from written
attempt_from-IsWritten k zero items before v = record {
  at = λ n item e. ground arith;
  others = λ x h. refl;
  sized = refl;
}
attempt_from-IsWritten k (suc cut) [] before v = record {
  at = λ n item e. cc;
  others = λ x h. refl;
  sized = refl;
}
attempt_from-IsWritten k (suc cut) (it ∷ items) before v =
    cons-IsWritten k cut it items before v (attempt_from k (suc cut) (it ∷ items) before) (
      attempt_from-IsWritten (suc k) cut items (set before it.result_idx (attempt k it))
        (rest-IsLayout k cut it items before v))

-- some item fills result `x` in, or none does
pub slot_cases :
    (x : ℕ) (items : List Item)
    → ((n : ℕ) × (item : Item) × (get_elem? items n ≡ some item) × (item.result_idx ≡ x))
      ⊎ ((n : ℕ) (item : Item) → get_elem? items n ≡ some item → item.result_idx ≢ x)
slot_cases x [] = inr (λ n item e. cc)
slot_cases x (it ∷ items) = elim (Bool-cases (it.result_idx == x)) [
  | inl same ↦ inl (0, it, refl, (==_iff it.result_idx x).0 same)
  | inr other ↦ elim (slot_cases x items) [
    | inl (n, item, e, q) ↦ inl (suc n, item, e, q)
    | inr absent ↦ inr (elim [
      | zero ↦ λ item e q. ground (arith, ==_iff it.result_idx x)
      | suc n ↦ λ item e q. absent n item e q
    ])
  ]
]

IsWritten-unique :
    (k cut : ℕ) (items : List Item) (before xs ys : List Outcome)
    → IsWritten k cut items before xs
    → IsWritten k cut items before ys
    → xs ≡ ys
IsWritten-unique k cut items before xs ys v w = list_ext xs ys (λ x. at x (slot_cases x items))
  where
    at :
        (x : ℕ)
        → ((n : ℕ) × (item : Item) × (get_elem? items n ≡ some item) × (item.result_idx ≡ x))
          ⊎ ((n : ℕ) (item : Item) → get_elem? items n ≡ some item → item.result_idx ≢ x)
        → get_elem? xs x ≡ get_elem? ys x
    at x (inl (n, item, e, q)) = rw (← q) (v.at n item e ∙ sym (w.at n item e))
    at x (inr absent) = v.others x absent ∙ sym (w.others x absent)

pub none_in_flight : (m : ℕ) (f : ℕ → Phase) → in_flight m f ≡ 0 → (n : ℕ) → n < m → f n ≢ sending
unfolding in_flight
none_in_flight zero f e n h q = absurd (omega arith)
none_in_flight (suc m) f e n h q = elim (Bool-cases (n == m)) [
  | inl last ↦ ground (arith, ==_iff n m)
  | inr below ↦
      let quiet : in_flight m f ≡ 0 = omega arith in none_in_flight m f quiet n (ground arith) q
]

done-IsWritten :
    (workers : ℕ) (items : List Item) (before : List Outcome) (p : Pool)
    → IsDone p
    → Inv workers items before p
    → IsWritten 0 p.handed items before p.results
done-IsWritten workers items before p d v = record {
  at = λ n item e. settled n item e;
  others = v.others;
  sized = v.sized;
}
  where
    settled :
        (n : ℕ) (item : Item)
        → get_elem? items n ≡ some item
        → get_elem? p.results item.result_idx ≡ (
            if ltb n p.handed
            then some (attempt (0 + n) item)
            else get_elem? before item.result_idx)
    settled n item e =
        let idle : p.phase n ≢ sending =
          none_in_flight (length items) p.phase (v.counted ∙ d.1) n (get_elem?-lt n items item e) in
        let number : 0 + n ≡ n = omega arith in
        rw number (ground (arith, v.answered n item e, v.unfed n, v.fed n, idle))

-- Where each item has a result of its own: whatever the order in which the workers take and finish
-- the items, when `wg.Wait()` returns the results, with what is left blank marked, are those of the plain loop cut off after the items that
-- were handed out; and all were, unless the deadline fired.
pub Pool-dispatch :
    (workers : ℕ) (items : List Item) (before : List Outcome) (p : Pool)
    → IsLayout items (length before)
    → Reach items (start workers before) p
    → IsDone p
    → (mark_not_attempted items p.results ≡ dispatch p.handed items before)
      × (p.handed ≤ length items)
      × ((p.handed ≡ length items) ⊎ (p.expired ≡ true))
unfolding dispatch
Pool-dispatch workers items before p layout path d =
    let v : Inv workers items before p = Reach-Inv workers items before layout path in
    let same : p.results ≡ attempt_from 0 p.handed items before =
      IsWritten-unique 0 p.handed items before p.results (attempt_from 0 p.handed items before)
        (done-IsWritten workers items before p d v)
        (attempt_from-IsWritten 0 p.handed items before layout) in
    (ap (mark_not_attempted items) same, v.bounded, ended v.ended d.0)
  where
    ended :
        (p.feeding ≡ true) ⊎ (p.handed ≡ length items) ⊎ (p.expired ≡ true)
        → p.feeding ≡ false
        → (p.handed ≡ length items) ⊎ (p.expired ≡ true)
    ended (inl on) off = absurd (cc)
    ended (inr (inl all)) off = inl all
    ended (inr (inr late)) off = inr late
