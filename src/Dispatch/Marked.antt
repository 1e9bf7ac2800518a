-- ===== src/Dispatch/Marked.antt =====
-- The results of `dispatch` in internal/api/send.go, item by item.
use slim_m_relay.Prelude.{
  ℕ, zero, suc, ◌+◌, ◌<◌, ◌≡◌, ◌≢◌, refl, ◌∙◌, ap, inl, inr, true, Option, some, List, [], ◌∷◌,
  length, get_elem?, set, length-set, get_elem?-set_self, get_elem?-set_ne, arith, ltb,
  if◌then◌else◌, Bool-cases,
}
use slim_m_relay.Push.{not_attempted, Outcome}
use slim_m_relay.Dispatch.{Item, attempt, attempt_from, is_blank, mark_not_attempted, dispatch}
use slim_m_relay.Dispatch.Invariant.{IsLayout}
use slim_m_relay.Dispatch.Refines.{IsWritten, attempt_from-IsWritten, IsLayout-tail}

-- what an item whose turn never came gets
abbrev pub unattempted : Item → Outcome
unattempted item = record { token = item.msg.token; status = not_attempted }

-- a result after the last loop
abbrev pub marked : Item → Option Outcome → Option Outcome
marked item o = if is_blank o then some (unattempted item) else o

record IsMarked (items : List Item) (before after : List Outcome) : Type 0 where
  at :
      (n : ℕ) (item : Item)
      → get_elem? items n ≡ some item
      → get_elem? after item.result_idx ≡ marked item (get_elem? before item.result_idx)
  others :
      (x : ℕ)
      → ((n : ℕ) (item : Item) → get_elem? items n ≡ some item → item.result_idx ≢ x)
      → get_elem? after x ≡ get_elem? before x
  sized : length after ≡ length before

-- one turn of the loop
mark : Item → List Outcome → List Outcome
mark it results =
    if is_blank (get_elem? results it.result_idx)
    then set results it.result_idx (unattempted it)
    else results

length-mark : (it : Item) (results : List Outcome) → length (mark it results) ≡ length results
unfolding mark
length-mark it results = elim (Bool-cases (is_blank (get_elem? results it.result_idx))) [
  | inl empty ↦ rw empty (length-set results it.result_idx (unattempted it))
  | inr full ↦ rw full refl
]

get_elem?-mark_self :
    (it : Item) (results : List Outcome)
    → it.result_idx < length results
    → get_elem? (mark it results) it.result_idx ≡ marked it (get_elem? results it.result_idx)
unfolding mark
get_elem?-mark_self it results h = elim (Bool-cases (is_blank (get_elem? results it.result_idx))) [
  | inl empty ↦ rw empty (get_elem?-set_self results it.result_idx (unattempted it) h)
  | inr full ↦ rw full refl
]

get_elem?-mark_ne :
    (it : Item) (results : List Outcome) (x : ℕ)
    → it.result_idx ≢ x
    → get_elem? (mark it results) x ≡ get_elem? results x
unfolding mark
get_elem?-mark_ne it results x h = elim (Bool-cases (is_blank (get_elem? results it.result_idx))) [
  | inl empty ↦ rw empty (get_elem?-set_ne results it.result_idx x (unattempted it) h)
  | inr full ↦ rw full refl
]

cons-at :
    (it : Item) (items : List Item) (before after : List Outcome)
    → IsLayout (it ∷ items) (length before)
    → IsMarked items (mark it before) after
    → (n : ℕ) (item : Item) → get_elem? (it ∷ items) n ≡ some item
    → get_elem? after item.result_idx ≡ marked item (get_elem? before item.result_idx)
cons-at it items before after v w zero item e =
    let one : it ≡ item = ground arith in
    rw (← one) (
      w.others it.result_idx
        (λ n b f q. let same : suc n ≡ 0 = v.distinct (suc n) 0 b it f refl q in omega arith)
      ∙ get_elem?-mark_self it before (v.within 0 it refl))
cons-at it items before after v w (suc n) item e =
    w.at n item e
    ∙ ap (marked item) (
        get_elem?-mark_ne it before item.result_idx
          (λ q. let same : 0 ≡ suc n = v.distinct 0 (suc n) it item refl e q in omega arith))

mark_not_attempted-IsMarked :
    (items : List Item) (before : List Outcome)
    → IsLayout items (length before)
    → IsMarked items before (mark_not_attempted items before)
unfolding mark_not_attempted mark
mark_not_attempted-IsMarked [] before v = record {
  at = λ n item e. cc;
  others = λ x h. refl;
  sized = refl;
}
mark_not_attempted-IsMarked (it ∷ items) before v =
    let rest : IsMarked items (mark it before) (mark_not_attempted items (mark it before)) =
      mark_not_attempted-IsMarked items (mark it before)
        (rw (length-mark it before) (IsLayout-tail it items (length before) v)) in
    record {
      at = cons-at it items before (mark_not_attempted items (mark it before)) v rest;
      others = λ x h.
          rest.others x (λ n item e. h (suc n) item e)
          ∙ get_elem?-mark_ne it before x (h 0 it refl);
      sized = rest.sized ∙ length-mark it before;
    }

-- the result of item `n` when `cut` items are handed out
abbrev pub settled : ℕ → ℕ → Item → Option Outcome
settled cut n item =
    if ltb n cut then marked item (some (attempt n item)) else some (unattempted item)

-- Where each item has a blank result of its own, `dispatch` fills it in with the item's token and the
-- status that its sender gives, if the item was handed out in time and the sender gives one, and
-- with "not attempted" otherwise; every other result stays, and none is added.
pub dispatch-at :
    (cut : ℕ) (items : List Item) (before : List Outcome)
    → IsLayout items (length before)
    → ((n : ℕ) (item : Item)
        → get_elem? items n ≡ some item
        → is_blank (get_elem? before item.result_idx) ≡ true)
    → ((n : ℕ) (item : Item)
        → get_elem? items n ≡ some item
        → get_elem? (dispatch cut items before) item.result_idx ≡ settled cut n item)
      × ((x : ℕ)
          → ((n : ℕ) (item : Item) → get_elem? items n ≡ some item → item.result_idx ≢ x)
          → get_elem? (dispatch cut items before) x ≡ get_elem? before x)
      × (length (dispatch cut items before) ≡ length before)
unfolding dispatch
dispatch-at cut items before v empty = (at, others, m.sized ∙ w.sized)
  where
    w : IsWritten 0 cut items before (attempt_from 0 cut items before)
    w = attempt_from-IsWritten 0 cut items before v

    m :
        IsMarked items
          (attempt_from 0 cut items before)
          (mark_not_attempted items (attempt_from 0 cut items before))
    m = mark_not_attempted-IsMarked items (attempt_from 0 cut items before) (rw w.sized v)

    pick :
        (n : ℕ) (item : Item) (o : Option Outcome)
        → is_blank o ≡ true
        → marked item (if ltb n cut then some (attempt n item) else o) ≡ settled cut n item
    pick n item o e = elim (Bool-cases (ltb n cut)) [
      | inl early ↦ rw early refl
      | inr late ↦ rw (late, e) refl
    ]

    at :
        (n : ℕ) (item : Item)
        → get_elem? items n ≡ some item
        → get_elem? (mark_not_attempted items (attempt_from 0 cut items before)) item.result_idx
          ≡ settled cut n item
    at n item e =
        let number : 0 + n ≡ n = omega arith in
        let value : get_elem? (attempt_from 0 cut items before) item.result_idx
            ≡ (if ltb n cut then some (attempt n item) else get_elem? before item.result_idx) =
          w.at n item e
          ∙ ap
              (λ (i : ℕ).
                if ltb n cut then some (attempt i item) else get_elem? before item.result_idx)
              number in
        m.at n item e
        ∙ ap (marked item) value
        ∙ pick n item (get_elem? before item.result_idx) (empty n item e)

    others :
        (x : ℕ)
        → ((n : ℕ) (item : Item) → get_elem? items n ≡ some item → item.result_idx ≢ x)
        → get_elem? (mark_not_attempted items (attempt_from 0 cut items before)) x
          ≡ get_elem? before x
    others x h = m.others x h ∙ w.others x h
