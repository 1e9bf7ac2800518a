-- ===== src/Dispatch/Invariant.antt =====
-- What holds at every step of the pool of internal/api/send.go.
use slim_m_relay.Prelude.{
  ap, ℕ, zero, suc, ◌+◌, ◌-◌, ◌<◌, ◌≤◌, ◌≡◌, ◌≢◌, refl, ◌∙◌, ◌⊎◌, inl, inr, true, false, Option,
  some, List, length, get_elem?, get_elem?-lt, set, length-set, get_elem?-set_self,
  get_elem?-set_ne, arith, ◌==◌, ==_iff, Bool-cases,
}
use slim_m_relay.Push.{Outcome}
use slim_m_relay.Dispatch.{Item, attempt}
use slim_m_relay.Dispatch.Pool.{
  Phase, waiting, sending, sent, Pool, update, start, Step, hand, expire, stop, close, finish,
  Reach, here, later,
}

abbrev pub weight : Phase → ℕ
weight waiting = 0
weight sending = 1
weight sent = 0

-- the items with a worker, among the first `n`
unfoldable pub in_flight : ℕ → (ℕ → Phase) → ℕ
in_flight zero f = 0
in_flight (suc n) f = in_flight n f + weight (f n)

in_flight-update_ge :
    (n : ℕ) (f : ℕ → Phase) (i : ℕ) (p : Phase) → n ≤ i → in_flight n (update f i p) ≡ in_flight n f
unfolding in_flight
in_flight-update_ge zero f i p h = refl
in_flight-update_ge (suc n) f i p h = ground (arith, in_flight-update_ge n f i p)

in_flight-update :
    (n : ℕ) (f : ℕ → Phase) (i : ℕ) (p : Phase)
    → i < n
    → in_flight n (update f i p) + weight (f i) ≡ in_flight n f + weight p
unfolding in_flight
in_flight-update zero f i p h = absurd (omega arith)
in_flight-update (suc n) f i p h = elim (Bool-cases (i == n)) [
  | inl last ↦ ground (arith, in_flight-update_ge n f i p)
  | inr below ↦ ground (arith, in_flight-update n f i p)
]

in_flight_start : (n : ℕ) → in_flight n (λ _. waiting) ≡ 0
unfolding in_flight
in_flight_start zero = refl
in_flight_start (suc n) = omega (arith, in_flight_start n)

pub in_flight_pos : (m n : ℕ) (f : ℕ → Phase) → n < m → f n ≡ sending → 0 < in_flight m f
unfolding in_flight
in_flight_pos zero n f h e = absurd (omega arith)
in_flight_pos (suc m) n f h e = elim (Bool-cases (n == m)) [
  | inl last ↦ let here : weight (f m) ≡ 1 = rw (← (==_iff n m).0 last) (ap weight e) in omega arith
  | inr below ↦ omega (arith, in_flight_pos m n f (ground arith) e)
]

-- each item has a result of its own to fill in
pub record IsLayout (items : List Item) (size : ℕ) : Type 0 where
  pub distinct :
      (m n : ℕ) (a b : Item)
      → get_elem? items m ≡ some a
      → get_elem? items n ≡ some b
      → a.result_idx ≡ b.result_idx
      → m ≡ n
  pub within : (n : ℕ) (a : Item) → get_elem? items n ≡ some a → a.result_idx < size

-- the result of item `n`, by its phase
abbrev pub filled : Phase → ℕ → Item → List Outcome → Option Outcome
filled sent n item before = some (attempt n item)
filled _ n item before = get_elem? before item.result_idx

pub record Inv (workers : ℕ) (items : List Item) (before : List Outcome) (p : Pool) : Type 0 where
  pub bounded : p.handed ≤ length items
  pub unfed : (n : ℕ) → p.handed ≤ n → p.phase n ≡ waiting
  pub fed : (n : ℕ) → n < p.handed → p.phase n ≢ waiting
  pub counted : in_flight (length items) p.phase ≡ p.active
  pub staffed : p.idle + p.active ≡ workers
  pub answered :
      (n : ℕ) (item : Item)
      → get_elem? items n ≡ some item
      → get_elem? p.results item.result_idx ≡ filled (p.phase n) n item before
  pub others :
      (x : ℕ)
      → ((n : ℕ) (item : Item) → get_elem? items n ≡ some item → item.result_idx ≢ x)
      → get_elem? p.results x ≡ get_elem? before x
  pub sized : length p.results ≡ length before
  pub ended : (p.feeding ≡ true) ⊎ (p.handed ≡ length items) ⊎ (p.expired ≡ true)

module _ (workers : ℕ) (items : List Item) (before : List Outcome)
    (layout : IsLayout items (length before)) where
  Inv-start : Inv workers items before (start workers before)
  Inv-start = record {
    bounded = omega arith;
    unfed = λ n h. refl;
    fed = λ n h. absurd (omega arith);
    counted = in_flight_start (length items);
    staffed = omega arith;
    answered = λ n item e. refl;
    others = λ x h. refl;
    sized = refl;
    ended = inl refl;
  }

  hand-Inv :
      (p : Pool)
      → p.feeding ≡ true
      → p.handed < length items
      → 0 < p.idle
      → Inv workers items before p
      → Inv workers items before (record p {
        handed = suc p.handed;
        idle = p.idle - 1;
        active = suc p.active;
        phase = update p.phase p.handed sending;
      })
  hand-Inv p feeding room free v = record {
    bounded = room;
    unfed = λ n h. ground (arith, v.unfed n);
    fed = λ n h q. ground (arith, v.fed n);
    counted = ground (
      arith,
      in_flight-update (length items) p.phase p.handed sending room,
      v.unfed p.handed,
      v.counted,
    );
    staffed = let all : p.idle + p.active ≡ workers = v.staffed in omega arith;
    answered = λ n item e. ground (arith, v.answered n item e, v.unfed n);
    others = v.others;
    sized = v.sized;
    ended = inl feeding;
  }

  finish-Inv :
      (p : Pool) (m : ℕ) (it : Item)
      → p.phase m ≡ sending
      → get_elem? items m ≡ some it
      → Inv workers items before p
      → Inv workers items before (record p {
        idle = suc p.idle;
        active = p.active - 1;
        phase = update p.phase m sent;
        results = set p.results it.result_idx (attempt m it);
      })
  finish-Inv p m it busy at v = record {
    bounded = v.bounded;
    unfed = λ n h. ground (arith, v.unfed n);
    fed = λ n h q. ground (arith, v.fed n);
    counted =
        let here : m < length items = get_elem?-lt m items it at in
        ground (arith, in_flight-update (length items) p.phase m sent here, v.counted);
    staffed =
        let here : m < length items = get_elem?-lt m items it at in
        let all : p.idle + p.active ≡ workers = v.staffed in
        let some_busy : 0 < p.active =
          rw (← v.counted) (in_flight_pos (length items) m p.phase here busy) in
        omega arith;
    answered = λ n item e. answer n item e (Bool-cases (m == n));
    others =
        λ x h. get_elem?-set_ne p.results it.result_idx x (attempt m it) (h m it at) ∙ v.others x h;
    sized = length-set p.results it.result_idx (attempt m it) ∙ v.sized;
    ended = v.ended;
  }
    where
      answer :
          (n : ℕ) (item : Item)
          → get_elem? items n ≡ some item
          → ((m == n) ≡ true) ⊎ ((m == n) ≡ false)
          → get_elem? (set p.results it.result_idx (attempt m it)) item.result_idx
            ≡ filled (update p.phase m sent n) n item before
      answer n item e (inl same) =
          let here : m ≡ n = (==_iff m n).0 same in
          let one : it ≡ item = ground arith in
          let room : it.result_idx < length p.results = rw v.sized (layout.within m it at) in
          rw (same, ← here, ← one) (get_elem?-set_self p.results it.result_idx (attempt m it) room)
      answer n item e (inr other) =
          let apart : it.result_idx ≢ item.result_idx =
            λ q. ground (arith, layout.distinct m n it item at e q) in
          rw other (
            get_elem?-set_ne p.results it.result_idx item.result_idx (attempt m it) apart
            ∙ v.answered n item e)

  -- Every step keeps the invariant.
  pub Step-Inv :
      (p q : Pool) → Step items p q → Inv workers items before p → Inv workers items before q
  Step-Inv p q (hand feeding room free e) v = rw e (hand-Inv p feeding room free v)
  Step-Inv p q (expire early e) v = rw e (record {
    bounded = v.bounded;
    unfed = v.unfed;
    fed = v.fed;
    counted = v.counted;
    staffed = v.staffed;
    answered = v.answered;
    others = v.others;
    sized = v.sized;
    ended = inr (inr refl);
  })
  Step-Inv p q (stop feeding late room e) v = rw e (record {
    bounded = v.bounded;
    unfed = v.unfed;
    fed = v.fed;
    counted = v.counted;
    staffed = v.staffed;
    answered = v.answered;
    others = v.others;
    sized = v.sized;
    ended = inr (inr late);
  })
  Step-Inv p q (close feeding all e) v = rw e (record {
    bounded = v.bounded;
    unfed = v.unfed;
    fed = v.fed;
    counted = v.counted;
    staffed = v.staffed;
    answered = v.answered;
    others = v.others;
    sized = v.sized;
    ended = inr (inl all);
  })
  Step-Inv p q (finish m it busy at e) v = rw e (finish-Inv p m it busy at v)

  pub Reach-Inv : {q : Pool} → Reach items (start workers before) q → Inv workers items before q
  Reach-Inv here = Inv-start
  Reach-Inv (later {q = q} {r = r} path step) = Step-Inv q r step (Reach-Inv path)
