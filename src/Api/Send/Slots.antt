-- ===== src/Api/Send/Slots.antt =====
-- The results and items that the first loop of `handleSend` in internal/api/send.go builds up.
use slim_m_relay.Prelude.{
  ℕ, ◌<◌, ◌≡◌, ◌≢◌, refl, sym, ◌∙◌, ap, inl, inr, ◌⊎◌, some, List, [], ◌∷◌, ◌++◌, length,
  length-append, get_elem?, get_elem?-append_left, get_elem?-append_length, get_elem?-append_cases,
  arith,
}
use slim_m_relay.Text.{Str}
use slim_m_relay.Push.{blank, Outcome, Sender, Message}
use slim_m_relay.Dispatch.{Item}
use slim_m_relay.Dispatch.Invariant.{IsLayout}
use slim_m_relay.Api.Send.{empty_slot}

-- Result `x` belongs to no item.
abbrev pub NoItem : List Item → ℕ → Type 0
NoItem items x = (n : ℕ) (item : Item) → get_elem? items n ≡ some item → item.result_idx ≢ x

-- One result for each of the tokens, in order: blank and with an item of its own, or settled.
pub record IsBatch (tokens : List Str) (results : List Outcome) (items : List Item) : Type 0 where
  pub layout : IsLayout items (length results)
  pub sized : length results ≡ length tokens
  pub pending :
      (n : ℕ) (item : Item)
      → get_elem? items n ≡ some item
      → (get_elem? tokens item.result_idx ≡ some item.msg.token)
        × (get_elem? results item.result_idx ≡ some empty_slot)
  pub settled :
      (x : ℕ) (r : Outcome)
      → get_elem? results x ≡ some r
      → NoItem items x
      → (get_elem? tokens x ≡ some r.token) × (r.status ≢ blank)

pub IsBatch-empty : IsBatch [] [] []
IsBatch-empty = record {
  layout = record { distinct = λ m n a b e f q. absurd (cc); within = λ n a e. absurd (cc) };
  sized = refl;
  pending = λ n item e. absurd (cc);
  settled = λ x r e h. absurd (cc);
}

module _ (tokens : List Str) (results : List Outcome) (items : List Item)
    (b : IsBatch tokens results items) where
  grown : (r : Outcome) → length results < length (results ++ r ∷ [])
  grown r = omega (arith, length-append results (r ∷ []))

  both_grown : (r : Outcome) (t : Str) → length (results ++ r ∷ []) ≡ length (tokens ++ t ∷ [])
  both_grown r t =
      let s : length results ≡ length tokens = b.sized in
      omega (arith, length-append results (r ∷ []), length-append tokens (t ∷ []))

  last_token : (t : Str) → get_elem? (tokens ++ t ∷ []) (length results) ≡ some t
  last_token t = rw b.sized (get_elem?-append_length tokens t)

  -- a result that is there at once
  pub IsBatch-refuse :
      (r : Outcome) → r.status ≢ blank → IsBatch (tokens ++ r.token ∷ []) (results ++ r ∷ []) items
  IsBatch-refuse r real = record {
    layout = record {
      distinct = b.layout.distinct;
      within = λ n a e.
          let w : a.result_idx < length results = b.layout.within n a e in
          let g = grown r in omega arith;
    };
    sized = both_grown r r.token;
    pending = λ n item e. (
      get_elem?-append_left tokens (r.token ∷ []) item.result_idx item.msg.token
          (b.pending n item e).0,
      get_elem?-append_left results (r ∷ []) item.result_idx empty_slot (b.pending n item e).1,
    );
    settled = λ x a e h. pick x a h (get_elem?-append_cases results r a x e);
  }
    where
      pick :
          (x : ℕ) (a : Outcome)
          → NoItem items x
          → (get_elem? results x ≡ some a) ⊎ ((x ≡ length results) × (a ≡ r))
          → (get_elem? (tokens ++ r.token ∷ []) x ≡ some a.token) × (a.status ≢ blank)
      pick x a h (inl old) = (
        get_elem?-append_left tokens (r.token ∷ []) x a.token (b.settled x a old h).0,
        (b.settled x a old h).1,
      )
      pick x a h (inr (last, new)) = rw (last, new) (last_token r.token, real)

  -- an item, and its blank
  abbrev new_item : Sender → Message → Item
  new_item sender msg = record { result_idx = length results; sender = sender; msg = msg }

  item_cases :
      (it : Item) (n : ℕ) (a : Item)
      → get_elem? (items ++ it ∷ []) n ≡ some a
      → ((get_elem? items n ≡ some a) × (a.result_idx < length results))
        ⊎ ((n ≡ length items) × (a ≡ it))
  item_cases it n a e = elim (get_elem?-append_cases items it a n e) [
    | inl old ↦ inl (old, b.layout.within n a old)
    | inr new ↦ inr new
  ]

  IsLayout-accept :
      (it : Item)
      → it.result_idx ≡ length results
      → IsLayout (items ++ it ∷ []) (length (results ++ empty_slot ∷ []))
  IsLayout-accept it at = record {
    distinct = λ m n a c e f q. pick m n a c q (item_cases it m a e) (item_cases it n c f);
    within = λ n a e. fits n a (item_cases it n a e);
  }
    where
      pick :
          (m n : ℕ) (a c : Item)
          → a.result_idx ≡ c.result_idx
          → ((get_elem? items m ≡ some a) × (a.result_idx < length results))
            ⊎ ((m ≡ length items) × (a ≡ it))
          → ((get_elem? items n ≡ some c) × (c.result_idx < length results))
            ⊎ ((n ≡ length items) × (c ≡ it))
          → m ≡ n
      pick m n a c q (inl (e, _)) (inl (f, _)) = b.layout.distinct m n a c e f q
      pick m n a c q (inl (e, low)) (inr (_, new)) = absurd (
          let i : c.result_idx ≡ it.result_idx = ap (λ (z : Item). z.result_idx) new in omega arith)
      pick m n a c q (inr (_, new)) (inl (f, low)) = absurd (
          let i : a.result_idx ≡ it.result_idx = ap (λ (z : Item). z.result_idx) new in omega arith)
      pick m n a c q (inr (e, _)) (inr (f, _)) = e ∙ sym f

      fits :
          (n : ℕ) (a : Item)
          → ((get_elem? items n ≡ some a) × (a.result_idx < length results))
            ⊎ ((n ≡ length items) × (a ≡ it))
          → a.result_idx < length (results ++ empty_slot ∷ [])
      fits n a (inl (_, low)) = let g = grown empty_slot in omega arith
      fits n a (inr (_, new)) =
          let i : a.result_idx ≡ it.result_idx = ap (λ (z : Item). z.result_idx) new in
          let g = grown empty_slot in omega arith

  pub IsBatch-accept :
      (sender : Sender) (msg : Message)
      → IsBatch
          (tokens ++ msg.token ∷ [])
          (results ++ empty_slot ∷ [])
          (items ++ record { result_idx = length results; sender = sender; msg = msg } ∷ [])
  IsBatch-accept sender msg = record {
    layout = IsLayout-accept it refl;
    sized = both_grown empty_slot msg.token;
    pending = λ n a e. waits n a (item_cases it n a e);
    settled = λ x r e h. stays x r h (get_elem?-append_cases results empty_slot r x e);
  }
    where
      it : Item
      it = record { result_idx = length results; sender = sender; msg = msg }

      waits :
          (n : ℕ) (a : Item)
          → ((get_elem? items n ≡ some a) × (a.result_idx < length results))
            ⊎ ((n ≡ length items) × (a ≡ it))
          → (get_elem? (tokens ++ msg.token ∷ []) a.result_idx ≡ some a.msg.token)
            × (get_elem? (results ++ empty_slot ∷ []) a.result_idx ≡ some empty_slot)
      waits n a (inl (e, _)) = (
        get_elem?-append_left tokens (msg.token ∷ []) a.result_idx a.msg.token (b.pending n a e).0,
        get_elem?-append_left results (empty_slot ∷ []) a.result_idx empty_slot (b.pending n a e).1,
      )
      waits n a (inr (_, new)) =
          rw new (last_token msg.token, get_elem?-append_length results empty_slot)

      stays :
          (x : ℕ) (r : Outcome)
          → NoItem (items ++ it ∷ []) x
          → (get_elem? results x ≡ some r) ⊎ ((x ≡ length results) × (r ≡ empty_slot))
          → (get_elem? (tokens ++ msg.token ∷ []) x ≡ some r.token) × (r.status ≢ blank)
      stays x r h (inl old) =
          let none_yet : NoItem items x =
            λ n a e. h n a (get_elem?-append_left items (it ∷ []) n a e) in
          (
            get_elem?-append_left tokens (msg.token ∷ []) x r.token (b.settled x r old none_yet).0,
            (b.settled x r old none_yet).1,
          )
      stays x r h (inr (last, _)) =
          absurd (h (length items) it (get_elem?-append_length items it) (sym last))
