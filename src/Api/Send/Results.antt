-- ===== src/Api/Send/Results.antt =====
-- What one `POST /v1/send` of internal/api/send.go answers: its results, message by message.
use slim_m_relay.Prelude.{
  ℕ, ◌≡◌, ◌≢◌, refl, sym, ◌∙◌, inl, inr, ◌⊎◌, true, false, some, List, [], ◌∷◌, ◌++◌, length,
  get_elem?, map_of_entries, All-of_entries, All, arith, ltb, ◌==◌, if◌then◌else◌, Bool-cases,
}
use mathlib.Core.List.{append-nil, append_assoc}
use slim_m_relay.Text.{Str}
use slim_m_relay.Push.{Platform, blank, Outcome, Message, outcome_tokens}
use slim_m_relay.Keys.Sql.{Result, ok, err}
use slim_m_relay.Dispatch.{Item, is_blank, dispatch, attempt}
use slim_m_relay.Dispatch.Refines.{slot_cases}
use slim_m_relay.Dispatch.Marked.{dispatch-at, settled, marked, unattempted}
use slim_m_relay.Api.Server.{Wiring}
use slim_m_relay.Api.Send.{
  SendMessage, Moment, Verdict, skip, refuse, accept, check_owner, is_empty,
}
use slim_m_relay.Api.Send.Slots.{NoItem, IsBatch}

-- Only an empty token is skipped, a refusal has a status, and an item carries the message's token.
abbrev pub Fits : Str → Verdict → Type 0
Fits token skip = is_empty token ≡ true
Fits token (refuse status) = (is_empty token ≡ false) × (status ≢ blank)
Fits token (accept sender msg) = (is_empty token ≡ false) × (msg.token ≡ token)

module _ (w : Wiring) (key_id : ℕ) (t : Moment) where
  pub check_owner-Fits :
      (platform : Platform) (msg : Message) (r : Result ℕ)
      → is_empty msg.token ≡ false
      → Fits msg.token (check_owner w key_id platform msg r)
  check_owner-Fits platform msg (err e) h = (h, λ q. cc)
  check_owner-Fits platform msg (ok owner) h = elim (Bool-cases (owner == key_id)) [
    | inl own ↦ rw own (h, refl)
    | inr other ↦ rw other (h, λ q. cc)
  ]

-- the tokens that get a result
abbrev pub sent_tokens : List SendMessage → List Str
sent_tokens [] = []
sent_tokens (m ∷ ms) = if is_empty m.token then sent_tokens ms else m.token ∷ sent_tokens ms

abbrev pub one_token : Str → List Str
one_token token = if is_empty token then [] else token ∷ []

pub sent_tokens-regroup :
    (tokens : List Str) (m : SendMessage) (ms : List SendMessage)
    → (tokens ++ one_token m.token) ++ sent_tokens ms ≡ tokens ++ sent_tokens (m ∷ ms)
sent_tokens-regroup tokens m ms = elim (Bool-cases (is_empty m.token)) [
  | inl gone ↦ rw (gone, append-nil) refl
  | inr here ↦ rw (here, append_assoc) refl
]

-- a result that an item is given has its token and a status
marked_answer :
    (item : Item) (o r : Outcome)
    → o.token ≡ item.msg.token
    → marked item (some o) ≡ some r
    → (item.msg.token ≡ r.token) × (r.status ≢ blank)
marked_answer item o r t e = elim (Bool-cases (is_blank (some o))) [
  | inl empty ↦
      let new : unattempted item ≡ r = let q = rw empty at e in ground arith in
      rw (← new) (refl, λ q. cc)
  | inr full ↦
      let old : o ≡ r = let q = rw full at e in ground arith in
      rw (← old) (sym t, λ q. let empty : is_blank (some o) ≡ true = rw q refl in cc)
]

settled_answer :
    (cut n : ℕ) (item : Item) (r : Outcome)
    → settled cut n item ≡ some r
    → (item.msg.token ≡ r.token) × (r.status ≢ blank)
unfolding attempt
settled_answer cut n item r e = elim (Bool-cases (ltb n cut)) [
  | inl early ↦ marked_answer item (attempt n item) r refl (rw early at e)
  | inr late ↦
      let new : unattempted item ≡ r = let q = rw late at e in ground arith in
      rw (← new) (refl, λ q. cc)
]

-- the entries of the results after `dispatch`
entry :
    (cut : ℕ) (tokens : List Str) (results : List Outcome) (items : List Item)
    → IsBatch tokens results items
    → (x : ℕ) (r : Outcome) → get_elem? (dispatch cut items results) x ≡ some r
    → (get_elem? tokens x ≡ some r.token) × (r.status ≢ blank)
entry cut tokens results items b x r e = pick (slot_cases x items)
  where
    all :
        ((n : ℕ) (item : Item)
          → get_elem? items n ≡ some item
          → get_elem? (dispatch cut items results) item.result_idx ≡ settled cut n item)
        × ((y : ℕ)
            → NoItem items y
            → get_elem? (dispatch cut items results) y ≡ get_elem? results y)
        × (length (dispatch cut items results) ≡ length results)
    all = dispatch-at cut items results b.layout (λ n item q. rw (b.pending n item q).1 refl)

    pick :
        ((n : ℕ) × (item : Item) × (get_elem? items n ≡ some item) × (item.result_idx ≡ x))
          ⊎ NoItem items x
        → (get_elem? tokens x ≡ some r.token) × (r.status ≢ blank)
    pick (inl (n, item, q, i)) =
        let a : (item.msg.token ≡ r.token) × (r.status ≢ blank) =
          settled_answer cut n item r (sym (all.0 n item q) ∙ rw i e) in
        (rw (← i, ← a.0) (b.pending n item q).0, a.1)
    pick (inr absent) = b.settled x r (sym (all.1 x absent) ∙ e) absent

-- what holds of a reply's results
abbrev pub Answers : List SendMessage → List Outcome → Type 0
Answers messages results =
    (outcome_tokens results ≡ sent_tokens messages) × All (λ r. r.status ≢ blank) results

pub dispatch-Answers :
    (cut : ℕ) (messages : List SendMessage) (results : List Outcome) (items : List Item)
    → IsBatch (sent_tokens messages) results items
    → Answers messages (dispatch cut items results)
dispatch-Answers cut messages results items g =
    let all = dispatch-at cut items results g.layout (λ n item q. rw (g.pending n item q).1 refl) in
    let at = entry cut (sent_tokens messages) results items g in
    (
      map_of_entries (λ r. r.token) (dispatch cut items results) (sent_tokens messages)
          (all.2 ∙ g.sized) (λ x r e. (at x r e).0),
      All-of_entries (λ r. r.status ≢ blank) (dispatch cut items results) (λ x r e. (at x r e).1),
    )
