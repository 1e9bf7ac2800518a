-- ===== src/Api/Threads/Replying.antt =====
-- The rest of the program of `handleSend` in internal/api/send.go: its results, and its reply.
use slim_m_relay.Prelude.{
  ℕ, suc, ◌≡◌, refl, sym, ◌∙◌, ap, subst, true, false, ◌&&◌, List, [], ◌∷◌, ◌++◌, append-nil,
  length, get_elem?, ltb, Bool-cases, inl, inr, ◌⊎◌, arith,
}
use slim_m_relay.Prelude.Int.{pos, ltb_ℤ}
use slim_m_relay.Text.{Str, codes}
use slim_m_relay.Keys.Sql.{not_found, registration_ceiling, sql_error, rand_error, Result, ok, err}
use slim_m_relay.Keys.Store.{Key}
use slim_m_relay.Push.{Outcome}
use slim_m_relay.Dispatch.{Item}
use slim_m_relay.Api.Http.{
  Parsed, value, malformed, end_of_file, Payload, decode_json, Response, bearer_token,
}
use slim_m_relay.Api.Server.{Wiring}
use slim_m_relay.Api.Send.{
  SendMessage, SendTimes, Verdict, skip, refuse, accept, is_call, is_empty, is_not_attempted,
}
use slim_m_relay.Api.Send.Slots.{IsBatch, IsBatch-empty, IsBatch-refuse, IsBatch-accept}
use slim_m_relay.Api.Send.Results.{
  Fits, one_token, sent_tokens, sent_tokens-regroup, Answers, dispatch-Answers,
}
use slim_m_relay.Api.Send.Replies.{success, results_of}
use slim_m_relay.Api.Threads.{Act, Answer}
use slim_m_relay.Api.Threads.Programs.{
  verify_program, look_at_program, Gathered, gather, loop_program, refund_program, dispatch_program,
  batch_program, limited, key_program, verified_program, send_program,
}
use slim_m_relay.Api.Threads.Promises.{Promises, Promises-bind}
use slim_m_relay.Api.Threads.Sending.{Covers, MayBe, verify-MayBe, look_at-Fits}

-- A reply of success to a body that was read answers its messages.
abbrev pub IsSendReply : Payload (List SendMessage) → Response → Type 0
IsSendReply body reply =
    (messages : List SendMessage) (results : List Outcome)
    → body.parsed ≡ value messages
    → reply ≡ success results
    → Answers messages results

abbrev IsGathered : List Str → Gathered → Type 0
IsGathered tokens g = IsBatch tokens g.results g.items

gather-IsGathered :
    (tokens : List Str) (token : Str) (v : Verdict) (g : Gathered)
    → Fits token v
    → IsGathered tokens g
    → IsGathered (tokens ++ one_token token) (gather token v g)
unfolding gather
gather-IsGathered tokens token skip g f b = rw (f, append-nil) b
gather-IsGathered tokens token (refuse status) g f b =
    rw f.0
      (IsBatch-refuse tokens g.results g.items b (record { token = token; status = status }) f.1)
gather-IsGathered tokens token (accept sender msg) g f b =
    rw (f.0, ← f.1) (IsBatch-accept tokens g.results g.items b sender msg)

module _ (hash_key : Str → Str) (w : Wiring) (t : SendTimes) (W : Act → Type 0)
    (G : (a : Act) → Answer a → Type 0) (May : ℕ → Type 0) (c : Covers w t W G May) where
  loop-IsGathered :
      (key_id : ℕ)
      → May key_id
      → (n : ℕ) (ms : List SendMessage) (tokens : List Str) (g : Gathered) → IsGathered tokens g
      → Promises W G (IsGathered (tokens ++ sent_tokens ms)) (loop_program w key_id t.clock n ms g)
  unfolding loop_program
  loop-IsGathered key_id may n [] tokens g b = rw append-nil b
  loop-IsGathered key_id may n (m ∷ ms) tokens g b =
      Promises-bind W G (Fits m.token) (IsGathered (tokens ++ sent_tokens (m ∷ ms)))
        (look_at_program w key_id (t.clock n) m)
        (λ verdict. loop_program w key_id t.clock (suc n) ms (gather m.token verdict g))
        (look_at-Fits hash_key w t W G May c key_id may n m)
        (λ v f.
          subst
            (λ (z : List Str).
              Promises W G (IsGathered z)
                (loop_program w key_id t.clock (suc n) ms (gather m.token v g)))
            (sent_tokens-regroup tokens m ms)
            (loop-IsGathered key_id may (suc n) ms (tokens ++ one_token m.token)
              (gather m.token v g) (gather-IsGathered tokens m.token v g f b)))

  refund-promise :
      (Q : Response → Type 0) (key_id : ℕ)
      → May key_id
      → (items : List Item) (results : List Outcome) (reply : Response) → Q reply
      → Promises W G Q (refund_program key_id items results reply)
  unfolding refund_program
  refund-promise Q key_id may [] results reply q = q
  refund-promise Q key_id may (item ∷ items) results reply q =
      elim (Bool-cases
        (is_call item.msg.kind && is_not_attempted (get_elem? results item.result_idx))) [
          | inl back ↦
              rw back
                (c.returns key_id may, λ _ _. refund-promise Q key_id may items results reply q)
          | inr kept ↦ rw kept (refund-promise Q key_id may items results reply q)
        ]

  dispatched :
      (ms : List SendMessage) (rs : List Outcome)
      → Answers ms rs
      → (results : List Outcome) → success rs ≡ success results
      → Answers ms results
  dispatched ms rs h results e =
      subst (Answers ms) (ap (λ (r : Response). results_of rs r.body) e) h

  batch-IsSendReply :
      (key_id : ℕ)
      → May key_id
      → (body : Payload (List SendMessage)) (p : Parsed (List SendMessage))
      → ((ms messages : List SendMessage)
          → p ≡ value ms
          → body.parsed ≡ value messages
          → ms ≡ messages)
      → Promises W G (IsSendReply body) (batch_program w t key_id p)
  unfolding dispatch_program
  batch-IsSendReply key_id may body malformed same = λ messages results p e. absurd (cc)
  batch-IsSendReply key_id may body end_of_file same = λ messages results p e. absurd (cc)
  batch-IsSendReply key_id may body (value ms) same =
      elim (Bool-cases (ltb_ℤ w.config.max_messages (pos (length ms)))) [
        | inl many ↦ rw many (λ messages results p e. absurd (cc))
        | inr few ↦ rw few (
            Promises-bind W G (IsGathered (sent_tokens ms)) (IsSendReply body)
              (loop_program w key_id t.clock 0 ms (record { results = []; items = [] }))
              (dispatch_program key_id t.cut)
              (loop-IsGathered key_id may 0 ms [] (record { results = []; items = [] })
                IsBatch-empty)
              (λ g b.
                refund-promise (IsSendReply body) key_id may g.items _ _ (λ messages results p e.
                  subst (λ z. Answers z results) (same ms messages refl p)
                    (dispatched ms _ (dispatch-Answers t.cut ms g.results g.items b) results e))))
      ]

  key-IsSendReply :
      (key_id : ℕ)
      → May key_id
      → (body : Payload (List SendMessage))
      → Promises W G (IsSendReply body) (key_program w t body key_id)
  unfolding key_program
  key-IsSendReply key_id may body = (
    c.pays key_id t.allow_at may,
    λ granted _.
        elim granted
          as (λ b. Promises W G (IsSendReply body) (
            limited (batch_program w t key_id (decode_json 1048576 body))
              (codes "rate limit exceeded") b)) [
                | true ↦
                    batch-IsSendReply key_id may body (decode_json 1048576 body)
                      (decoded (Bool-cases (ltb 1048576 body.size)))
                | false ↦ λ messages results p e. absurd (cc)
              ],
  )
    where
      decoded :
          (ltb 1048576 body.size ≡ true) ⊎ (ltb 1048576 body.size ≡ false)
          → (ms messages : List SendMessage) → decode_json 1048576 body ≡ value ms
          → body.parsed ≡ value messages
          → ms ≡ messages
      decoded (inl large) ms messages q p = absurd (let z = rw large at q in cc)
      decoded (inr small) ms messages q p =
          let z = rw small at q in let both : value ms ≡ value messages = sym z ∙ p in ground arith

  verified-IsSendReply :
      (body : Payload (List SendMessage)) (r : Result Key)
      → MayBe hash_key w t W G May c r
      → Promises W G (IsSendReply body) (verified_program w t body r)
  unfolding MayBe
  verified-IsSendReply body (ok k) may = key-IsSendReply k.id may body
  verified-IsSendReply body (err not_found) may = λ messages results p e. absurd (cc)
  verified-IsSendReply body (err registration_ceiling) may = λ messages results p e. absurd (cc)
  verified-IsSendReply body (err sql_error) may = λ messages results p e. absurd (cc)
  verified-IsSendReply body (err rand_error) may = λ messages results p e. absurd (cc)

  pub send-IsSendReply :
      (header : Str) (body : Payload (List SendMessage))
      → Promises W G (IsSendReply body) (send_program hash_key w t header body)
  unfolding send_program
  send-IsSendReply header body = elim (Bool-cases (is_empty (bearer_token header))) [
    | inl missing ↦ rw missing (λ messages results p e. absurd (cc))
    | inr given ↦ rw given (
        Promises-bind W G (MayBe hash_key w t W G May c) (IsSendReply body)
          (verify_program hash_key (bearer_token header) t.verify_at) (verified_program w t body)
          (verify-MayBe hash_key w t W G May c (bearer_token header) t.verify_at)
          (λ r may. verified-IsSendReply body r may))
  ]
