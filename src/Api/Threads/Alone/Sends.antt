-- ===== src/Api/Threads/Alone/Sends.antt =====
-- The program of `handleSend` in internal/api/send.go with the server to itself, against the handler.
use slim_m_relay.Prelude.{
  ℕ, suc, ◌≡◌, refl, ◌∙◌, ap, Bool, true, false, ◌&&◌, Option, none, some, List, [], ◌∷◌, length,
  get_elem?, ltb, if◌then◌else◌, Bool-cases, inl, inr,
}
use slim_m_relay.Prelude.Int.{pos, ltb_ℤ}
use slim_m_relay.Text.{Str, format_int, codes}
use slim_m_relay.RateLimit.{Limiter, allow, give_back}
use slim_m_relay.Push.{Platform, Kind, Outcome}
use slim_m_relay.Dispatch.{Item}
use slim_m_relay.Keys.Sql.{not_found, registration_ceiling, sql_error, rand_error, Result, ok, err}
use slim_m_relay.Keys.Store.{Key, verify}
use slim_m_relay.Api.Http.{
  Parsed, value, malformed, end_of_file, Payload, decode_json, bearer_token, Response, write_err,
}
use slim_m_relay.Api.Server.{Wiring, Server}
use slim_m_relay.Api.Send.{
  SendMessage, Moment, SendTimes, Verdict, Batch, skip, refuse, accept, is_call, is_empty,
  is_not_attempted, max_payload_bytes, parse_platform, parse_kind, with_kind, with_platform,
  look_at, record_verdict, take_message, parse_loop, refund_calls, finish_send, send_batch,
  with_key, verified, handle_send,
}
use slim_m_relay.Api.Threads.{run_alone, with_send_lim}
use slim_m_relay.Api.Threads.Programs.{
  verify_program, kind_program, platform_program, look_at_program, Gathered, gather, loop_program,
  refund_program, dispatch_program, batch_program, key_program, verified_program, send_program,
  limited,
}
use slim_m_relay.Api.Threads.Alone.{resume, run_alone-bind, verify_program_lem, charge_program_lem}

module _ (hash_key : Str → Str) (w : Wiring) where
  kind_program_lem :
      (key_id : ℕ) (t : Moment) (m : SendMessage) (platform : Platform) (o : Option Kind)
      (s : Server)
      → run_alone hash_key w (kind_program w key_id t m platform o) s
        ≡ with_kind w key_id t m platform o s
  unfolding run_alone
  kind_program_lem key_id t m platform none s = refl
  kind_program_lem key_id t m platform (some kind) s =
      charge_program_lem hash_key w key_id t platform _ s

  platform_program_lem :
      (key_id : ℕ) (t : Moment) (m : SendMessage) (o : Option Platform) (s : Server)
      → run_alone hash_key w (platform_program w key_id t m o) s ≡ with_platform w key_id t m o s
  unfolding run_alone
  platform_program_lem key_id t m none s = refl
  platform_program_lem key_id t m (some platform) s =
      kind_program_lem key_id t m platform (parse_kind m.kind) s

  look_at_program_lem :
      (key_id : ℕ) (t : Moment) (m : SendMessage) (s : Server)
      → run_alone hash_key w (look_at_program w key_id t m) s ≡ look_at w key_id t m s
  unfolding look_at_program look_at run_alone
  look_at_program_lem key_id t m s = elim (Bool-cases (is_empty m.token)) [
    | inl gone ↦ rw gone refl
    | inr here ↦ elim (Bool-cases (ltb max_payload_bytes (length m.payload))) [
      | inl large ↦ rw (here, large) refl
      | inr small ↦ rw (here, small) (platform_program_lem key_id t m (parse_platform m.platform) s)
    ]
  ]

  -- a batch as the handler keeps it
  abbrev as_batch : Server × Gathered → Batch
  as_batch (s, g) = record { server = s; results = g.results; items = g.items }

  gather_lem :
      (token : Str) (v : Verdict) (g : Gathered) (s : Server)
      → record_verdict token v (as_batch (s, g)) ≡ as_batch (s, gather token v g)
  unfolding record_verdict gather
  gather_lem token skip g s = refl
  gather_lem token (refuse status) g s = refl
  gather_lem token (accept sender msg) g s = refl

  loop_program_lem :
      (key_id : ℕ) (clock : ℕ → Moment) (n : ℕ) (ms : List SendMessage) (g : Gathered) (s : Server)
      → as_batch (run_alone hash_key w (loop_program w key_id clock n ms g) s)
        ≡ parse_loop w key_id clock n ms (as_batch (s, g))
  unfolding loop_program parse_loop take_message run_alone
  loop_program_lem key_id clock n [] g s = refl
  loop_program_lem key_id clock n (m ∷ ms) g s =
      let (s', verdict) = look_at w key_id (clock n) m s in
      rw
        (
          run_alone-bind hash_key w,
          look_at_program_lem key_id (clock n) m s,
          gather_lem m.token verdict g s',
        )
        (loop_program_lem key_id clock (suc n) ms (gather m.token verdict g) s')

  refund_program_lem :
      (key_id : ℕ) (items : List Item) (results : List Outcome) (reply : Response) (s : Server)
      → run_alone hash_key w (refund_program key_id items results reply) s
        ≡ (record s { call_lim = refund_calls (format_int key_id) items results s.call_lim }, reply)
  unfolding refund_program refund_calls run_alone
  refund_program_lem key_id [] results reply s = refl
  refund_program_lem key_id (item ∷ items) results reply s =
      elim (Bool-cases
        (is_call item.msg.kind && is_not_attempted (get_elem? results item.result_idx))) [
          | inl back ↦ rw back (
              refund_program_lem key_id items results reply
                (record s { call_lim = give_back s.call_lim (format_int key_id) }))
          | inr kept ↦ rw kept (refund_program_lem key_id items results reply s)
        ]

  batch_program_lem :
      (t : SendTimes) (key_id : ℕ) (p : Parsed (List SendMessage)) (s : Server)
      → run_alone hash_key w (batch_program w t key_id p) s ≡ send_batch w t key_id p s
  unfolding run_alone finish_send dispatch_program
  batch_program_lem t key_id malformed s = refl
  batch_program_lem t key_id end_of_file s = refl
  batch_program_lem t key_id (value ms) s =
      elim (Bool-cases (ltb_ℤ w.config.max_messages (pos (length ms)))) [
        | inl many ↦ rw many refl
        | inr few ↦
            let r =
              run_alone hash_key w
                (loop_program w key_id t.clock 0 ms (record { results = []; items = [] })) s in
            rw few (
              run_alone-bind hash_key w
                (loop_program w key_id t.clock 0 ms (record { results = []; items = [] }))
                (dispatch_program key_id t.cut) s
              ∙ refund_program_lem key_id r.1.items _ _ r.0
              ∙ ap (finish_send key_id t.cut)
                  (loop_program_lem key_id t.clock 0 ms (record { results = []; items = [] }) s))
      ]

  key_program_lem :
      (t : SendTimes) (body : Payload (List SendMessage)) (key_id : ℕ) (s : Server)
      → run_alone hash_key w (key_program w t body key_id) s ≡ with_key w t body key_id s
  unfolding run_alone key_program with_key
  key_program_lem t body key_id s = go (allow s.send_lim (format_int key_id) t.allow_at)
    where
      batch : Parsed (List SendMessage)
      batch = decode_json 1048576 body

      go :
          (r : Limiter × Bool)
          → resume hash_key w
              (limited (batch_program w t key_id batch) (codes "rate limit exceeded"))
              (with_send_lim s r)
            ≡ (if r.1
                then send_batch w t key_id batch (record s { send_lim = r.0 })
                else (record s { send_lim = r.0 }, write_err 429 (codes "rate limit exceeded")))
      go (lim, true) = batch_program_lem t key_id batch (record s { send_lim = lim })
      go (lim, false) = refl

  verified_program_lem :
      (t : SendTimes) (body : Payload (List SendMessage)) (r : Result Key) (s : Server)
      → run_alone hash_key w (verified_program w t body r) s ≡ verified w t body r s
  unfolding run_alone
  verified_program_lem t body (ok k) s = key_program_lem t body k.id s
  verified_program_lem t body (err not_found) s = refl
  verified_program_lem t body (err registration_ceiling) s = refl
  verified_program_lem t body (err sql_error) s = refl
  verified_program_lem t body (err rand_error) s = refl

  pub send_program_lem :
      (t : SendTimes) (header : Str) (body : Payload (List SendMessage)) (s : Server)
      → run_alone hash_key w (send_program hash_key w t header body) s
        ≡ handle_send hash_key w t header body s
  unfolding run_alone send_program handle_send
  send_program_lem t header body s = elim (Bool-cases (is_empty (bearer_token header))) [
    | inl missing ↦ rw missing refl
    | inr given ↦
        let v = verify hash_key (bearer_token header) t.verify_at s.store in
        rw given (
          run_alone-bind hash_key w (verify_program hash_key (bearer_token header) t.verify_at)
            (verified_program w t body) s
          ∙ ap (resume hash_key w (verified_program w t body))
              (verify_program_lem hash_key w (bearer_token header) t.verify_at s)
          ∙ verified_program_lem t body v.0 (record s { store = v.1 }))
  ]
