-- ===== src/Api/Threads/Alone.antt =====
-- The programs of internal/keys and of a message of a send with the server to itself, against the
-- operations.
pub mod Sends
use slim_m_relay.Prelude.{
  ℕ, suc, ◌-◌, ◌≡◌, refl, sym, ◌∙◌, ap, Bool, true, false, ◌&&◌, Option, none, some, List, [], ◌∷◌,
  length, get_elem?, ltb, if◌then◌else◌, leb, Bool-cases, inl, inr, arith,
}
use slim_m_relay.Prelude.Int.{ℤ, pos, ltb_ℤ, leb_ℤ}
use slim_m_relay.Text.{Str, format_int, codes}
use slim_m_relay.RateLimit.{Limiter, allow, give_back}
use slim_m_relay.Push.{Platform, Kind, Message, Outcome, platform_text, error}
use slim_m_relay.Dispatch.{Item}
use slim_m_relay.Keys.Tables.{KeyRow, key_by_hash, stamp_key, delete_stale}
use slim_m_relay.Keys.Sql.{
  not_found, registration_ceiling, sql_error, rand_error, Result, ok, err, Store, M, bind_result,
  exec, query,
}
use slim_m_relay.Keys.Store.{
  Key, Readings, unix, prune_interval, verify, check_row, check_revoked, stamp_used, scan_key,
  bind_token, bind_in_transaction, prune_after, maybe_prune, delete_or_log,
}
use slim_m_relay.Keys.Changes.{cutoff_at}
use slim_m_relay.Api.Http.{
  Parsed, value, malformed, end_of_file, Payload, decode_json, bearer_token, Response, write_err,
}
use slim_m_relay.Api.Server.{Wiring, Server}
use slim_m_relay.Api.Send.{
  SendMessage, Moment, SendTimes, Verdict, Batch, skip, refuse, accept, retention_of, is_call,
  is_empty, is_not_attempted, max_payload_bytes, parse_platform, parse_kind, with_store,
  bind_message, charge_call, charge_and_bind, with_kind, with_platform, look_at, record_verdict,
  take_message, parse_loop, refund_calls, finish_send, send_batch, with_key, verified, handle_send,
}
use slim_m_relay.Api.Threads.{
  Answer, Program, finish, act, ◌>>=◌, perform, run_alone, on_store, swap, test_and_mark, stamp,
  find_key, with_call_lim, with_send_lim,
}
use slim_m_relay.Api.Threads.Programs.{
  verify_program, row_program, live_program, stamped_key, bind_program, prune_program, swept_if,
  bind_message_program, charge_program, kind_program, platform_program, look_at_program, Gathered,
  gather, loop_program, refund_program, dispatch_program, batch_program, key_program,
  verified_program, send_program, if_granted, limited,
}

module _ (hash_key : Str → Str) (w : Wiring) where
  -- what follows a program, on the server that it left
  abbrev pub resume : {A B : Type 0} → (A → Program B) → Server × A → Server × B
  resume f (s, x) = run_alone hash_key w (f x) s

  pub run_alone-bind :
      {A B : Type 0} (p : Program A) (f : A → Program B) (s : Server)
      → run_alone hash_key w (p >>= f) s ≡ resume f (run_alone hash_key w p s)
  unfolding run_alone
  run_alone-bind (finish x) f s = refl
  run_alone-bind (act a k) f s =
      run_alone-bind (k (perform hash_key w a s).1) f (perform hash_key w a s).0

  stamp_lem :
      (k : Key) (used : ℕ) (s : Server)
      → run_alone hash_key w (act (stamp k.id used) (λ r. finish (stamped_key k used r))) s
        ≡ swap s (check_revoked none k used s.store)
  unfolding run_alone
  stamp_lem k used s =
      go (exec (λ db. some (record db { keys = stamp_key used k.id db.keys })) s.store)
    where
      go :
          (r : Result (Unit {0}) × Store)
          → (record s { store = r.1 }, stamped_key k used r.0) ≡ swap s (stamp_used k used r)
      go (ok u, t) = refl
      go (err e, t) = refl

  live_program_lem :
      (o : Option ℕ) (k : Key) (used : ℕ) (s : Server)
      → run_alone hash_key w (live_program o k used) s ≡ swap s (check_revoked o k used s.store)
  unfolding run_alone
  live_program_lem (some t) k used s = refl
  live_program_lem none k used s = stamp_lem k used s

  pub verify_program_lem :
      (plain : Str) (now : ℕ) (s : Server)
      → run_alone hash_key w (verify_program hash_key plain now) s
        ≡ swap s (verify hash_key plain now s.store)
  unfolding run_alone verify_program verify
  verify_program_lem plain now s = go (query (λ db. key_by_hash (hash_key plain) db.keys) s.store)
    where
      go :
          (r : Result (Option KeyRow) × Store)
          → resume (row_program (unix now)) (swap s r)
            ≡ swap s (bind_result (λ row. check_row row (unix now)) r)
      go (err e, t) = refl
      go (ok none, t) = refl
      go (ok (some row), t) =
          live_program_lem row.revoked_at (scan_key row) (unix now) (record s { store = t })

  sweep_lem :
      (retention : ℤ) (t : Readings) (owner : ℕ) (s : Server)
      → run_alone hash_key w (prune_program retention t (ok owner)) s
        ≡ swap s (ok owner, maybe_prune retention t s.store)
  unfolding run_alone maybe_prune
  sweep_lem retention t owner s = elim (Bool-cases (leb_ℤ retention (pos 0))) [
    | inl off ↦ rw off refl
    | inr on ↦ rw on (gate (leb prune_interval (t.since - s.store.last_prune)))
  ]
    where
      clear : Store → Store
      clear store = delete_or_log (
          exec
            (λ db.
              some (record db { tokens = delete_stale (cutoff_at retention t.cutoff) db.tokens }))
            store)

      gate :
          (due : Bool)
          → resume
              (λ due. swept_if due owner (cutoff_at retention t.cutoff))
              (swap s
                (if due then (true, record s.store { last_prune = t.stamp }) else (false, s.store)))
            ≡ swap s
                (ok owner, if due then clear (record s.store { last_prune = t.stamp }) else s.store)
      gate true = refl
      gate false = refl

  bind_program_lem :
      (key_id : ℕ) (platform token : Str) (retention : ℤ) (now : ℕ) (t : Readings) (s : Server)
      → run_alone hash_key w (bind_program key_id platform token retention now t) s
        ≡ swap s (bind_token key_id platform token retention now t s.store)
  unfolding run_alone bind_program bind_token
  bind_program_lem key_id platform token retention now t s =
      go (bind_in_transaction key_id platform token (unix now) s.store)
    where
      go :
          (r : Result ℕ × Store)
          → resume (prune_program retention t) (swap s r) ≡ swap s (prune_after retention t r)
      go (err e, t') = refl
      go (ok owner, t') = sweep_lem retention t owner (record s { store = t' })

  bind_message_program_lem :
      (key_id : ℕ) (t : Moment) (platform : Platform) (msg : Message) (s : Server)
      → run_alone hash_key w (bind_message_program w key_id t platform msg) s
        ≡ bind_message w key_id t platform msg s
  unfolding bind_message_program bind_message run_alone
  bind_message_program_lem key_id t platform msg s =
      rw
        (
          run_alone-bind,
          bind_program_lem key_id (platform_text platform) msg.token (retention_of w.config)
              t.bind_at t.prune_at s,
        )
        refl

  pub charge_program_lem :
      (key_id : ℕ) (t : Moment) (platform : Platform) (msg : Message) (s : Server)
      → run_alone hash_key w (charge_program w key_id t platform msg) s
        ≡ charge_and_bind w key_id t platform msg s
  unfolding charge_program charge_and_bind charge_call run_alone
  charge_program_lem key_id t platform msg s = elim (Bool-cases (is_call msg.kind)) [
    | inr free ↦ rw free (bind_message_program_lem key_id t platform msg s)
    | inl call ↦ rw call (paid (allow s.call_lim (format_int key_id) t.allow_at))
  ]
    where
      paid :
          (r : Limiter × Bool)
          → resume (if_granted (bind_message_program w key_id t platform msg)) (with_call_lim s r)
            ≡ (if r.1
                then bind_message w key_id t platform msg (record s { call_lim = r.0 })
                else (record s { call_lim = r.0 }, refuse error))
      paid (lim, true) =
          bind_message_program_lem key_id t platform msg (record s { call_lim = lim })
      paid (lim, false) = refl
