-- ===== src/Api/Register/Effects.antt =====
-- What a registration of internal/api/register.go does to the tables, by its reply.
use slim_m_relay.Prelude.{
  ℕ, zero, suc, ◌≤◌, ◌≡◌, refl, false, ◌&&◌, ◌⊎◌, Option, none, some, List, [], ◌∷◌, take, length,
  arith, Bool-cases, inl, inr,
}
use slim_m_relay.Prelude.Int.{ℤ, pos, ltb_ℤ, leb_ℤ}
use slim_m_relay.Text.{Str, trim_space}
use slim_m_relay.RateLimit.{allow}
use slim_m_relay.Keys.Tables.{Db, key_by_hash, insert_key}
use slim_m_relay.Keys.Sql.{
  not_found, registration_ceiling, sql_error, rand_error, Result, ok, err, Store,
}
use slim_m_relay.Keys.Secret.{plaintext}
use slim_m_relay.Keys.Store.{issue, issue_plain, unix}
use slim_m_relay.Keys.Atomic.{Ends, IsIssued, issue_plain-Ends}
use slim_m_relay.Keys.Rows.{insert_key-eq-some, new_key, add_key}
use slim_m_relay.Api.Address.{client_ip}
use slim_m_relay.Api.Http.{Parsed, value, malformed, end_of_file, decode_json, Response, key_body}
use slim_m_relay.Api.Server.{Wiring, Server}
use slim_m_relay.Api.Register.{
  RegisterTimes, RegisterRequest, max_label_len, label_of, issue_reply, issue_for, handle_register,
}

length-take-le {ℓ} : {A : Type ℓ} (n : ℕ) (xs : List A) → length (take n xs) ≤ n
length-take-le zero xs = omega arith
length-take-le (suc n) [] = omega arith
length-take-le (suc n) (x ∷ xs) = let shorter = length-take-le n xs in omega arith

module _ (hash_key : Str → Str) (max : ℤ) (now : ℕ) (db : Db) where
  -- a reply with a key, and the tables that it goes with
  abbrev pub IsNewKey : Str → Str → Db → Type 0
  IsNewKey key label db' =
      (key_by_hash (hash_key key) db.keys ≡ none)
      × ((ltb_ℤ (pos 0) max && leb_ℤ max (pos (length db.keys))) ≡ false)
      × (db' ≡ add_key (new_key (hash_key key) label (unix now) db) db)

  abbrev pub IsRegistration : Server × Response → Type 0
  IsRegistration (s, reply) =
      ((key : Str) × ((label : Str) × (reply ≡ record { status = 200; body = key_body key })
          × (length label ≤ max_label_len)
          × IsNewKey key label s.store.db))
      ⊎ ((400 ≤ reply.status) × (s.store.db ≡ db))

  issue_reply-IsRegistration :
      (s : Server) (label : Str) (r : Result Str × Store)
      → length label ≤ max_label_len
      → Ends db (λ key db' swept. IsNewKey key label db') r
      → IsRegistration (record s { store = r.1 }, issue_reply r.0)
  issue_reply-IsRegistration s label (ok key, store) short h = inl (key, (label, refl, short, h))
  issue_reply-IsRegistration s label (err not_found, store) short h = inr (omega arith, h)
  issue_reply-IsRegistration s label (err registration_ceiling, store) short h =
      inr (omega arith, h)
  issue_reply-IsRegistration s label (err sql_error, store) short h = inr (omega arith, h)
  issue_reply-IsRegistration s label (err rand_error, store) short h = inr (omega arith, h)

module _ (hash_key : Str → Str) (max : ℤ) (now : ℕ) (s : Store) where
  issued-IsNewKey :
      (plain label : Str) (r : Result Str × Store)
      → Ends s.db (IsIssued hash_key plain label max now s) r
      → Ends s.db (λ key db' swept. IsNewKey hash_key max now s.db key label db') r
  issued-IsNewKey plain label (err e, t) h = h
  issued-IsNewKey plain label (ok key, t) h =
      let inserted : insert_key (hash_key plain) label (unix now) s.db ≡ some t.db = h.1 in
      let (unknown, stored) =
        insert_key-eq-some (hash_key plain) label (unix now) s.db t.db inserted in
      (rw h.0 unknown, h.2, rw h.0 stored)

  issue-IsNewKey :
      (raw : Option (List ℕ)) (label : Str)
      → Ends s.db
          (λ key db' swept. IsNewKey hash_key max now s.db key label db')
          (issue hash_key raw label max now s)
  unfolding issue
  issue-IsNewKey none label = refl
  issue-IsNewKey (some raw) label =
      issued-IsNewKey (plaintext raw) label (issue_plain hash_key (plaintext raw) label max now s)
        (issue_plain-Ends hash_key (plaintext raw) label max now s)

-- A registration either replies with a key, or with an error and tables left as they were. A key that
-- it replies with is stored by its hash, which no row had before, in one new row, with at most 256
-- bytes of the label; and the keys in the table were fewer than the ceiling, if there is one.
pub handle_register-IsRegistration :
    (hash_key : Str → Str) (w : Wiring) (t : RegisterTimes) (request : RegisterRequest) (s : Server)
    → IsRegistration hash_key w.config.max_registrations t.issue_at s.store.db
        (handle_register hash_key w t request s)
unfolding handle_register
handle_register-IsRegistration hash_key w t request s =
    elim (Bool-cases
      (allow s.register_lim (client_ip w.config request.remote request.forwarded_for)
        t.allow_at).1) [
          | inl granted ↦ rw granted (
              by_label
                (record s {
                  register_lim =
                      (allow s.register_lim
                        (client_ip w.config request.remote request.forwarded_for) t.allow_at).0;
                })
                (decode_json 4096 request.public_url))
          | inr refused ↦ rw refused (inr (omega arith, refl))
        ]
  where
    by_store :
        (s : Server) (label : Str)
        → length label ≤ max_label_len
        → IsRegistration hash_key w.config.max_registrations t.issue_at s.store.db
            (issue_for hash_key w t (some label) s)
    by_store s label short =
        issue_reply-IsRegistration hash_key w.config.max_registrations t.issue_at s.store.db s label
          (issue hash_key t.raw label w.config.max_registrations t.issue_at s.store) short
          (issue-IsNewKey hash_key w.config.max_registrations t.issue_at s.store t.raw label)

    by_label :
        (s : Server) (p : Parsed Str)
        → IsRegistration hash_key w.config.max_registrations t.issue_at s.store.db
            (issue_for hash_key w t (label_of p) s)
    by_label s (value url) =
        by_store s (take max_label_len (trim_space url))
          (length-take-le max_label_len (trim_space url))
    by_label s malformed = inr (omega arith, refl)
    by_label s end_of_file = by_store s [] (omega arith)
