-- ===== src/Keys/Changes.antt =====
-- The changes that the operations of internal/keys/keys.go make to the tables, whichever statements
-- the database refuses.
use slim_m_relay.Prelude.{
  ℕ, ◌+◌, ◌≤◌, ◌≡◌, refl, Bool, true, false, Option, none, some, length, arith, leb, ◌-◌, inl, inr,
  ◌&&◌, if◌then◌else◌, Bool-cases, ◌==◌,
}
use slim_m_relay.Prelude.Int.{ℤ, pos, pos_part, sub_ℕ, ltb_ℤ, leb_ℤ}
use slim_m_relay.Text.{Str}
use slim_m_relay.Keys.Tables.{
  Db, KeyRow, key_by_hash, insert_key, stamp_key, revoke_key, rows_affected, owner_of, delete_stale,
}
use slim_m_relay.Keys.Sql.{
  not_found, Result, ok, err, Store, pure, fail, statement_cases, bind_result, written,
}
use slim_m_relay.Keys.Store.{
  Key, Readings, unix, unix_ℤ, prune_interval, verify, check_row, check_revoked, stamp_used,
  scan_key, revoke, maybe_prune, delete_or_log,
}
use slim_m_relay.Keys.Atomic.{Ends, IsIssued, bound}

-- One change of the tables, under a ceiling on the keys; `cutoff` is that of a sweep, and `now`
-- the Unix time of a binding.
pub data Change (max : ℤ) (Cutoff : ℤ → Type 0) (Seen : ℕ → Type 0) (Cut : ℤ → Type 0) (db db' : Db)
    : Type 0 where
  none_made : db' ≡ db → Change max Cutoff Seen Cut db db'
  key_inserted :
      (h label : Str) (now : ℕ)
      → (ltb_ℤ (pos 0) max && leb_ℤ max (pos (length db.keys))) ≡ false
      → insert_key h label now db ≡ some db'
      → Change max Cutoff Seen Cut db db'
  key_stamped :
      (id now : ℕ)
      → db' ≡ record db { keys = stamp_key now id db.keys }
      → Change max Cutoff Seen Cut db db'
  key_revoked :
      (id : ℤ) (now : ℕ)
      → Cut id
      → db' ≡ record db { keys = revoke_key now id db.keys }
      → Change max Cutoff Seen Cut db db'
  tokens_bound :
      (key_id : ℕ) (platform token : Str) (now : ℕ)
      → Seen now
      → db' ≡ bound key_id platform token now db (owner_of platform token db.tokens)
      → Change max Cutoff Seen Cut db db'
  tokens_swept :
      (cutoff : ℤ)
      → Cutoff cutoff
      → db' ≡ record db { tokens = delete_stale cutoff db.tokens }
      → Change max Cutoff Seen Cut db db'

-- the cutoff of a sweep that reads the clock at `t`
abbrev pub cutoff_at : ℤ → ℕ → ℤ
cutoff_at retention t = unix_ℤ (sub_ℕ t (pos_part retention))

-- no later than the retention after `start`, a sweep spares what was seen then
pub cutoff_at-le :
    (retention : ℤ) (start t : ℕ)
    → t ≤ start + pos_part retention
    → ltb_ℤ (pos (unix start)) (cutoff_at retention t) ≡ false
cutoff_at-le retention start t h = ground arith

module _ (hash_key : Str → Str) (max retention : ℤ) where
  pub issue-Change :
      (C : ℤ → Type 0) (S : ℕ → Type 0) (R : ℤ → Type 0) (plain label : Str) (now : ℕ) (s : Store)
      (r : Result Str × Store)
      → Ends s.db (IsIssued hash_key plain label max now s) r
      → Change max C S R s.db r.1.db
  issue-Change C S R plain label now s (ok key, s') h =
      key_inserted (hash_key plain) label (unix now) h.2 h.1
  issue-Change C S R plain label now s (err e, s') h = none_made h

  check_revoked-Change :
      (C : ℤ → Type 0) (S : ℕ → Type 0) (R : ℤ → Type 0) (o : Option ℕ) (k : Key) (used : ℕ)
      (s : Store)
      → Change max C S R s.db (check_revoked o k used s).1.db
  check_revoked-Change C S R (some t) k used s = none_made refl
  check_revoked-Change C S R none k used s =
      statement_cases (λ x. Change max C S R s.db (stamp_used k used x).1.db)
        (λ s'. written (some (record s'.db { keys = stamp_key used k.id s'.db.keys })) s') s
        (λ f. key_stamped k.id used refl) (λ f. none_made refl)

  check_row-Change :
      (C : ℤ → Type 0) (S : ℕ → Type 0) (R : ℤ → Type 0) (o : Option KeyRow) (used : ℕ) (s : Store)
      → Change max C S R s.db (check_row o used s).1.db
  check_row-Change C S R none used s = none_made refl
  check_row-Change C S R (some row) used s =
      check_revoked-Change C S R row.revoked_at (scan_key row) used s

  pub verify-Change :
      (C : ℤ → Type 0) (S : ℕ → Type 0) (R : ℤ → Type 0) (plain : Str) (now : ℕ) (s : Store)
      → Change max C S R s.db (verify hash_key plain now s).1.db
  unfolding verify
  verify-Change C S R plain now s =
      statement_cases
        (λ x. Change max C S R s.db (bind_result (λ row. check_row row (unix now)) x).1.db)
        (λ s'. (ok (key_by_hash (hash_key plain) s'.db.keys), s')) s
        (λ f.
          check_row-Change C S R (key_by_hash (hash_key plain) s.db.keys) (unix now)
            (record s { faults = f }))
        (λ f. none_made refl)

  revoke_reply-db :
      (b : Bool) (s : Store)
      → ((if b then fail {A = Unit {0}} not_found else pure tt) s).1.db ≡ s.db
  revoke_reply-db true s = refl
  revoke_reply-db false s = refl

  pub revoke-Change :
      (C : ℤ → Type 0) (S : ℕ → Type 0) (id : ℤ) (now : ℕ) (s : Store)
      → Change max C S (λ i. i ≡ id) s.db (revoke id now s).1.db
  unfolding revoke
  revoke-Change C S id now s =
      statement_cases
        (λ x.
          Change max C S (λ i. i ≡ id) s.db
            (bind_result (λ n. if n == 0 then fail not_found else pure tt) x).1.db)
        (λ s'. (
          ok (rows_affected id s'.db.keys),
          record s' { db = record s'.db { keys = revoke_key (unix now) id s'.db.keys } },
        ))
        s
        (λ f. key_revoked id (unix now) refl (revoke_reply-db (rows_affected id s.db.keys == 0) _))
        (λ f. none_made refl)

  pub maybe_prune-Change :
      (S : ℕ → Type 0) (R : ℤ → Type 0) (t : Readings) (s : Store)
      → Change max
          (λ c. (c ≡ cutoff_at retention t.cutoff) × (ltb_ℤ (pos 0) retention ≡ true))
          S
          R
          s.db
          (maybe_prune retention t s).db
  unfolding maybe_prune
  maybe_prune-Change S R t s = elim (Bool-cases (leb_ℤ retention (pos 0))) [
    | inl off ↦ rw off (none_made refl)
    | inr on ↦ rw on (elim (Bool-cases (leb prune_interval (t.since - s.last_prune))) [
      | inl due ↦ rw due (
          statement_cases
            (λ x.
              Change max
                (λ c. (c ≡ cutoff_at retention t.cutoff) × (ltb_ℤ (pos 0) retention ≡ true)) S R
                s.db (delete_or_log x).db)
            (λ s'.
              written
                (some (record s'.db {
                  tokens = delete_stale (cutoff_at retention t.cutoff) s'.db.tokens;
                }))
                s')
            (record s { last_prune = t.stamp })
            (λ f. tokens_swept (cutoff_at retention t.cutoff) (refl, ground arith) refl)
            (λ f. none_made refl))
      | inr early ↦ rw early (none_made refl)
    ])
  ]
