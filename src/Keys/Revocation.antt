-- ===== src/Keys/Revocation.antt =====
-- `Revoke` and `Verify` of internal/keys/keys.go.
use slim_m_relay.Prelude.{
  ℕ, zero, suc, subst, sym, ◌∙◌, ◌≤◌, ◌≡◌, ◌≢◌, refl, ap, Bool, true, Option, none, some, List, [],
  ◌∷◌, All, All-append, arith, ◌==◌, if◌then◌else◌,
}
use slim_m_relay.Prelude.Int.{ℤ, pos}
use slim_m_relay.Text.{Str}
use slim_m_relay.Keys.Tables.{
  Db, KeyRow, key_by_hash, revoke_key, rows_affected, is_revoked, is_some,
}
use slim_m_relay.Keys.Sql.{
  Result, ok, err, Store, statement_cases, bind_result, fail, pure, not_found,
}
use slim_m_relay.Keys.Store.{
  Key, verify, revoke, unix, check_row, check_revoked, stamp_used, scan_key,
}
use slim_m_relay.Keys.Changes.{
  Change, none_made, key_inserted, key_stamped, key_revoked, tokens_bound, tokens_swept,
}
use slim_m_relay.Keys.Run.{Call, run, run_induction}
use slim_m_relay.Keys.Rows.{
  new_key, insert_key-eq-some, All-stamp_key, All-revoke_key, All-key_by_hash, IsRevoked,
  revoke_key-IsRevoked,
}
use slim_m_relay.Keys.Ceiling.{AnyCall, any_calls, bound-keys, bound-key_seq}

-- the ids given out so far, and key `n` cut off
pub record IsCut (n : ℕ) (db : Db) : Type 0 where
  pub given : n ≤ db.key_seq
  pub cut : All (IsRevoked n) db.keys

pub Change-IsCut :
    {max : ℤ} {C : ℤ → Type 0} {S : ℕ → Type 0} {R : ℤ → Type 0} (n : ℕ) (db db' : Db)
    → Change max C S R db db'
    → IsCut n db
    → IsCut n db'
Change-IsCut n db db' (none_made e) v = rw e v
Change-IsCut n db db' (key_inserted h label now room e) v =
    rw (insert_key-eq-some h label now db db' e).1 (record {
      given = let g : n ≤ db.key_seq = v.given in omega arith;
      cut =
          All-append (IsRevoked n) db.keys (new_key h label now db ∷ []) v.cut
            (λ e. absurd (let g : n ≤ db.key_seq = v.given in omega arith), tt);
    })
Change-IsCut n db db' (key_stamped id now e) v = rw e (record {
  given = v.given;
  cut = All-stamp_key (IsRevoked n) now id (λ row h. h) db.keys v.cut;
})
Change-IsCut n db db' (key_revoked id now cut e) v = rw e (record {
  given = v.given;
  cut = All-revoke_key (IsRevoked n) now id (λ row h e. refl) db.keys v.cut;
})
Change-IsCut n db db' (tokens_bound k platform token now seen e) v =
    rw e (record { given = rw bound-key_seq v.given; cut = rw bound-keys v.cut })
Change-IsCut n db db' (tokens_swept cutoff c e) v = rw e (record { given = v.given; cut = v.cut })

affected-le :
    (m n : ℕ) (rows : List KeyRow)
    → All (λ row. row.id ≤ m) rows
    → rows_affected (pos n) rows ≢ 0
    → n ≤ m
unfolding rows_affected
affected-le m n [] a h = absurd (h refl)
affected-le m n (row ∷ rows) a h = ground (arith, affected-le m n rows a.1)

pub revoke-IsCut :
    (n now : ℕ) (s s' : Store)
    → All (λ row. row.id ≤ s.db.key_seq) s.db.keys
    → revoke (pos n) now s ≡ (ok tt, s')
    → IsCut n s'.db
unfolding revoke
revoke-IsCut n now s s' a =
    statement_cases
      (λ x.
        bind_result (λ k. if k == 0 then fail not_found else pure tt) x ≡ (ok tt, s')
        → IsCut n s'.db)
      (λ t. (
        ok (rows_affected (pos n) t.db.keys),
        record t { db = record t.db { keys = revoke_key (unix now) (pos n) t.db.keys } },
      ))
      s (λ f e. done f (rows_affected (pos n) s.db.keys) refl e) (λ f e. cc)
  where
    done :
        (f : List Bool) (k : ℕ)
        → rows_affected (pos n) s.db.keys ≡ k
        → ((if k == 0 then fail not_found else pure tt) (record s {
          db = record s.db { keys = revoke_key (unix now) (pos n) s.db.keys };
          faults = f;
        }))
          ≡ (ok tt, s')
        → IsCut n s'.db
    done f zero z e = absurd (cc)
    done f (suc k) z e =
        let some_row : rows_affected (pos n) s.db.keys ≢ 0 = λ q. cc in
        let revoked : record s.db { keys = revoke_key (unix now) (pos n) s.db.keys } ≡ s'.db =
          ground arith in
        subst (IsCut n) revoked (record {
          given = affected-le s.db.key_seq n s.db.keys a some_row;
          cut = revoke_key-IsRevoked (unix now) n s.db.keys;
        })

stamped-id :
    (k k' : Key) (used : ℕ) (r : Result (Unit {0}) × Store) (s : Store)
    → stamp_used k used r ≡ (ok k', s)
    → k'.id ≡ k.id
stamped-id k k' used (ok u, t) s e = ground arith
stamped-id k k' used (err x, t) s e = ground arith

check_revoked-id :
    (o : Option ℕ) (k k' : Key) (used : ℕ) (s s' : Store)
    → check_revoked o k used s ≡ (ok k', s')
    → (o ≡ none) × (k'.id ≡ k.id)
check_revoked-id (some t) k k' used s s' e = absurd (cc)
check_revoked-id none k k' used s s' e = (refl, stamped-id k k' used _ s' e)

-- A key that `Verify` accepts is not revoked.
verify-IsRevoked :
    (hash_key : Str → Str) (plain : Str) (n now : ℕ) (k : Key) (s s' : Store)
    → All (IsRevoked n) s.db.keys
    → verify hash_key plain now s ≡ (ok k, s')
    → k.id ≢ n
unfolding verify scan_key
verify-IsRevoked hash_key plain n now k s s' a =
    statement_cases (λ x. bind_result (λ row. check_row row (unix now)) x ≡ (ok k, s') → k.id ≢ n)
      (λ t. (ok (key_by_hash (hash_key plain) t.db.keys), t)) s
      (λ f e. found f (key_by_hash (hash_key plain) s.db.keys) refl e) (λ f e. absurd (cc))
  where
    found :
        (f : List Bool) (o : Option KeyRow)
        → key_by_hash (hash_key plain) s.db.keys ≡ o
        → check_row o (unix now) (record s { faults = f }) ≡ (ok k, s')
        → k.id ≢ n
    found f none q e same = cc
    found f (some row) q e same =
        let (live, id) =
          check_revoked-id row.revoked_at (scan_key row) k (unix now) (record s { faults = f }) s'
            e in
        let revoked : is_revoked row ≡ true =
          All-key_by_hash (IsRevoked n) (hash_key plain) s.db.keys row a q (sym id ∙ same) in
        cc (ap is_some live)

-- Once `Revoke` has cut a key off, no later `Verify` accepts it, whatever calls come in between and
-- whichever of them fail. The ids in the table are those given out so far.
pub verify-revoke :
    (hash_key : Str → Str) (max retention : ℤ) (n now later : ℕ) (plain : Str) (k : Key)
    (s s' t : Store) (calls : List Call)
    → All (λ row. row.id ≤ s.db.key_seq) s.db.keys
    → revoke (pos n) now s ≡ (ok tt, s')
    → verify hash_key plain later (run hash_key max retention s' calls) ≡ (ok k, t)
    → k.id ≢ n
verify-revoke hash_key max retention n now later plain k s s' t calls ids e v =
    let cut : IsCut n (run hash_key max retention s' calls).db =
      run_induction hash_key max retention (IsCut n) AnyCall
        (λ c db db' _ ch. Change-IsCut n db db' ch) s' calls (any_calls calls)
        (revoke-IsCut n now s s' ids e) in
    verify-IsRevoked hash_key plain n later k (run hash_key max retention s' calls) t cut.cut v
