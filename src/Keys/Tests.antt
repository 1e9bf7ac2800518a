-- ===== src/Keys/Tests.antt =====
-- Runs of the store of internal/keys/keys.go, and the theorems at concrete stores.
use slim_m_relay.Prelude.{
  ℕ, map, ◌≤◌, ◌≡◌, ◌≢◌, refl, true, false, none, some, List, [], ◌∷◌, length, All, arith,
}
use slim_m_relay.Prelude.Int.{ℤ, pos}
use slim_m_relay.Text.{Str, codes, str_eq}
use slim_m_relay.Keys.Tables.{owner_of, revoke_key, rows_affected}
use slim_m_relay.Keys.Sql.{Result, ok, Store}
use slim_m_relay.Keys.Secret.{plaintext}
use slim_m_relay.Keys.Store.{
  Key, Readings, maybe_prune, issue, verify, revoke, bind_token, bind_in_transaction, list_keys,
  scan_key,
}
use slim_m_relay.Keys.Migrate.{OldToken, File, old_table, table, seen_at, migrate, open_store}
use slim_m_relay.Keys.Upgrade.{open_store-old_table, interrupted_upgrade}
use slim_m_relay.Keys.Access.{issued, issue-verify}
use slim_m_relay.Keys.Atomic.{Ends, IsBound, bind_in_transaction-Ends}
use slim_m_relay.Keys.Run.{Call, issues, revokes, binds, run}
use mathlib.Core.List.{Perm}
use slim_m_relay.Keys.Sound.{IsSound, run-IsSound}
use slim_m_relay.Keys.Listing.{IsNewestFirst, list_keys-IsNewestFirst}
use slim_m_relay.Keys.Live.{IsKeyOrFault, verify-run}
use slim_m_relay.Keys.Revocation.{verify-revoke}

-- a hash that can be followed
abbrev plain_hash : Str → Str
plain_hash s = s

abbrev empty_store : Store
empty_store = record {
  db = record { keys = []; key_seq = 0; tokens = []; token_seq = 0 };
  last_prune = 0;
  faults = [];
}

abbrev two_issued : Store
two_issued =
    run plain_hash (pos 2) (pos 0) empty_store
      (issues (some (1 ∷ [])) (codes "a") 5000000000 ∷ issues (some (2 ∷ [])) [] 6000000000 ∷ [])

two_issued_keys : length two_issued.db.keys ≡ 2
unfolding run plaintext str_eq
two_issued_keys = refl

-- key 1 cut off
abbrev one_cut : Store
one_cut = (revoke (pos 1) 7000000000 two_issued).1

abbrev other_key : Str
other_key = plaintext (2 ∷ [])

abbrev verified_other : Result Key × Store
verified_other =
    verify plain_hash other_key 8000000000
      (run plain_hash (pos 2) (pos 0) one_cut (issues none [] 1 ∷ []))

other_verified :
    verify plain_hash other_key 8000000000
      (run plain_hash (pos 2) (pos 0) one_cut (issues none [] 1 ∷ []))
    ≡ (
      ok (record { id = 2; label = []; created_at = 6; last_used_at = some 8; revoked_at = none }),
      verified_other.1,
    )
unfolding run plaintext str_eq revoke verify revoke_key rows_affected
other_verified = refl

two_issued_ids : All (λ row. row.id ≤ two_issued.db.key_seq) two_issued.db.keys
unfolding run plaintext str_eq
two_issued_ids = omega arith

cut_done : revoke (pos 1) 7000000000 two_issued ≡ (ok tt, one_cut)
unfolding run plaintext str_eq revoke revoke_key rows_affected
cut_done = refl

-- the other key is still accepted, and it is not the one cut off
verify-revoke_example : ◌≢◌ {A = ℕ} 2 1
verify-revoke_example =
    verify-revoke plain_hash (pos 2) (pos 0) 1 7000000000 8000000000 other_key
      (record { id = 2; label = []; created_at = 6; last_used_at = some 8; revoked_at = none })
      two_issued one_cut verified_other.1 (issues none [] 1 ∷ []) two_issued_ids cut_done
      other_verified

abbrev at_once : ℕ → Readings
at_once t = record { since = t; stamp = t; cutoff = t }

abbrev device : Str
device = codes "tok"

abbrev first_bound : Store
first_bound =
    (bind_token 1 (codes "ios") device (pos 90000000000) 4000000000000 (at_once 4000000000000)
      empty_store).1

-- the other key tries twice, and a sweep comes due in between
abbrev attempts : List Call
attempts = binds 2 (codes "ios") device 4001000000000 (at_once 4001000000000) ∷ []

abbrev last_attempt : Store
last_attempt =
    (bind_token 2 (codes "ios") device (pos 90000000000) 4002000000000 (at_once 4002000000000)
      (run plain_hash (pos 2) (pos 90000000000) first_bound attempts)).1

first_owner :
    bind_token 1
      (codes "ios")
      device
      (pos 90000000000)
      4000000000000
      (at_once 4000000000000)
      empty_store
    ≡ (ok 1, first_bound)
unfolding bind_token str_eq
first_owner = refl

last_owner :
    bind_token 2
      (codes "ios")
      device
      (pos 90000000000)
      4002000000000
      (at_once 4002000000000)
      (run plain_hash (pos 2) (pos 90000000000) first_bound attempts)
    ≡ (ok 1, last_attempt)
unfolding run bind_token str_eq
last_owner = refl

-- a binding whose INSERT is refused
bind_in_transaction-Ends_example :
    Ends empty_store.db
      (IsBound 1 (codes "ios") device 4 (record empty_store { faults = false ∷ false ∷ true ∷ [] }))
      (bind_in_transaction 1
        (codes "ios")
        device
        4
        (record empty_store { faults = false ∷ false ∷ true ∷ [] }))
bind_in_transaction-Ends_example =
    bind_in_transaction-Ends 1 (codes "ios") device 4
      (record empty_store { faults = false ∷ false ∷ true ∷ [] })

-- a database from before `last_seen_at`, with one binding
abbrev old_tokens : List OldToken
old_tokens =
    record { id = 1; platform = codes "ios"; token = device; key_id = 1; created_at = 3 } ∷ []

abbrev old_file : File
old_file = record { key_table = some ([], 0); token_table = old_table old_tokens 1; faults = [] }

abbrev upgraded : Store
upgraded = record {
  db = record { keys = []; key_seq = 0; tokens = map (seen_at 4000) old_tokens; token_seq = 1 };
  last_prune = 4000000000000;
  faults = [];
}

abbrev after_upgrade : File
after_upgrade = record {
  key_table = some ([], 0);
  token_table = table (map (seen_at 4000) old_tokens) 1;
  faults = [];
}

upgrade_done : open_store 4000000000000 4000000000000 old_file ≡ (some upgraded, after_upgrade)
unfolding open_store migrate
upgrade_done = refl

open_store-old_table_example :
    (maybe_prune (pos 90000000000) (at_once 4090000000000) upgraded).db.tokens
    ≡ map (seen_at 4000) old_tokens
open_store-old_table_example =
    open_store-old_table 4000000000000 4000000000000 old_tokens 1 old_file after_upgrade upgraded
      (pos 90000000000) (at_once 4090000000000) refl upgrade_done (omega arith)

-- the device is the first key's
old_owner : owner_of (codes "ios") device (map (seen_at 0) old_tokens) ≡ some 1
unfolding owner_of str_eq
old_owner = refl

interrupted_upgrade_example :
    let first = open_store 4000000000000 4000000000000 (record {
      key_table = some ([], 0);
      token_table = old_table old_tokens 1;
      faults = false ∷ false ∷ false ∷ true ∷ [];
    }) in
    (first.0 ≡ none)
    × ((s : Store) × ((open_store 4100000000000 4100000000000 first.1).0 ≡ some s)
        × ((bind_token 2
              (codes "ios")
              device
              (pos 90000000000)
              7700000000000
              (at_once 7700000000000)
              s).0
            ≡ ok 1)
        × ((bind_token 2
              (codes "ios")
              device
              (pos 90000000000)
              7700000000000
              (at_once 7700000000000)
              s).1.db.tokens
            ≡ []))
interrupted_upgrade_example =
    interrupted_upgrade 4000000000000 4000000000000 4100000000000 4100000000000 90000000000
      old_tokens 1 ([], 0) 2 1 7700000000000 (codes "ios") device (at_once 7700000000000)
      (omega arith) (omega arith) (omega arith) old_owner (omega arith)

abbrev first_key : Str
first_key = plaintext (1 ∷ [])

first_issued : issue plain_hash (some (1 ∷ [])) (codes "a") (pos 2) 5000000000 empty_store ≡ (
  ok first_key,
  (issue plain_hash (some (1 ∷ [])) (codes "a") (pos 2) 5000000000 empty_store).1,
)
unfolding issue plaintext
first_issued = refl

first_issued_faults :
    (issue plain_hash (some (1 ∷ [])) (codes "a") (pos 2) 5000000000 empty_store).1.faults ≡ []
unfolding issue
first_issued_faults = refl

issue-verify_example :
    (verify plain_hash first_key 9000000000
      (issue plain_hash (some (1 ∷ [])) (codes "a") (pos 2) 5000000000 empty_store).1).0
    ≡ ok (issued (codes "a") 5000000000 9000000000 1)
issue-verify_example =
    issue-verify plain_hash (some (1 ∷ [])) (codes "a") first_key (pos 2) 5000000000 9000000000
      empty_store (issue plain_hash (some (1 ∷ [])) (codes "a") (pos 2) 5000000000 empty_store).1
      first_issued first_issued_faults

-- the other key is revoked in between, and a binding fails
abbrev busy_calls : List Call
busy_calls =
    issues (some (7 ∷ [])) [] 6
    ∷ revokes (pos 2) 7000000000
    ∷ binds 1 (codes "ios") device 5 (at_once 5)
    ∷ []

verify-run_example :
    IsKeyOrFault 1
      (verify plain_hash first_key 9000000000 (
        run plain_hash
          (pos 2)
          (pos 0)
          (issue plain_hash (some (1 ∷ [])) (codes "a") (pos 2) 5000000000 empty_store).1
          busy_calls)).0
verify-run_example =
    verify-run plain_hash (pos 2) (pos 0) (some (1 ∷ [])) (codes "a") first_key 5000000000
      9000000000 empty_store
      (issue plain_hash (some (1 ∷ [])) (codes "a") (pos 2) 5000000000 empty_store).1 busy_calls
      first_issued (tt, ((λ e. let q : ◌≡◌ {A = ℤ} (pos 2) (pos 1) = e in cc), (tt, tt)))

run-IsSound_example : IsSound two_issued.db
run-IsSound_example =
    run-IsSound plain_hash (pos 2) (pos 0) empty_store
      (issues (some (1 ∷ [])) (codes "a") 5000000000 ∷ issues (some (2 ∷ [])) [] 6000000000 ∷ [])
      (record { ids = omega arith; tokens = tt })

two_issued-IsSound : IsSound two_issued.db
unfolding run plaintext str_eq
two_issued-IsSound = record { ids = omega arith; tokens = tt }

abbrev listed : List Key
listed =
    record { id = 2; label = []; created_at = 6; last_used_at = none; revoked_at = none }
    ∷ record { id = 1; label = codes "a"; created_at = 5; last_used_at = none; revoked_at = none }
    ∷ []

two_listed : list_keys two_issued ≡ (ok listed, two_issued)
unfolding run plaintext str_eq list_keys
two_listed = refl

list_keys-IsNewestFirst_example :
    Perm listed (map scan_key two_issued.db.keys) × IsNewestFirst listed
list_keys-IsNewestFirst_example =
    list_keys-IsNewestFirst two_issued two_issued listed two_issued-IsSound two_listed
