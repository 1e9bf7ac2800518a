-- ===== src/Keys/Ownership.antt =====
-- Who owns a device token in internal/keys/keys.go: `BindToken` and the sweep behind it.
use slim_m_relay.Prelude.{ℕ, ap, sym, ◌∙◌, ◌≤◌, ◌≡◌, refl, false}
use slim_m_relay.Prelude.Int.{ℤ, pos, ltb_ℤ}
use slim_m_relay.Text.{Str}
use slim_m_relay.Keys.Tables.{Db, owner_of}
use slim_m_relay.Keys.Sql.{Store}
use slim_m_relay.Keys.Store.{unix}
use slim_m_relay.Keys.Atomic.{IsBound, owner_after}
use slim_m_relay.Keys.Changes.{
  Change, none_made, key_inserted, key_stamped, key_revoked, tokens_bound, tokens_swept,
}
use slim_m_relay.Keys.Rows.{insert_key-eq-some}
use slim_m_relay.Keys.Holding.{
  IsHeld, owner_of-IsHeld, delete_stale-IsHeld, bound-IsHeld, bind-IsHeld,
}

module _ (k : ℕ) (platform token : Str) (start : ℕ) where
  -- No change of the tables from `start` on, with no sweep of what was seen then, takes the token away.
  pub Change-keeps :
      {max : ℤ} {C : ℤ → Type 0} {S : ℕ → Type 0} {R : ℤ → Type 0} (db db' : Db)
      → ((cutoff : ℤ) → C cutoff → ltb_ℤ (pos (unix start)) cutoff ≡ false)
      → ((seen : ℕ) → S seen → unix start ≤ seen)
      → Change max C S R db db'
      → IsHeld k platform token (unix start) db.tokens
      → IsHeld k platform token (unix start) db'.tokens
  Change-keeps db db' sweeps times (none_made e) h = rw e h
  Change-keeps db db' sweeps times (key_inserted x label now room e) h =
      rw (insert_key-eq-some x label now db db' e).1 h
  Change-keeps db db' sweeps times (key_stamped id now e) h = rw e h
  Change-keeps db db' sweeps times (key_revoked id now cut e) h = rw e h
  Change-keeps db db' sweeps times (tokens_bound j p t now seen e) h = rw e (
      bound-IsHeld k platform token (unix start) j now p t db (owner_of p t db.tokens)
        (times now seen) h)
  Change-keeps db db' sweeps times (tokens_swept cutoff sweep e) h =
      rw e
        (delete_stale-IsHeld k platform token (unix start) cutoff db.tokens (sweeps cutoff sweep) h)

  -- the key's own transaction takes the token, and any other one then finds it
  pub own_bind-IsHeld :
      (s m : Store) (owner : ℕ)
      → owner ≡ k
      → IsBound k platform token (unix start) s owner m.db m.last_prune
      → IsHeld k platform token (unix start) m.db.tokens
  own_bind-IsHeld s m owner own h = rw h.1 (
      bind-IsHeld k platform token (unix start) s.db (owner_of platform token s.db.tokens) refl
        (sym h.0 ∙ own))

  pub later_bind-owner :
      (s m : Store) (j owner later : ℕ)
      → IsHeld k platform token (unix start) s.db.tokens
      → IsBound j platform token later s owner m.db m.last_prune
      → owner ≡ k
  later_bind-owner s m j owner later held h =
      h.0 ∙ ap (owner_after j) (owner_of-IsHeld k platform token (unix start) s.db.tokens held)
