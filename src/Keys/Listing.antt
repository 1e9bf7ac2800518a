-- ===== src/Keys/Listing.antt =====
-- `List` of internal/keys/keys.go: what the admin view shows.
use slim_m_relay.Prelude.{
  ℕ, ◌<◌, ◌≤◌, ◌≡◌, false, List, [], ◌∷◌, map, All, arith, ltb, Bool-cases, inl, inr, subst,
}
use mathlib.Core.List.{Perm}
use mathlib.Core.List.Perm
use slim_m_relay.Keys.Tables.{KeyRow, insert_desc, order_desc}
use slim_m_relay.Keys.Sql.{Result, ok, Store, pure, statement_cases, bind_result}
use slim_m_relay.Keys.Store.{Key, list_keys, scan_key}
use slim_m_relay.Keys.Sound.{Ascends, IsSound}

insert_desc-Perm : (row : KeyRow) (rows : List KeyRow) → Perm (insert_desc row rows) (row ∷ rows)
unfolding insert_desc
insert_desc-Perm row [] = Perm.refl (row ∷ [])
insert_desc-Perm row (r ∷ rows) = elim (Bool-cases (ltb r.id row.id)) [
  | inl older ↦ rw older (Perm.refl (row ∷ r ∷ rows))
  | inr newer ↦
      rw newer (Perm.trans (Perm.cons r (insert_desc-Perm row rows)) (Perm.swap row r rows))
]

order_desc-Perm : (rows : List KeyRow) → Perm (order_desc rows) rows
unfolding order_desc
order_desc-Perm [] = Perm.refl []
order_desc-Perm (row ∷ rows) =
    Perm.trans (insert_desc-Perm row (order_desc rows)) (Perm.cons row (order_desc-Perm rows))

-- each key has a greater id than those behind it
abbrev pub IsNewestFirst : List Key → Type 0
IsNewestFirst [] = Unit
IsNewestFirst (k ∷ keys) = All (λ later. later.id < k.id) keys × IsNewestFirst keys

-- the same of rows, all of them above `low`
abbrev Descends : ℕ → List KeyRow → Type 0
Descends low [] = Unit
Descends low (row ∷ rows) =
    (low < row.id) × All (λ later. later.id < row.id) rows × Descends low rows

Descends-down : (m n : ℕ) (rows : List KeyRow) → m ≤ n → Descends n rows → Descends m rows
Descends-down m n [] le h = tt
Descends-down m n (row ∷ rows) le h =
    (let above : n < row.id = h.0 in omega arith, h.1, Descends-down m n rows le h.2)

All-insert_desc :
    (P : KeyRow → Type 0) (row : KeyRow) (rows : List KeyRow)
    → P row
    → All P rows
    → All P (insert_desc row rows)
unfolding insert_desc
All-insert_desc P row [] p h = (p, tt)
All-insert_desc P row (r ∷ rows) p h = elim (Bool-cases (ltb r.id row.id)) [
  | inl older ↦ rw older (p, h)
  | inr newer ↦ rw newer (h.0, All-insert_desc P row rows p h.1)
]

insert_desc-Descends :
    (low : ℕ) (row : KeyRow) (rows : List KeyRow)
    → low < row.id
    → Descends row.id rows
    → Descends low (insert_desc row rows)
unfolding insert_desc
insert_desc-Descends low row [] p h = (p, tt, tt)
insert_desc-Descends low row (r ∷ rows) p h =
    let above : row.id < r.id = h.0 in
    let newer : ltb r.id row.id ≡ false = ground arith in
    rw newer (
      omega arith,
      All-insert_desc (λ later. later.id < r.id) row rows above h.1,
      insert_desc-Descends low row rows p h.2,
    )

order_desc-Descends :
    (low high : ℕ) (rows : List KeyRow) → Ascends low rows high → Descends low (order_desc rows)
unfolding order_desc
order_desc-Descends low high [] h = tt
order_desc-Descends low high (row ∷ rows) h =
    insert_desc-Descends low row (order_desc rows) h.0 (order_desc-Descends row.id high rows h.1)

scanned-IsNewestFirst :
    (low : ℕ) (rows : List KeyRow) → Descends low rows → IsNewestFirst (map scan_key rows)
unfolding scan_key
scanned-IsNewestFirst low [] h = tt
scanned-IsNewestFirst low (row ∷ rows) h = (scanned rows h.1, scanned-IsNewestFirst low rows h.2)
  where
    scanned :
        (rows : List KeyRow)
        → All (λ later. later.id < row.id) rows
        → All (λ later. later.id < (scan_key row).id) (map scan_key rows)
    scanned [] a = tt
    scanned (r ∷ rows) a = (a.0, scanned rows a.1)

-- `List` gives every key of a sound table once, without its hash, those that were issued last first.
pub list_keys-IsNewestFirst :
    (s s' : Store) (keys : List Key)
    → IsSound s.db
    → list_keys s ≡ (ok keys, s')
    → Perm keys (map scan_key s.db.keys) × IsNewestFirst keys
unfolding list_keys
list_keys-IsNewestFirst s s' keys sound =
    statement_cases
      (λ x.
        bind_result (λ rows. pure (map scan_key rows)) x ≡ (ok keys, s')
        → Perm keys (map scan_key s.db.keys) × IsNewestFirst keys)
      (λ t. (ok (order_desc t.db.keys), t)) s (λ f e. listed e) (λ f e. absurd (cc))
  where
    listed :
        {f : Store}
        → Path
            (Result (List Key) × Store)
            (ok (map scan_key (order_desc s.db.keys)), f)
            (ok keys, s')
        → Perm keys (map scan_key s.db.keys) × IsNewestFirst keys
    listed e =
        let same : map scan_key (order_desc s.db.keys) ≡ keys = ground arith in
        subst (λ z. Perm z (map scan_key s.db.keys) × IsNewestFirst z) same
          (
            Perm.map scan_key (order_desc-Perm s.db.keys),
            scanned-IsNewestFirst 0 (order_desc s.db.keys)
                (order_desc-Descends 0 s.db.key_seq s.db.keys sound.ids),
          )
