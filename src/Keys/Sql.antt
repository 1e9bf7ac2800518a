-- ===== src/Keys/Sql.antt =====
-- The store of internal/keys/keys.go and database/sql as it uses it: one connection, statements that
-- may fail, and transactions that roll back. `faults` says of each of the next statements whether
-- the database refuses it (a full disk, a cancelled context); past its end none is refused.
use slim_m_relay.Prelude.{ℕ, Bool, true, false, Option, none, some, List, [], ◌∷◌}
use slim_m_relay.Keys.Tables.{Db}

pub data Error : Type 0 where
  not_found registration_ceiling sql_error rand_error : Error

pub data Result {ℓ} (A : Type ℓ) : Type ℓ where
  ok : A → Result A
  err : Error → Result A

pub record Store : Type 0 where
  pub db : Db
  pub last_prune : ℕ
  pub faults : List Bool

abbrev pub M : Type 0 → Type 0
M A = Store → Result A × Store

abbrev pub pure : {A : Type 0} → A → M A
pure a s = (ok a, s)

abbrev pub fail : {A : Type 0} → Error → M A
fail e s = (err e, s)

infixl 5 ◌>>=◌ ◌>>◌
abbrev pub bind_result : {A B : Type 0} → (A → M B) → Result A × Store → Result B × Store
bind_result f (ok a, s) = f a s
bind_result f (err e, s) = (err e, s)

abbrev pub ◌>>=◌ : {A B : Type 0} → M A → (A → M B) → M B
◌>>=◌ m f s = bind_result f (m s)

abbrev pub ◌>>◌ : {B : Type 0} → M (Unit {0}) → M B → M B
m >> k = m >>= λ _. k

-- the next statement's fault, and the store without it
abbrev pub run_or_refuse : {A : Type 0} → M A → List Bool → M A
run_or_refuse m [] s = m s
run_or_refuse m (true ∷ rest) s = (err sql_error, record s { faults = rest })
run_or_refuse m (false ∷ rest) s = m (record s { faults = rest })

abbrev pub statement : {A : Type 0} → M A → M A
statement m s = run_or_refuse m s.faults s

-- a statement that reads
abbrev pub query : {A : Type 0} → (Db → A) → M A
query f = statement (λ s. (ok (f s.db), s))

-- a statement that writes; `none` is a constraint violation
abbrev pub written : Option Db → M (Unit {0})
written none s = (err sql_error, s)
written (some db) s = (ok tt, record s { db = db })

abbrev pub exec : (Db → Option Db) → M (Unit {0})
exec f = statement (λ s. written (f s.db) s)

-- `defer tx.Rollback()`: an error leaves the tables as they were when the transaction began
abbrev pub rolled_back : {A : Type 0} → Db → Result A × Store → Result A × Store
rolled_back before (ok a, s) = (ok a, s)
rolled_back before (err e, s) = (err e, record s { db = before })

abbrev pub begin : M (Unit {0})
begin = statement (pure tt)

abbrev pub commit : M (Unit {0})
commit = statement (pure tt)

abbrev pub transaction : {A : Type 0} → M A → M A
transaction body s = rolled_back s.db ((do begin; a ← body; commit; pure a) s)

-- A statement runs, or the database refuses it; either way one fault is used up.
pub statement_cases {ℓ} :
    {A : Type 0} (P : Result A × Store → Type ℓ) (m : M A) (s : Store)
    → ((rest : List Bool) → P (m (record s { faults = rest })))
    → ((rest : List Bool) → P (err sql_error, record s { faults = rest }))
    → P (statement m s)
statement_cases P m s done refused = go s.faults
  where
    go : (faults : List Bool) → P (run_or_refuse m faults s)
    go [] = done s.faults
    go (true ∷ rest) = refused rest
    go (false ∷ rest) = done rest
