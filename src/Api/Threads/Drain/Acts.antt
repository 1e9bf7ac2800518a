-- ===== src/Api/Threads/Drain/Acts.antt =====
-- The acts that the threads of internal/api have left, together.
use slim_m_relay.Prelude.{
  ℕ, zero, suc, ◌+◌, ◌*◌, ◌≤◌, ◌<◌, ◌≡◌, refl, ◌∙◌, All, some, some-injective, List, [], ◌∷◌, ◌++◌,
  length, get_elem?, set, arith, inl, inr, ◌⊎◌, subst, ap,
}
use native.Mathlib.Nat.{mul-suc}
use slim_m_relay.Api.Http.{Response}
use slim_m_relay.Api.Threads.{Act, Answer, Program, finish, act}
use slim_m_relay.Api.Threads.Takes.{Takes, Anything}
use slim_m_relay.Api.Threads.Steps.{Thread}

-- the reply is written
abbrev pub IsReplied : Thread → Type 0
IsReplied t = (reply : Response) × (t.rest ≡ finish reply)

-- the threads have `n` acts left at most, together
abbrev pub Left : ℕ → List Thread → Type 0
Left n [] = Unit
Left n (t ∷ ts) = (m : ℕ) × (rest : ℕ) × Takes m Anything t.rest × Left rest ts × (m + rest ≤ n)

pub Left-set :
    (n i : ℕ) (ts : List Thread) (t new : Thread) (a : Act) (k : Answer a → Program Response)
    → Left n ts
    → get_elem? ts i ≡ some t
    → t.rest ≡ act a k
    → ((m : ℕ) → Takes (suc m) Anything (act a k) → Takes m Anything new.rest)
    → (fewer : ℕ) × (fewer < n) × Left fewer (set ts i new)
Left-set n i [] t new a k left e next go = absurd (cc)
Left-set n zero (u ∷ ts) t new a k (m, rest, takes, left, le) e next go =
    pick m
      (subst (Takes m Anything) (ap (λ (z : Thread). z.rest) (some-injective u t e) ∙ next) takes)
      le
  where
    pick :
        (m : ℕ)
        → Takes m Anything (act a k)
        → m + rest ≤ n
        → (fewer : ℕ) × (fewer < n) × Left fewer (new ∷ ts)
    pick zero takes le = absurd takes
    pick (suc m) takes le = (m + rest, omega arith, (m, rest, go m takes, left, omega arith))
Left-set n (suc i) (u ∷ ts) t new a k (m, rest, takes, left, le) e next go =
    let (fewer, less, after) = Left-set rest i ts t new a k left e next go in
    (m + fewer, omega arith, (m, fewer, takes, after, omega arith))

Left-append :
    (n : ℕ) (ts : List Thread) (t : Thread) (b : ℕ)
    → Left n ts
    → Takes b Anything t.rest
    → Left (n + b) (ts ++ t ∷ [])
Left-append n [] t b left takes = (b, 0, takes, tt, omega arith)
Left-append n (u ∷ ts) t b (m, rest, ok, left, le) takes =
    (m, rest + b, ok, Left-append rest ts t b left takes, omega arith)

pub Left-all :
    (b : ℕ) (ts : List Thread)
    → ((i : ℕ) (t : Thread) → get_elem? ts i ≡ some t → Takes b Anything t.rest)
    → Left (b * length ts) ts
Left-all b [] h = tt
Left-all b (t ∷ ts) h = (
  b,
  b * length ts,
  h 0 t refl,
  Left-all b ts (λ i u e. h (suc i) u e),
  omega (arith, mul-suc b (length ts)),
)

-- a thread with an act left
abbrev pub Pending : List Thread → Type 0
Pending ts =
    (i : ℕ) × (t : Thread) × (a : Act) × (k : Answer a → Program Response) × (get_elem? ts i
      ≡ some t)
    × (t.rest ≡ act a k)

pub Pending-cases : (ts : List Thread) → All IsReplied ts ⊎ Pending ts
Pending-cases [] = inl tt
Pending-cases (t ∷ ts) = first (Pending-cases ts) t.rest refl
  where
    first :
        All IsReplied ts ⊎ Pending ts
        → (rest : Program Response) → t.rest ≡ rest
        → All IsReplied (t ∷ ts) ⊎ Pending (t ∷ ts)
    first others (act a k) e = inr (0, t, a, k, refl, e)
    first (inl all) (finish reply) e = inl ((reply, e), all)
    first (inr (i, u, a, k, at, next)) (finish reply) e = inr (suc i, u, a, k, at, next)
