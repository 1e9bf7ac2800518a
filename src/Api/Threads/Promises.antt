-- ===== src/Api/Threads/Promises.antt =====
-- What a program of internal/api promises whatever the other threads do between its acts.
use slim_m_relay.Api.Threads.{Act, Answer, Program, finish, act, ◌>>=◌}

-- Every act that the program may come to meets `W`, and every result `Q`, as long as each answer
-- meets `G`.
abbrev pub Promises :
    {A : Type 0}
    → ((a : Act) → Type 0)
    → ((a : Act) → Answer a → Type 0)
    → (A → Type 0)
    → Program A
    → Type 0
Promises W G Q (finish x) = Q x
Promises W G Q (act a k) = W a × ((x : Answer a) → G a x → Promises W G Q (k x))

module _ (W : Act → Type 0) (G : (a : Act) → Answer a → Type 0) where
  pub Promises-bind :
      {A B : Type 0} (P : A → Type 0) (Q : B → Type 0) (p : Program A) (f : A → Program B)
      → Promises W G P p
      → ((x : A) → P x → Promises W G Q (f x))
      → Promises W G Q (p >>= f)
  Promises-bind P Q (finish x) f h g = g x h
  Promises-bind P Q (act a k) f h g = (h.0, λ x ok. Promises-bind P Q (k x) f (h.1 x ok) g)
