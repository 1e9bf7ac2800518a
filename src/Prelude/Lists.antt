-- ===== src/Prelude/Lists.antt =====
-- Lists measured and indexed by native numbers, under the library's names, and `All` by recursion.
use Prim.Native.Nat.{ℕ, zero, suc, ◌+◌, ◌<◌, ◌≤◌}
use mathlib.Core.Path.{◌≡◌, refl, ap, sym, subst}
use mathlib.Core.Logic.{◌≢◌, ◌⊎◌, inl, inr, ◌↔◌}
use mathlib.Core.Bool.{Bool, true, false, ◌||◌}
use mathlib.Core.List.{List, [], ◌∷◌, ◌++◌, map}
use mathlib.Core.Option.{Option, none, some, some-injective}
use native.Mathlib.Omega.{arith}
use slim_m_relay.Prelude.Tests.{if◌then◌else◌, Bool-cases}

module _ {ℓ} {A : Type ℓ} where
  abbrev pub length : List A → ℕ
  length [] = 0
  length (x ∷ xs) = suc (length xs)

  abbrev pub get_elem? : List A → ℕ → Option A
  get_elem? [] i = none
  get_elem? (x ∷ xs) zero = some x
  get_elem? (x ∷ xs) (suc i) = get_elem? xs i

  -- A write out of bounds changes nothing.
  abbrev pub set : List A → ℕ → A → List A
  set [] i v = []
  set (x ∷ xs) zero v = v ∷ xs
  set (x ∷ xs) (suc i) v = x ∷ set xs i v

  abbrev pub take : ℕ → List A → List A
  take zero xs = []
  take (suc n) [] = []
  take (suc n) (x ∷ xs) = x ∷ take n xs

  abbrev pub drop : ℕ → List A → List A
  drop zero xs = xs
  drop (suc n) [] = []
  drop (suc n) (x ∷ xs) = drop n xs

  -- The entries that pass a test.
  abbrev pub keep : (A → Bool) → List A → List A
  keep p [] = []
  keep p (x ∷ xs) = let rest = keep p xs in if p x then x ∷ rest else rest

  abbrev pub All {κ} : (A → Type κ) → List A → Type κ
  All P [] = Unit
  All P (x ∷ xs) = P x × All P xs

  -- whether an entry passes a test, and that one meets a predicate
  abbrev pub any : (A → Bool) → List A → Bool
  any p [] = false
  any p (x ∷ xs) = p x || any p xs

  abbrev pub Has {κ} : (A → Type κ) → List A → Type (ℓ ⊔ κ)
  Has P xs = (n : ℕ) × (x : A) × (get_elem? xs n ≡ some x) × P x

module _ {ℓ} {A : Type ℓ} where
  pub any-Has {κ} :
      (p : A → Bool) (P : A → Type κ)
      → ((x : A) → (p x ≡ true) ↔ P x)
      → (xs : List A) → (any p xs ≡ true) ↔ Has P xs
  any-Has p P h [] = (λ e. absurd (cc), λ (n, x, e, _). absurd (cc))
  any-Has p P h (x ∷ xs) = (to (any-Has p P h xs), from (any-Has p P h xs))
    where
      to : ((any p xs ≡ true) ↔ Has P xs) → (p x || any p xs) ≡ true → Has P (x ∷ xs)
      to rest e = elim (Bool-cases (p x)) [
        | inl passed ↦ (0, x, refl, (h x).0 passed)
        | inr failed ↦ let (n, y, at, v) = rest.0 (rw failed at e) in (suc n, y, at, v)
      ]

      from : ((any p xs ≡ true) ↔ Has P xs) → Has P (x ∷ xs) → (p x || any p xs) ≡ true
      from rest (zero, y, at, v) =
          let passed : p x ≡ true = (h x).1 (subst P (sym (some-injective _ _ at)) v) in
          rw passed refl
      from rest (suc n, y, at, v) = elim (Bool-cases (p x)) [
        | inl passed ↦ rw passed refl
        | inr failed ↦ rw failed (rest.1 (n, y, at, v))
      ]

  pub length-append : (xs ys : List A) → length (xs ++ ys) ≡ length xs + length ys
  length-append [] ys = omega arith
  length-append (x ∷ xs) ys = omega (arith, length-append xs ys)

  pub length-set : (xs : List A) (i : ℕ) (v : A) → length (set xs i v) ≡ length xs
  length-set [] i v = refl
  length-set (x ∷ xs) zero v = refl
  length-set (x ∷ xs) (suc i) v = ap suc (length-set xs i v)

  pub get_elem?-set_self :
      (xs : List A) (i : ℕ) (v : A) → i < length xs → get_elem? (set xs i v) i ≡ some v
  get_elem?-set_self [] i v h = elim h [ ]
  get_elem?-set_self (x ∷ xs) zero v h = refl
  get_elem?-set_self (x ∷ xs) (suc i) v h = get_elem?-set_self xs i v (omega arith)

  pub get_elem?-set_ne :
      (xs : List A) (i j : ℕ) (v : A) → i ≢ j → get_elem? (set xs i v) j ≡ get_elem? xs j
  get_elem?-set_ne [] i j v h = refl
  get_elem?-set_ne (x ∷ xs) zero zero v h = absurd (h refl)
  get_elem?-set_ne (x ∷ xs) zero (suc j) v h = refl
  get_elem?-set_ne (x ∷ xs) (suc i) zero v h = refl
  get_elem?-set_ne (x ∷ xs) (suc i) (suc j) v h = get_elem?-set_ne xs i j v (λ e. h (ap suc e))

  pub length-keep-le : (p : A → Bool) (xs : List A) → length (keep p xs) ≤ length xs
  length-keep-le p [] = omega arith
  length-keep-le p (x ∷ xs) = ground (arith, length-keep-le p xs)

  pub All-append {κ} : (P : A → Type κ) (xs ys : List A) → All P xs → All P ys → All P (xs ++ ys)
  All-append P [] ys hx hy = hy
  All-append P (x ∷ xs) ys hx hy = (hx.0, All-append P xs ys hx.1 hy)

  pub All-map {κ μ} :
      (P : A → Type κ) (Q : A → Type μ)
      → ((a : A) → P a → Q a)
      → (xs : List A) → All P xs
      → All Q xs
  All-map P Q f [] h = tt
  All-map P Q f (x ∷ xs) h = (f x h.0, All-map P Q f xs h.1)

  -- A list is determined by its entries.
  pub list_ext : (xs ys : List A) → ((x : ℕ) → get_elem? xs x ≡ get_elem? ys x) → xs ≡ ys
  list_ext [] [] h = refl
  list_ext [] (y ∷ ys) h = absurd (let first = h 0 in ground arith)
  list_ext (x ∷ xs) [] h = absurd (let first = h 0 in ground arith)
  list_ext (x ∷ xs) (y ∷ ys) h =
      let first : get_elem? (x ∷ xs) 0 ≡ get_elem? (y ∷ ys) 0 = h 0 in
      let rest : xs ≡ ys = list_ext xs ys (λ n. h (suc n)) in cc

  pub get_elem?-append_left :
      (xs ys : List A) (x : ℕ) (a : A) → get_elem? xs x ≡ some a → get_elem? (xs ++ ys) x ≡ some a
  get_elem?-append_left [] ys x a e = cc
  get_elem?-append_left (b ∷ xs) ys zero a e = e
  get_elem?-append_left (b ∷ xs) ys (suc x) a e = get_elem?-append_left xs ys x a e

  pub get_elem?-append_length :
      (xs : List A) (a : A) → get_elem? (xs ++ a ∷ []) (length xs) ≡ some a
  get_elem?-append_length [] a = refl
  get_elem?-append_length (b ∷ xs) a = get_elem?-append_length xs a

  -- an entry of a list with one more is an old one or the new one
  pub get_elem?-append_cases :
      (xs : List A) (a b : A) (x : ℕ)
      → get_elem? (xs ++ a ∷ []) x ≡ some b
      → (get_elem? xs x ≡ some b) ⊎ ((x ≡ length xs) × (b ≡ a))
  get_elem?-append_cases [] a b zero e = inr (refl, let one : some a ≡ some b = e in ground arith)
  get_elem?-append_cases [] a b (suc x) e = absurd (let no_one : none ≡ some b = e in ground arith)
  get_elem?-append_cases (c ∷ xs) a b zero e = inl e
  get_elem?-append_cases (c ∷ xs) a b (suc x) e = elim (get_elem?-append_cases xs a b x e) [
    | inl old ↦ inl old
    | inr (last, new) ↦ inr (ap suc last, new)
  ]

  -- an entry of a list with one set is an old one or the new one
  pub get_elem?-set_cases :
      (xs : List A) (i : ℕ) (v b : A) (x : ℕ)
      → get_elem? (set xs i v) x ≡ some b
      → (get_elem? xs x ≡ some b) ⊎ ((x ≡ i) × (b ≡ v))
  get_elem?-set_cases [] i v b x e = inl e
  get_elem?-set_cases (c ∷ xs) zero v b zero e =
      inr (refl, let one : some v ≡ some b = e in ground arith)
  get_elem?-set_cases (c ∷ xs) zero v b (suc x) e = inl e
  get_elem?-set_cases (c ∷ xs) (suc i) v b zero e = inl e
  get_elem?-set_cases (c ∷ xs) (suc i) v b (suc x) e = elim (get_elem?-set_cases xs i v b x e) [
    | inl old ↦ inl old
    | inr (at, new) ↦ inr (ap suc at, new)
  ]

  pub get_elem?-lt : (n : ℕ) (xs : List A) (a : A) → get_elem? xs n ≡ some a → n < length xs
  get_elem?-lt n [] a e = cc
  get_elem?-lt zero (x ∷ xs) a e = omega arith
  get_elem?-lt (suc n) (x ∷ xs) a e = omega (arith, get_elem?-lt n xs a e)

  pub get_elem?-some : (n : ℕ) (xs : List A) → n < length xs → (a : A) × (get_elem? xs n ≡ some a)
  get_elem?-some n [] h = absurd (omega arith)
  get_elem?-some zero (x ∷ xs) h = (x, refl)
  get_elem?-some (suc n) (x ∷ xs) h = get_elem?-some n xs (omega arith)

module _ {ℓ κ} {A : Type ℓ} {B : Type κ} where
  -- A list whose entries are the images of another's is its image.
  pub map_of_entries :
      (f : A → B) (xs : List A) (ys : List B)
      → length xs ≡ length ys
      → ((x : ℕ) (a : A) → get_elem? xs x ≡ some a → get_elem? ys x ≡ some (f a))
      → map f xs ≡ ys
  map_of_entries f [] [] e h = refl
  map_of_entries f [] (y ∷ ys) e h = absurd (omega arith)
  map_of_entries f (x ∷ xs) [] e h = absurd (omega arith)
  map_of_entries f (x ∷ xs) (y ∷ ys) e h =
      let first : get_elem? (y ∷ ys) 0 ≡ some (f x) = h 0 x refl in
      let rest : map f xs ≡ ys = map_of_entries f xs ys (omega arith) (λ n a q. h (suc n) a q) in cc

module _ {ℓ κ} {A : Type ℓ} where
  pub All-of_entries :
      (P : A → Type κ) (xs : List A) → ((x : ℕ) (a : A) → get_elem? xs x ≡ some a → P a) → All P xs
  All-of_entries P [] h = tt
  All-of_entries P (x ∷ xs) h = (h 0 x refl, All-of_entries P xs (λ n a q. h (suc n) a q))
