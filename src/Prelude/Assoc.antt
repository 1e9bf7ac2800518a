-- ===== src/Prelude/Assoc.antt =====
-- A Go map with string keys: an association list with one entry for each key.
use slim_m_relay.Prelude.{
  ◌≡◌, refl, Bool, Option, none, some, List, [], ◌∷◌, keep, Bool-cases, inl, inr, arith,
  if◌then◌else◌,
}
use slim_m_relay.Text.{Str, str_eq, str_eq_iff, str_eq_refl}

abbrev pub Assoc {ℓ} : Type ℓ → Type ℓ
Assoc V = List (Str × V)

module _ {ℓ} {V : Type ℓ} where
  -- v, ok := m[k]
  unfoldable pub lookup : Str → Assoc V → Option V
  lookup k [] = none
  lookup k ((j, v) ∷ m) = if str_eq j k then some v else lookup k m

  -- m[k] = v
  unfoldable pub insert : Str → V → Assoc V → Assoc V
  insert k v [] = (k, v) ∷ []
  insert k v ((j, w) ∷ m) = if str_eq j k then (k, v) ∷ m else (j, w) ∷ insert k v m

  pub lookup-insert :
      (k j : Str) (v : V) (m : Assoc V)
      → lookup j (insert k v m) ≡ (if str_eq k j then some v else lookup j m)
  unfolding lookup insert
  lookup-insert k j v [] = refl
  lookup-insert k j v ((i, w) ∷ m) =
      ground (arith, str_eq_iff k j, str_eq_iff i k, str_eq_iff i j, lookup-insert k j v m)

  -- Each key has one entry, as in a map.
  abbrev pub IsMap : Assoc V → Type ℓ
  IsMap [] = Unit
  IsMap ((k, v) ∷ m) = (lookup k m ≡ none) × IsMap m

  pub insert-IsMap : (k : Str) (v : V) (m : Assoc V) → IsMap m → IsMap (insert k v m)
  unfolding lookup insert
  insert-IsMap k v [] h = (refl, tt)
  insert-IsMap k v ((j, w) ∷ m) h =
      ground (arith, str_eq_iff j k, str_eq_iff k j, lookup-insert k j v m, insert-IsMap k v m h.1)

  lookup-keep-none :
      (p : Str × V → Bool) (k : Str) (m : Assoc V) → lookup k m ≡ none → lookup k (keep p m) ≡ none
  unfolding lookup
  lookup-keep-none p k [] h = refl
  lookup-keep-none p k ((j, v) ∷ m) h = ground (arith, lookup-keep-none p k m)

  pub keep-IsMap : (p : Str × V → Bool) (m : Assoc V) → IsMap m → IsMap (keep p m)
  keep-IsMap p [] h = tt
  keep-IsMap p ((j, v) ∷ m) h = ground (arith, lookup-keep-none p j m, keep-IsMap p m h.1)

  -- The entry for a key after a deletion of all entries that fail a test.
  abbrev pub kept : (Str × V → Bool) → Str → Option V → Option V
  kept p k none = none
  kept p k (some v) = if p (k, v) then some v else none

  pub lookup-keep :
      (p : Str × V → Bool) (k : Str) (m : Assoc V)
      → IsMap m
      → lookup k (keep p m) ≡ kept p k (lookup k m)
  unfolding lookup
  lookup-keep p k [] h = refl
  lookup-keep p k ((j, v) ∷ m) h = elim (Bool-cases (str_eq j k)) [
    | inl e ↦ rw (← (str_eq_iff j k).0 e) (ground (arith, str_eq_refl j, lookup-keep-none p j m))
    | inr e ↦ ground (arith, lookup-keep p k m h.1)
  ]
