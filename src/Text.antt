-- ===== src/Text.antt =====
-- Go strings as lists of bytes, with what the program uses of package strings.
use Prim.Native.Char.{code}
use Prim.Native.String.{String}
use slim_m_relay.Prelude.{
  ℕ, zero, suc, ◌+◌, ◌/◌, ◌%◌, ◌≡◌, refl, ◌↔◌, Bool, true, false, ◌&&◌, ◌||◌, List, [], ◌∷◌, ◌++◌,
  map, arith, leb, ◌==◌, if◌then◌else◌,
}
use mathlib.Core.List.{reverse}

abbrev pub Str : Type 0
Str = List ℕ

-- The bytes of an ASCII literal. `String` has its own `[]` and `∷`.
abbrev pub codes : String → Str
codes String.[] = []
codes (String.◌∷◌ c s) = code c ∷ codes s

unfoldable pub str_eq : Str → Str → Bool
str_eq [] [] = true
str_eq [] (b ∷ t) = false
str_eq (a ∷ s) [] = false
str_eq (a ∷ s) (b ∷ t) = a == b && str_eq s t

pub str_eq_iff : (s t : Str) → (str_eq s t ≡ true) ↔ (s ≡ t)
unfolding str_eq
str_eq_iff [] [] = ground arith
str_eq_iff [] (b ∷ t) = ground arith
str_eq_iff (a ∷ s) [] = ground arith
str_eq_iff (a ∷ s) (b ∷ t) = ground (arith, str_eq_iff s t)

pub str_eq_comm : (s t : Str) → str_eq s t ≡ str_eq t s
unfolding str_eq
str_eq_comm [] [] = refl
str_eq_comm [] (b ∷ t) = refl
str_eq_comm (a ∷ s) [] = refl
str_eq_comm (a ∷ s) (b ∷ t) = ground (arith, str_eq_comm s t)

pub str_eq_refl : (s : Str) → str_eq s s ≡ true
str_eq_refl s = (str_eq_iff s s).1 refl

-- strings.TrimSpace. The width in bytes of the white space that a text begins with, 0 if none: ASCII,
-- then U+0085, U+00A0, U+1680, U+2000 to U+200A, U+2028, U+2029, U+202F, U+205F and U+3000.
unfoldable pub is_ascii_space : ℕ → Bool
is_ascii_space a = (leb 9 a && leb a 13) || a == 32

abbrev pub is_space2 : ℕ → ℕ → Bool
is_space2 a b = a == 0xc2 && (b == 0x85 || b == 0xa0)

abbrev pub is_space3 : ℕ → ℕ → ℕ → Bool
is_space3 a b c =
    (a == 0xe1 && (b == 0x9a && c == 0x80))
    || (a == 0xe2
        && (b == 0x80 && ((leb 0x80 c && leb c 0x8a) || (c == 0xa8 || (c == 0xa9 || c == 0xaf)))))
    || (a == 0xe2 && (b == 0x81 && c == 0x9f))
    || (a == 0xe3 && (b == 0x80 && c == 0x80))

-- `fits a b c` says whether the bytes are white space in the order in which they are met
unfoldable pub trim_front : (ℕ → ℕ → Bool) → (ℕ → ℕ → ℕ → Bool) → Str → Str
unfolding is_ascii_space
trim_front two three [] = []
trim_front two three (a ∷ []) = if is_ascii_space a then [] else a ∷ []
trim_front two three (a ∷ b ∷ []) =
    let one_off = trim_front two three (b ∷ []) in
    if is_ascii_space a then one_off else if two a b then [] else a ∷ b ∷ []
trim_front two three (a ∷ b ∷ c ∷ s) =
    let one_off = trim_front two three (b ∷ c ∷ s) in
    let two_off = trim_front two three (c ∷ s) in
    let three_off = trim_front two three s in
    if is_ascii_space a
    then one_off
    else if two a b
    then two_off
    else if three a b c
    then three_off
    else a ∷ b ∷ c ∷ s

-- from the left, and from the right on the reversed text
unfoldable pub trim_space : Str → Str
unfolding trim_front
trim_space s = reverse (
    trim_front (λ a b. is_space2 b a) (λ a b c. is_space3 c b a)
      (reverse (trim_front is_space2 is_space3 s)))

trim_space_samples :
    (trim_space (codes "  a b\n") ≡ codes "a b")
    × (trim_space (0xc2 ∷ 0xa0 ∷ b'x' ∷ 0xe2 ∷ 0x80 ∷ 0x83 ∷ []) ≡ b'x' ∷ [])
    × (trim_space (codes " \t ") ≡ [])
unfolding trim_space
trim_space_samples = (refl, refl, refl)

-- an ASCII letter in lower case
unfoldable pub to_lower : ℕ → ℕ
to_lower c = if leb b'A' c && leb c b'Z' then c + 32 else c

-- strings.EqualFold against an ASCII text without `k` and `s`, the letters with further variants
unfoldable pub equal_fold : Str → Str → Bool
unfolding to_lower str_eq
equal_fold s t = str_eq (map to_lower s) (map to_lower t)

-- the part of a text behind its last comma, as the last of `strings.Split(s, ",")`
unfoldable pub after_last : ℕ → Str → Str → Str
after_last sep part [] = part
after_last sep part (c ∷ s) = after_last sep (if c == sep then [] else part ++ c ∷ []) s

-- strconv.FormatInt of a number that is not negative, in base 10
unfoldable pub decimal : ℕ → ℕ → Str → Str
decimal zero n out = out
decimal (suc fuel) n out =
    let out' = (n % 10 + b'0') ∷ out in
    let rest = decimal fuel (n / 10) out' in if n / 10 == 0 then out' else rest

unfoldable pub format_int : ℕ → Str
unfolding decimal
format_int n = decimal (suc n) n []

format_int_samples : (format_int 0 ≡ codes "0") × (format_int 9075 ≡ codes "9075")
unfolding format_int
format_int_samples = (refl, refl)
