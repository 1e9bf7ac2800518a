-- ===== src/Config/Numbers.antt =====
-- strconv.Atoi, as internal/config/config.go uses it, reads back what strconv.FormatInt, as the limiters'
-- keys of internal/api/send.go use it, writes.
use slim_m_relay.Prelude.{
  ℕ, zero, suc, ◌+◌, ◌-◌, ◌*◌, ◌/◌, ◌%◌, ◌^◌, ◌≤◌, ◌<◌, ◌≡◌, refl, ◌∙◌, ap, sym, true, false, ◌&&◌,
  some, some-injective, [], ◌∷◌, leb, ltb, ◌==◌, arith, Bool-cases, inl, inr,
}
use slim_m_relay.Prelude.Int.{pos, pos_part}
use slim_m_relay.Text.{Str, decimal, format_int}
use slim_m_relay.Config.{digits, unsigned, atoi}

digits-digit :
    (n q : ℕ) (out : Str) → digits q ((n % 10 + b'0') ∷ out) ≡ digits (q * 10 + n % 10) out
unfolding digits
digits-digit n q out =
    let small : n % 10 < 10 = omega arith in
    let test : (leb b'0' (n % 10 + b'0') && leb (n % 10 + b'0') b'9') ≡ true = ground arith in
    let value : q * 10 + (n % 10 + b'0' - b'0') ≡ q * 10 + n % 10 = omega arith in
    rw (test, value) refl

-- With fuel for its digits, `decimal` writes `n` before the text.
digits-decimal : (fuel n : ℕ) (out : Str) → n < fuel → digits 0 (decimal fuel n out) ≡ digits n out
unfolding decimal
digits-decimal zero n out h = absurd (omega arith)
digits-decimal (suc fuel) n out h = elim (Bool-cases (n / 10 == 0)) [
  | inl last ↦
      let value : 0 * 10 + n % 10 ≡ n = ground arith in
      rw last (digits-digit n 0 out ∙ rw value refl)
  | inr more ↦
      let fewer : n / 10 < fuel = ground arith in
      let value : n / 10 * 10 + n % 10 ≡ n = omega arith in
      rw more (
        digits-decimal fuel (n / 10) ((n % 10 + b'0') ∷ out) fewer
        ∙ digits-digit n (n / 10) out
        ∙ rw value refl)
]

abbrev StartsWithDigit : Str → Type 0
StartsWithDigit [] = ⊥
StartsWithDigit (c ∷ s) = (b'0' ≤ c) × (c ≤ b'9')

decimal-StartsWithDigit : (fuel n : ℕ) (out : Str) → n < fuel → StartsWithDigit (decimal fuel n out)
unfolding decimal
decimal-StartsWithDigit zero n out h = absurd (omega arith)
decimal-StartsWithDigit (suc fuel) n out h = elim (Bool-cases (n / 10 == 0)) [
  | inl last ↦ rw last (omega arith)
  | inr more ↦
      let fewer : n / 10 < fuel = ground arith in
      rw more (decimal-StartsWithDigit fuel (n / 10) ((n % 10 + b'0') ∷ out) fewer)
]

atoi-digits :
    (n : ℕ) (s : Str) → n < 2 ^ 63 → StartsWithDigit s → digits 0 s ≡ some n → atoi s ≡ some (pos n)
unfolding atoi unsigned
atoi-digits n [] small h e = absurd h
atoi-digits n (c ∷ s) small h e =
    let minus : (c == b'-') ≡ false = ground arith in
    let plus : (c == b'+') ≡ false = ground arith in
    let fits : ltb n (2 ^ 63) ≡ true = ground arith in rw (minus, plus, e, fits) refl

-- `strconv.Atoi` reads back the text of every number below 2 ^ 63.
pub atoi-format_int : (n : ℕ) → n < 2 ^ 63 → atoi (format_int n) ≡ some (pos n)
unfolding format_int digits
atoi-format_int n small =
    atoi-digits n (decimal (suc n) n []) small (decimal-StartsWithDigit (suc n) n [] (omega arith))
      (digits-decimal (suc n) n [] (omega arith) ∙ digits-end n)
  where
    digits-end : (n : ℕ) → digits n [] ≡ some n
    digits-end n = refl

-- Two keys with distinct ids never share a bucket: their texts differ.
pub format_int-injective : (m n : ℕ) → m < 2 ^ 63 → n < 2 ^ 63 → format_int m ≡ format_int n → m ≡ n
format_int-injective m n small small' e =
    let same : some (pos m) ≡ some (pos n) =
      sym (atoi-format_int m small) ∙ rw e (atoi-format_int n small') in
    ap pos_part (some-injective _ _ same)

-- a number's text is not empty
pub format_int-cons : (n : ℕ) → (c : ℕ) × ((s : Str) × (format_int n ≡ c ∷ s))
unfolding format_int
format_int-cons n =
    go (decimal (suc n) n []) refl (decimal-StartsWithDigit (suc n) n [] (omega arith))
  where
    go :
        (text : Str)
        → decimal (suc n) n [] ≡ text
        → StartsWithDigit text
        → (c : ℕ) × ((s : Str) × (decimal (suc n) n [] ≡ c ∷ s))
    go [] e h = absurd h
    go (c ∷ s) e h = (c, (s, e))
