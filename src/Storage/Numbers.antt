-- ===== src/Storage/Numbers.antt =====
-- A number written with `to_string` and read back with `trim` and `parse::<u64>`.
use native.Mathlib.Nat.{pow-suc}
use dun_tunel.Prelude.{
  ℕ, zero, suc, ◌+◌, ◌-◌, ◌*◌, ◌/◌, ◌%◌, ◌^◌, ◌≤◌, ◌<◌, ◌≡◌, refl, ap, ◌∙◌, Bool, Bool-cases, true,
  false, ◌&&◌, [], ◌∷◌, ◌++◌, Option, none, some, Text, All, arith, if◌then◌else◌, leb, ltb, ◌==◌,
  decimal, decimal_by, trim, is_whitespace, inl, inr, length, length-append, ltb→lt,
}
use dun_tunel.Prelude.Trim.{trim-none, All-append}

abbrev pub u64_max : ℕ
u64_max = 2 ^ 64 - 1

abbrev pub is_digit : ℕ → Bool
is_digit c = leb 48 c && leb c 57

-- After a digit: the number so far, unless it is too large.
abbrev pub next : ℕ → ℕ → Option ℕ
next n c =
    if is_digit c
    then (if ltb u64_max (n * 10 + (c - 48)) then none else some (n * 10 + (c - 48)))
    else none

unfoldable pub digits : Option ℕ → Text → Option ℕ
digits none s = none
digits (some n) [] = some n
digits (some n) (c ∷ s) = digits (next n c) s

-- `parse::<u64>`: a plus sign or none, and at least one digit.
unfoldable pub parse_u64 : Text → Option ℕ
unfolding digits
parse_u64 [] = none
parse_u64 (c ∷ []) = digits (next 0 c) []
parse_u64 (c ∷ d ∷ s) = if c == b'+' then digits (next 0 d) s else digits (next 0 c) (d ∷ s)

digits-nil : (o : Option ℕ) → digits o [] ≡ o
unfolding digits
digits-nil none = refl
digits-nil (some n) = refl

digits-append :
    (o : Option ℕ) (s : Text) (c : ℕ) {n : ℕ}
    → digits o s ≡ some n
    → digits o (s ++ c ∷ []) ≡ next n c
unfolding digits
digits-append none s c h = cc
digits-append (some m) [] c {n} h = digits-nil (next m c) ∙ ap (λ k. next k c) (some-inj h)
  where
    some-inj : some m ≡ some n → m ≡ n
    some-inj e = cc
digits-append (some m) (d ∷ s) c h = digits-append (next m d) s c h

next-digit : (q r : ℕ) → r < 10 → q * 10 + r ≤ u64_max → next q (48 + r) ≡ some (q * 10 + r)
next-digit q r h g = ground arith

abbrev pub IsDigits : Text → Type 0
IsDigits = All (λ c. is_digit c ≡ true)

decimal_by-digits :
    (fuel n : ℕ) → n < 10 ^ fuel → n ≤ u64_max → digits (some 0) (decimal_by fuel n) ≡ some n
unfolding decimal_by digits
decimal_by-digits zero n h g = ap some (omega (arith, h))
decimal_by-digits (suc fuel) n h g = elim (Bool-cases (ltb n 10)) [
  | inl y ↦ rw y (
      digits-nil (next 0 (48 + n))
      ∙ next-digit 0 n (ltb→lt n 10 y) (omega (arith, g))
      ∙ ap some (omega arith))
  | inr n10 ↦ rw n10 (
      digits-append (some 0) (decimal_by fuel (n / 10)) (48 + n % 10) (
        decimal_by-digits fuel (n / 10) (omega (arith, rw (pow-suc 10 fuel) at h))
          (omega (arith, g)))
      ∙ next-digit (n / 10) (n % 10) (omega arith) (omega (arith, g))
      ∙ ap some (omega arith))
]

decimal_by-IsDigits : (fuel n : ℕ) → IsDigits (decimal_by fuel n)
unfolding decimal_by
decimal_by-IsDigits zero n = tt
decimal_by-IsDigits (suc fuel) n = elim (Bool-cases (ltb n 10)) [
  | inl y ↦ rw y (ground (arith, y), tt)
  | inr n10 ↦ rw n10 (
      All-append _ (decimal_by fuel (n / 10)) ((48 + n % 10) ∷ [])
        (decimal_by-IsDigits fuel (n / 10)) (ground arith, tt))
]

decimal_by-length : (fuel n : ℕ) → 1 ≤ length (decimal_by (suc fuel) n)
unfolding decimal_by
decimal_by-length fuel n = elim (Bool-cases (ltb n 10)) [
  | inl y ↦ rw y (omega arith)
  | inr n10 ↦ rw n10 (omega (arith, length-append (decimal_by fuel (n / 10)) ((48 + n % 10) ∷ [])))
]

digit-not_whitespace : (c : ℕ) → is_digit c ≡ true → is_whitespace c ≡ false
unfolding is_whitespace
digit-not_whitespace c h = ground (arith, h)

digits-not_whitespace : (s : Text) → IsDigits s → All (λ c. is_whitespace c ≡ false) s
digits-not_whitespace [] h = tt
digits-not_whitespace (c ∷ s) h = (digit-not_whitespace c h.0, digits-not_whitespace s h.1)

parse_u64-digits :
    (s : Text) {n : ℕ}
    → 1 ≤ length s
    → IsDigits s
    → digits (some 0) s ≡ some n
    → parse_u64 s ≡ some n
unfolding parse_u64 digits
parse_u64-digits [] l h e = absurd (omega (arith, l))
parse_u64-digits (c ∷ []) l h e = e
parse_u64-digits (c ∷ d ∷ s) {n} l h e =
    let no_sign : (c == b'+') ≡ false = ground (arith, h.0) in rw no_sign e

u64-digits : (n : ℕ) → n ≤ u64_max → n < 10 ^ 20
u64-digits n h = omega (arith, h)

pub decimal-IsDigits : (n : ℕ) → IsDigits (decimal n)
unfolding decimal
decimal-IsDigits n = decimal_by-IsDigits 20 n

pub parse_u64-decimal_exact : (n : ℕ) → n ≤ u64_max → parse_u64 (decimal n) ≡ some n
unfolding decimal
parse_u64-decimal_exact n h =
    parse_u64-digits (decimal_by 20 n) (decimal_by-length 19 n) (decimal_by-IsDigits 20 n)
      (decimal_by-digits 20 n (u64-digits n h) h)

-- A number of 64 bits is read back as it was written.
pub parse_u64-decimal : (n : ℕ) → n ≤ u64_max → parse_u64 (trim (decimal n)) ≡ some n
parse_u64-decimal n h =
    ap parse_u64 (trim-none (decimal n) (digits-not_whitespace (decimal n) (decimal-IsDigits n)))
    ∙ parse_u64-decimal_exact n h
