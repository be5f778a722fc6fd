-- ===== src/Git/Atoi.antt =====
-- Go's strconv.Atoi on 64-bit integers, and strings.Fields.
use Prim.Native.Nat.{◌^◌, ◌/◌, ◌%◌}
use director_orson_callan_kr.Base.{
  ℕ, zero, suc, ◌+◌, ◌-◌, ◌*◌, ◌<◌, Bytes, ◌≡◌, refl, Bool, true, ◌&&◌, Option, none, some, List,
  [], ◌∷◌, arith, leb, ltb, ◌==◌, if◌then◌else◌, ℤ, pos, negsuc, Bool-cases, inl, inr, is_space,
  All,
}
use director_orson_callan_kr.Ai.Prompts.{digits, decimal}

abbrev pub is_digit : ℕ → Bool
is_digit c = leb 48 c && leb c 57

-- The number that decimal digits write behind those read so far.
unfoldable pub parse_digits : ℕ → Bytes → Option ℕ
parse_digits acc [] = some acc
parse_digits acc (c ∷ s) =
    let rest = parse_digits (acc * 10 + (c - 48)) s in if is_digit c then rest else none

unfoldable pub digits_or_zero : Bytes → ℕ
unfolding parse_digits
digits_or_zero [] = 0
digits_or_zero (c ∷ s) = elim (parse_digits 0 (c ∷ s)) [ none ↦ 0 | some n ↦ n ]

abbrev pub int_limit : ℕ
int_limit = 2 ^ 63

-- -n, at least the least integer.
abbrev negated : ℕ → ℤ
negated zero = pos 0
negated (suc n) = if ltb n int_limit then negsuc n else negsuc (int_limit - 1)

abbrev clamped : ℕ → ℤ
clamped n = if ltb n int_limit then pos n else pos (int_limit - 1)

-- The value that Atoi returns, also beside an error: 0 for what is no number, and the nearest
-- integer for what is out of range.
unfoldable pub atoi : Bytes → ℤ
unfolding digits_or_zero
atoi [] = pos 0
atoi (c ∷ s) =
    if c == b'-'
    then negated (digits_or_zero s)
    else if c == b'+'
    then clamped (digits_or_zero s)
    else clamped (digits_or_zero (c ∷ s))

-- One byte in front of a text that is cut at white space.
abbrev in_front : ℕ → List Bytes → List Bytes
in_front c [] = (c ∷ []) ∷ []
in_front c (p ∷ ps) = (c ∷ p) ∷ ps

-- The text cut at each white space; the empty parts are left out.
unfoldable pub non_empty : List Bytes → List Bytes
non_empty [] = []
non_empty ([] ∷ ps) = non_empty ps
non_empty ((c ∷ p) ∷ ps) = (c ∷ p) ∷ non_empty ps

unfoldable pub cut_at_space : Bytes → List Bytes
cut_at_space [] = [] ∷ []
cut_at_space (c ∷ s) =
    let parts = cut_at_space s in if is_space c then [] ∷ parts else in_front c parts

unfoldable pub fields : Bytes → List Bytes
unfolding cut_at_space non_empty
fields s = non_empty (cut_at_space s)

digit_read :
    (acc n : ℕ)
    → (is_digit (48 + n % 10) ≡ true) × (acc * 10 + (48 + n % 10 - 48) ≡ acc * 10 + n % 10)
digit_read acc n = (ground arith, omega arith)

digits_parse :
    (fuel n : ℕ) (out : Bytes) → n < fuel → parse_digits 0 (digits fuel n out) ≡ parse_digits n out
unfolding digits parse_digits
digits_parse zero n out h = elim h [ ]
digits_parse (suc fuel) n out h = elim (Bool-cases (ltb n 10)) [
  | inl e ↦
      let same : 0 * 10 + (48 + n % 10 - 48) ≡ n = ground arith in
      rw (e, (digit_read 0 n).0, same) refl
  | inr e ↦
      let same : n / 10 * 10 + (48 + n % 10 - 48) ≡ n = omega arith in
      rw
        (
          e,
          digits_parse fuel (n / 10) ((48 + n % 10) ∷ out) (ground arith),
          (digit_read 0 n).0,
          same,
        )
        refl
]

abbrev pub AllDigits : Bytes → Type 0
AllDigits = All (λ c. is_digit c ≡ true)

digits-AllDigits : (fuel n : ℕ) (out : Bytes) → AllDigits out → AllDigits (digits fuel n out)
unfolding digits
digits-AllDigits zero n out h = h
digits-AllDigits (suc fuel) n out h = elim (Bool-cases (ltb n 10)) [
  | inl e ↦ rw e ((digit_read 0 n).0, h)
  | inr e ↦ rw e (digits-AllDigits fuel (n / 10) ((48 + n % 10) ∷ out) ((digit_read 0 n).0, h))
]

pub decimal-AllDigits : (n : ℕ) → AllDigits (decimal n)
unfolding decimal
decimal-AllDigits n = digits-AllDigits (suc n) n [] tt

parse_digits-decimal : (n : ℕ) → parse_digits 0 (decimal n) ≡ some n
unfolding decimal parse_digits
parse_digits-decimal n = digits_parse (suc n) n [] (omega arith)

atoi-digits :
    (s : Bytes) (n : ℕ) → AllDigits s → parse_digits 0 s ≡ some n → n < int_limit → atoi s ≡ pos n
unfolding atoi parse_digits
atoi-digits [] n a h small = ground arith
atoi-digits (c ∷ s) n a h small = ground (arith, a.0, h)

-- Atoi reads what %d writes.
pub atoi-decimal : (n : ℕ) → n < int_limit → atoi (decimal n) ≡ pos n
atoi-decimal n small =
    atoi-digits (decimal n) n (decimal-AllDigits n) (parse_digits-decimal n) small
