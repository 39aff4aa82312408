-- ===== src/Text/Numbers.antt =====
-- strconv.Atoi and strconv.ParseInt(s, 10, 64), on a 64-bit platform: `none` is any error.
use in_proxy.Common.{
  ℕ, ◌+◌, ◌-◌, ◌*◌, ◌^◌, ◌≡◌, ◌≢◌, refl, ap, true, false, ◌&&◌, [], ◌∷◌, Option, none, some, arith,
  nat_eq, leb, if◌then◌else◌, All,
}
use in_proxy.Common.Int.{ℤ, pos, negsuc}
use in_proxy.Text.{Text, codes}

-- The value of a text of digits behind `n`.
unfoldable pub digits : ℕ → Text → Option ℕ
digits n [] = some n
digits n (c ∷ s) =
    let rest = digits (n * 10 + (c - b'0')) s in if leb b'0' c && leb c b'9' then rest else none

-- The digits behind the sign: at least one, within the range of int64.
within : ℕ → Option ℕ → Option ℕ
within bound none = none
within bound (some n) = if leb n bound then some n else none

unfoldable pub magnitude : ℕ → Text → Option ℕ
unfolding within digits
magnitude bound [] = none
magnitude bound (c ∷ s) = within bound (digits 0 (c ∷ s))

abbrev pub negate : ℕ → ℤ
negate n = if nat_eq n 0 then pos 0 else negsuc (n - 1)

positive : Option ℕ → Option ℤ
positive none = none
positive (some n) = some (pos n)

negative : Option ℕ → Option ℤ
negative none = none
negative (some n) = some (negate n)

unfoldable pub atoi : Text → Option ℤ
unfolding magnitude positive negative
atoi [] = none
atoi (c ∷ s) =
    if nat_eq c b'-'
    then negative (magnitude (2 ^ 63) s)
    else if nat_eq c b'+'
    then positive (magnitude (2 ^ 63 - 1) s)
    else positive (magnitude (2 ^ 63 - 1) (c ∷ s))

-- A byte that may stand in a number.
abbrev pub IsNumeric : ℕ → Type 0
IsNumeric c = (c ≢ b':') × (c ≢ b'[') × (c ≢ b']') × (c ≢ b'.')

pub digits-IsNumeric : (n : ℕ) (s : Text) (r : ℕ) → digits n s ≡ some r → All IsNumeric s
unfolding digits
digits-IsNumeric n [] r h = tt
digits-IsNumeric n (c ∷ s) r h = (
  (ground arith, ground arith, ground arith, ground arith),
  digits-IsNumeric (n * 10 + (c - b'0')) s r (ground arith),
)

first_digit :
    (c : ℕ) (s : Text) (n : ℕ) → digits 0 (c ∷ s) ≡ some n → leb b'0' c && leb c b'9' ≡ true
unfolding digits
first_digit c s n h = ground arith

magnitude-digits :
    (bound c : ℕ) (s : Text) (n : ℕ)
    → digits 0 (c ∷ s) ≡ some n
    → leb n bound ≡ true
    → magnitude bound (c ∷ s) ≡ some n
unfolding magnitude
magnitude-digits bound c s n h b = rw (h, magnitude) (rw b refl)

-- Digits behind no sign are read as they are, within the range of int64.
pub atoi-digits :
    (c : ℕ) (s : Text) (n : ℕ)
    → digits 0 (c ∷ s) ≡ some n
    → leb n (2 ^ 63 - 1) ≡ true
    → atoi (c ∷ s) ≡ some (pos n)
unfolding atoi positive
atoi-digits c s n h b =
    let digit = first_digit c s n h in
    let no_minus : nat_eq c b'-' ≡ false = ground arith in
    let no_plus : nat_eq c b'+' ≡ false = ground arith in
    rw no_minus (rw no_plus (ap positive (magnitude-digits (2 ^ 63 - 1) c s n h b)))

-- A leading zero is accepted, and does not change the value.
digits-zero : (s : Text) → digits 0 (b'0' ∷ s) ≡ digits 0 s
unfolding digits
digits-zero s = refl

pub atoi_leading_zero :
    (c : ℕ) (s : Text) → leb b'0' c && leb c b'9' ≡ true → atoi (b'0' ∷ c ∷ s) ≡ atoi (c ∷ s)
unfolding atoi
atoi_leading_zero c s h = ground (arith, digits-zero (c ∷ s))

atoi_examples :
    (atoi (codes "8080") ≡ some (pos 8080))
    × (atoi (codes "+080") ≡ some (pos 80))
    × (atoi (codes "-12") ≡ some (negsuc 11))
    × (atoi (codes "80a") ≡ none)
    × (atoi (codes "+") ≡ none)
    × (atoi (codes "9223372036854775808") ≡ none)
unfolding atoi
atoi_examples = (refl, refl, refl, refl, refl, refl)
