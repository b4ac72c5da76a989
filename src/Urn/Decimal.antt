-- ===== src/Urn/Decimal.antt =====
-- Python's `str` and `int` on the natural numbers, in decimal.
use holon.Prelude.{
  Bool-cases, inl, inr, ℕ, zero, suc, ◌+◌, ◌-◌, ◌*◌, ◌/◌, ◌%◌, ◌<◌, ◌≡◌, refl, Bool, true, ◌&&◌,
  Option, none, some, [], ◌∷◌, arith, ltb, leb, if◌then◌else◌, All,
}
use holon.Prelude.Text.{Text}

abbrev pub is_digit : ℕ → Bool
is_digit c = leb 48 c && leb c 57

-- The digits of n, in front of `rest`. The fuel is a bound on n.
abbrev pub push : ℕ → ℕ → Text → Text
push zero n rest = rest
push (suc fuel) n rest =
    let more = push fuel (n / 10) ((48 + n % 10) ∷ rest) in
    if ltb n 10 then (48 + n) ∷ rest else more

unfoldable pub decimal : ℕ → Text
decimal n = push (suc n) n []

read : ℕ → Text → Option ℕ
read n [] = some n
read n (c ∷ s) = let rest = read (n * 10 + (c - 48)) s in if is_digit c then rest else none

unfoldable pub read_decimal : Text → Option ℕ
unfolding read
read_decimal [] = none
read_decimal (c ∷ s) = read 0 (c ∷ s)

read-push : (fuel n : ℕ) (rest : Text) → n < fuel → read 0 (push fuel n rest) ≡ read n rest
unfolding read
read-push zero n rest h = absurd (omega (arith, h))
read-push (suc fuel) n rest h =
    ground (arith, read-push fuel (n / 10) ((48 + n % 10) ∷ rest), n / 10 * 10 + (48 + n % 10 - 48))

read_decimal-push :
    (fuel n c : ℕ) (rest : Text)
    → read_decimal (push fuel n (c ∷ rest)) ≡ read 0 (push fuel n (c ∷ rest))
unfolding read_decimal
read_decimal-push zero n c rest = refl
read_decimal-push (suc fuel) n c rest =
    ground (arith, read_decimal-push fuel (n / 10) (48 + n % 10) (c ∷ rest))

-- `int(str(n)) == n`
pub read_decimal-decimal : (n : ℕ) → read_decimal (decimal n) ≡ some n
unfolding decimal read_decimal read
read_decimal-decimal n =
    ground (arith, read_decimal-push n (n / 10) (48 + n % 10) [], read-push (suc n) n [])

push-digits :
    (fuel n : ℕ) (rest : Text)
    → All (λ c. is_digit c ≡ true) rest
    → All (λ c. is_digit c ≡ true) (push fuel n rest)
push-digits zero n rest h = h
push-digits (suc fuel) n rest h = elim (Bool-cases (ltb n 10)) [
  | inl e ↦ rw e (ground (arith, e), h)
  | inr e ↦ rw e (push-digits fuel (n / 10) ((48 + n % 10) ∷ rest) (ground arith, h))
]

pub decimal-digits : (n : ℕ) → All (λ c. is_digit c ≡ true) (decimal n)
unfolding decimal
decimal-digits n = push-digits (suc n) n [] tt
