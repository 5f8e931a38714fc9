-- ===== src/Algo/Factors/Primes.antt =====
-- Divisibility and prime numbers, the words in which the results of algo/service.py are stated.
use native.Mathlib.Nat.{mul-sub, div-add-mod}
use enova.Prelude.{
  ℕ, zero, suc, ◌+◌, ◌-◌, ◌*◌, ◌/◌, ◌%◌, ◌<◌, ◌≤◌, ◌≡◌, sym, ap, ◌∙◌, ◌⊎◌, inl, inr, arith, List,
  [], ◌∷◌, Bool-cases, ==_iff, ◌==◌,
}

-- `d` divides `n`: the other factor is kept.
abbrev pub Divides : ℕ → ℕ → Type 0
Divides d n = (k : ℕ) × (n ≡ d * k)

pub record IsPrime (p : ℕ) : Type 0 where
  pub big : 2 ≤ p
  pub only : (d : ℕ) → Divides d p → (d ≡ 1) ⊎ (d ≡ p)

abbrev pub product : List ℕ → ℕ
product [] = 1
product (x ∷ xs) = x * product xs

pub divides_mod : (n d : ℕ) → n % d ≡ 0 → n ≡ d * (n / d)
divides_mod n d h = grind arith

pub mod_of_divides : (n d k : ℕ) → 0 < d → n ≡ d * k → n % d ≡ 0
mod_of_divides n d k pos h = grind arith

-- A divisor of a positive number is at most that number.
pub divides_le : (d n k : ℕ) → 0 < n → n ≡ d * k → d ≤ n
divides_le d n zero pos h = absurd (omega arith)
divides_le d n (suc k) pos h = omega arith

divides_rest : (p b c x : ℕ) → p * b ≡ p * c + x → x ≡ p * (b - c)
divides_rest p b c x h = omega (arith, mul-sub p b c)

split_product : (p r q s b k : ℕ) → p ≡ r * q + s → r * b ≡ p * k → p * b ≡ p * (q * k) + s * b
split_product p r q s b k e h = omega (arith, ap (λ (t : ℕ). t * b) e, ap (λ (t : ℕ). t * q) h)

remainder_step : (p r b k : ℕ) → r * b ≡ p * k → p * b ≡ p * (p / r * k) + p % r * b
remainder_step p r b k h = split_product p r (p / r) (p % r) b k (sym (div-add-mod p r)) h

remainder_pos : (p r : ℕ) → IsPrime p → 1 < r → r < p → 0 < p % r
remainder_pos p r prime big lt = elim (Bool-cases (p % r == 0)) [
  | inl zero_rest ↦ elim (prime.only r (p / r, divides_mod p r (ground arith))) [
    | inl one ↦ absurd (omega arith)
    | inr same ↦ absurd (omega arith)
  ]
  | inr more ↦ ground arith
]

-- Euclid's lemma, for a factor below the prime.
euclid_below :
    (fuel p r b : ℕ) → IsPrime p → 0 < r → r < p → r < fuel → Divides p (r * b) → Divides p b
euclid_below zero p r b prime pos lt f d = absurd (omega arith)
euclid_below (suc fuel) p r b prime pos lt f (k, e) = elim (Bool-cases (r == 1)) [
  | inl one ↦ (k, omega (arith, ap (λ (t : ℕ). t * b) ((==_iff r 1).0 one), e))
  | inr more ↦
      euclid_below fuel p (p % r) b prime (remainder_pos p r prime (ground arith) lt) (omega arith)
        (omega arith)
        (b - p / r * k, divides_rest p b (p / r * k) (p % r * b) (remainder_step p r b k e))
]

reduce_left : (a p b : ℕ) → a * b ≡ p * (a / p * b) + a % p * b
reduce_left a p b = omega (arith, ap (λ (t : ℕ). t * b) (sym (div-add-mod a p)))

-- Euclid's lemma: a prime that divides a product divides a factor.
pub euclid : (p a b : ℕ) → IsPrime p → Divides p (a * b) → Divides p a ⊎ Divides p b
euclid p a b prime (k, e) = elim (Bool-cases (a % p == 0)) [
  | inl zero_rest ↦ inl (a / p, divides_mod a p (ground arith))
  | inr more ↦ inr (
      euclid_below (suc p) p (a % p) b prime (ground arith) (omega (arith, prime.big))
        (omega (arith, prime.big))
        (k - a / p * b, divides_rest p k (a / p * b) (a % p * b) (sym e ∙ reduce_left a p b)))
]
