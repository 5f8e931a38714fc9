-- ===== src/Algo/Factors/Loop.antt =====
-- The loop of `prime_factors` (algo/service.py): what it returns multiplies to its argument, and is prime.
use mathlib.Core.List.{append-nil, append_assoc}
use enova.Prelude.{
  ℕ, zero, suc, ◌+◌, ◌*◌, ◌/◌, ◌%◌, ◌<◌, ◌≤◌, ◌≡◌, refl, sym, ap, ◌∙◌, ◌⊎◌, inl, inr, arith, List,
  [], ◌∷◌, ◌++◌, All, Bool-cases, false, leb, ltb, ◌==◌,
}
use enova.Algo.Factors.{factor_loop, last_factor, prime_factors}
use enova.Algo.Factors.Primes.{Divides, IsPrime, product, divides_mod, mod_of_divides, divides_le}

-- No number from 2 up to `i` divides `n`.
abbrev NoSmall : ℕ → ℕ → Type 0
NoSmall i n = (d : ℕ) → 2 ≤ d → d < i → ¬ Divides d n

-- `result` is what was found before, then the prime factors of `n`.
abbrev Factored : ℕ → List ℕ → List ℕ → Type 0
Factored n found result =
    (rest : List ℕ) × (result ≡ found ++ rest) × (product rest ≡ n) × All IsPrime rest

square_above : (n i : ℕ) → 2 ≤ i → n < i → n < i * i
square_above n i big lt = grind arith

large_product : (i d k n : ℕ) → i ≤ d → i ≤ k → n ≡ d * k → i * i ≤ n
large_product i d k n p q e = grind arith

-- At the exit of the loop what is left of `n` is 1 or a prime.
last_IsPrime : (n i : ℕ) → 1 < n → n < i * i → NoSmall i n → IsPrime n
last_IsPrime n i big small none_below = record { big = big; only = only_trivial }
  where
    only_trivial : (d : ℕ) → Divides d n → (d ≡ 1) ⊎ (d ≡ n)
    only_trivial zero (k, e) = absurd (omega arith)
    only_trivial (suc zero) d = inl refl
    only_trivial (suc (suc d)) (zero, e) = absurd (omega arith)
    only_trivial (suc (suc d)) (suc zero, e) = inr (omega arith)
    only_trivial (suc (suc d)) (suc (suc k), e) = elim (Bool-cases (ltb (suc (suc d)) i)) [
      | inl below ↦ absurd (none_below (suc (suc d)) (omega arith) (ground arith) (suc (suc k), e))
      | inr above ↦ elim (Bool-cases (ltb (suc (suc k)) i)) [
        | inl below_k ↦
            absurd
              (none_below (suc (suc k)) (omega arith) (ground arith) (suc (suc d), omega arith))
        | inr above_k ↦ absurd (
            omega (
              arith,
              large_product i (suc (suc d)) (suc (suc k)) n (ground arith) (ground arith) e,
            ))
      ]
    ]

last_factor-Factored :
    (n i : ℕ) (found : List ℕ)
    → 1 ≤ n
    → n < i * i
    → NoSmall i n
    → Factored n found (last_factor n found)
unfolding last_factor
last_factor-Factored n i found pos small none_below = elim (Bool-cases (ltb 1 n)) [
  | inl big ↦
      rw big (n ∷ [], refl, omega arith, (last_IsPrime n i (ground arith) small none_below, tt))
  | inr one ↦ rw one ([], sym (append-nil found), ground arith, tt)
]

Divides-through : (d i n k m : ℕ) → i ≡ d * k → n ≡ i * m → Divides d n
Divides-through d i n k m e f = (k * m, omega (arith, ap (λ (t : ℕ). t * m) e))

at_most : (d i : ℕ) → d ≤ i → ltb d i ≡ false → d ≡ i
at_most d i le h = ground arith

-- A divisor found by the loop is prime.
step_IsPrime : (n i : ℕ) → 2 ≤ i → NoSmall i n → Divides i n → IsPrime i
step_IsPrime n i big none_below (m, e) = record { big = big; only = only_trivial }
  where
    only_trivial : (d : ℕ) → Divides d i → (d ≡ 1) ⊎ (d ≡ i)
    only_trivial zero (k, f) = absurd (omega arith)
    only_trivial (suc zero) (k, f) = inl refl
    only_trivial (suc (suc d)) (k, f) = elim (Bool-cases (ltb (suc (suc d)) i)) [
      | inl below ↦ absurd (
          none_below (suc (suc d)) (omega arith) (ground arith)
            (Divides-through (suc (suc d)) i n k m f e))
      | inr above ↦
          inr
            (at_most (suc (suc d)) i (divides_le (suc (suc d)) i k (omega arith) f) (ground arith))
    ]

-- After a division the factor joins what was found.
found_factor :
    (n m i : ℕ) (found : List ℕ) {r : List ℕ}
    → n ≡ i * m
    → IsPrime i
    → Factored m (found ++ i ∷ []) r
    → Factored n found r
found_factor n m i found e prime (rest, split, prod, primes) = (
  i ∷ rest,
  split ∙ append_assoc found (i ∷ []) rest,
  ap (λ (t : ℕ). i * t) prod ∙ sym e,
  (prime, primes),
)

NoSmall-next : (n i : ℕ) → 2 ≤ i → NoSmall i n → (n % i == 0) ≡ false → NoSmall (i + 1) n
NoSmall-next n i big none_below odd d two below divides = elim (Bool-cases (ltb d i)) [
  | inl lower ↦ none_below d two (ground arith) divides
  | inr same ↦
      let d_is : d ≡ i = ground arith in
      let zero_rest : n % i ≡ 0 =
        mod_of_divides n i divides.0 (omega arith)
          (divides.1 ∙ ap (λ (t : ℕ). t * divides.0) d_is) in
      ground arith
]

NoSmall-divided : (n m i : ℕ) → n ≡ i * m → NoSmall i n → NoSmall i m
NoSmall-divided n m i e none_below d two below (k, f) =
    none_below d two below (i * k, omega (arith, ap (λ (t : ℕ). i * t) f))

quotient_bounds :
    (n i fuel : ℕ)
    → 1 ≤ n
    → 2 ≤ i
    → n < i + suc fuel
    → n ≡ i * (n / i)
    → (1 ≤ n / i) × (n / i < i + fuel)
quotient_bounds n i fuel pos big enough e = grind arith

-- With fuel above `n - i` the loop ends by its own test, and returns the prime factors of `n`.
factor_loop-Factored :
    (fuel n i : ℕ) (found : List ℕ)
    → 1 ≤ n
    → 2 ≤ i
    → NoSmall i n
    → n < i + fuel
    → Factored n found (factor_loop fuel n i found)
unfolding factor_loop
factor_loop-Factored zero n i found pos big none_below enough =
    last_factor-Factored n i found pos (square_above n i big (omega arith)) none_below
factor_loop-Factored (suc fuel) n i found pos big none_below enough =
    elim (Bool-cases (leb (i * i) n)) [
      | inl more ↦ elim (Bool-cases (n % i == 0)) [
        | inl divided ↦
            let e : n ≡ i * (n / i) = divides_mod n i (ground arith) in
            let bounds : (1 ≤ n / i) × (n / i < i + fuel) =
              quotient_bounds n i fuel pos big enough e in
            rw (more, divided)
              (found_factor n (n / i) i found e (step_IsPrime n i big none_below (n / i, e)) (
                factor_loop-Factored fuel (n / i) i (found ++ i ∷ []) bounds.0 big
                  (NoSmall-divided n (n / i) i e none_below) bounds.1))
        | inr odd ↦
            rw (more, odd)
              (factor_loop-Factored fuel n (i + 1) found pos (omega arith)
                (NoSmall-next n i big none_below odd) (omega arith))
      ]
      | inr done ↦ rw done (last_factor-Factored n i found pos (ground arith) none_below)
    ]

-- For every `n` from 1 on, `prime_factors n` is a list of primes, and their product is `n`.
pub prime_factors-product :
    (n : ℕ) → 1 ≤ n → (product (prime_factors n) ≡ n) × All IsPrime (prime_factors n)
unfolding prime_factors
prime_factors-product n pos =
    let (rest, split, prod, primes) =
      factor_loop-Factored n n 2 [] pos (omega arith) (λ d two below _. absurd (omega arith))
        (omega arith) in
    rw split (prod, primes)
