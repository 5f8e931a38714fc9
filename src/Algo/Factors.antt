-- ===== src/Algo/Factors.antt =====
-- `prime_factors` and `find_divisors` of enova/algo/service.py.
pub mod Primes
pub mod Loop
pub mod Divisors
use enova.Prelude.{
  ℕ, zero, suc, ◌+◌, ◌*◌, ◌/◌, ◌%◌, Bool, false, ◌||◌, List, [], ◌∷◌, ◌++◌, ltb, leb, ◌==◌,
  if◌then◌else◌,
}

-- What the loop leaves: `if n > 1: factors.append(n)`.
last_factor : ℕ → List ℕ → List ℕ
last_factor n factors = if ltb 1 n then factors ++ n ∷ [] else factors

-- The `while i * i <= n` loop, on fuel; with no fuel left it is as if the test had failed.
factor_loop : ℕ → ℕ → ℕ → List ℕ → List ℕ
factor_loop zero n i factors = last_factor n factors
factor_loop (suc fuel) n i factors =
    let next = factor_loop fuel n (i + 1) factors in
    let divided = factor_loop fuel (n / i) i (factors ++ i ∷ []) in
    if leb (i * i) n then (if n % i == 0 then divided else next) else last_factor n factors

unfoldable pub prime_factors : ℕ → List ℕ
unfolding factor_loop last_factor
prime_factors n = factor_loop n n 2 []

-- A Python set of numbers is a list with no repetition: `add` and `|=`.
abbrev pub contains : ℕ → List ℕ → Bool
contains a [] = false
contains a (x ∷ xs) = a == x || contains a xs

abbrev pub add : ℕ → List ℕ → List ℕ
add a s = if contains a s then s else a ∷ s

abbrev pub union : List ℕ → List ℕ → List ℕ
union [] s = s
union (x ∷ xs) s = union xs (add x s)

-- `temp_divisors` for one factor.
abbrev multiples : ℕ → List ℕ → List ℕ
multiples f [] = []
multiples f (d ∷ ds) = add (d * f) (multiples f ds)

divisors_loop : List ℕ → List ℕ → List ℕ
divisors_loop [] divisors = divisors
divisors_loop (f ∷ fs) divisors = divisors_loop fs (union (multiples f divisors) divisors)

-- `sorted`.
abbrev pub insert : ℕ → List ℕ → List ℕ
insert a [] = a ∷ []
insert a (x ∷ xs) = if leb a x then a ∷ x ∷ xs else x ∷ insert a xs

abbrev pub sorted : List ℕ → List ℕ
sorted [] = []
sorted (x ∷ xs) = insert x (sorted xs)

unfoldable pub find_divisors : ℕ → List ℕ
unfolding prime_factors divisors_loop
find_divisors n = sorted (divisors_loop (prime_factors n) (1 ∷ []))
