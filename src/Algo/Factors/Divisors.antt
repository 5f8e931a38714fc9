-- ===== src/Algo/Factors/Divisors.antt =====
-- `find_divisors` (algo/service.py) returns the divisors of its argument, in ascending order.
use enova.Prelude.{
  ℕ, zero, suc, ◌*◌, ◌<◌, ◌≤◌, ◌≡◌, refl, ap, subst, ◌↔◌, ◌⊎◌, inl, inr, arith, List, [], ◌∷◌, In,
  All, Bool-cases, true, leb,
}
use enova.Algo.Factors.{
  contains, add, union, multiples, divisors_loop, insert, sorted, prime_factors, find_divisors,
}
use enova.Algo.Factors.Primes.{Divides, IsPrime, product, euclid}
use enova.Algo.Factors.Loop.{prime_factors-product}

contains→In : (a : ℕ) (s : List ℕ) → contains a s ≡ true → In a s
contains→In a [] h = ground arith
contains→In a (x ∷ xs) h = ground (arith, contains→In a xs)

In→contains : (a : ℕ) (s : List ℕ) → In a s → contains a s ≡ true
In→contains a [] m = elim m [ ]
In→contains a (x ∷ xs) (inl e) = ground arith
In→contains a (x ∷ xs) (inr m) = ground (arith, In→contains a xs m)

In-add : (d a : ℕ) (s : List ℕ) → (d ≡ a) ⊎ In d s → In d (add a s)
In-add d a s h = ground (arith, contains→In a s)

In-of_add : (d a : ℕ) (s : List ℕ) → In d (add a s) → (d ≡ a) ⊎ In d s
In-of_add d a s h = ground arith

In-union : (d : ℕ) (xs s : List ℕ) → In d xs ⊎ In d s → In d (union xs s)
In-union d [] s (inl m) = elim m [ ]
In-union d [] s (inr m) = m
In-union d (x ∷ xs) s (inl (inl e)) = In-union d xs (add x s) (inr (In-add d x s (inl e)))
In-union d (x ∷ xs) s (inl (inr m)) = In-union d xs (add x s) (inl m)
In-union d (x ∷ xs) s (inr m) = In-union d xs (add x s) (inr (In-add d x s (inr m)))

In-of_union : (d : ℕ) (xs s : List ℕ) → In d (union xs s) → In d xs ⊎ In d s
In-of_union d [] s m = inr m
In-of_union d (x ∷ xs) s m = elim (In-of_union d xs (add x s) m) [
  | inl l ↦ inl (inr l)
  | inr r ↦ elim (In-of_add d x s r) [ inl e ↦ inl (inl e) | inr t ↦ inr t ]
]

In-multiples : (f e : ℕ) (s : List ℕ) → In e s → In (e * f) (multiples f s)
In-multiples f e [] m = elim m [ ]
In-multiples f e (x ∷ xs) (inl p) =
    In-add (e * f) (x * f) (multiples f xs) (inl (ap (λ (t : ℕ). t * f) p))
In-multiples f e (x ∷ xs) (inr m) =
    In-add (e * f) (x * f) (multiples f xs) (inr (In-multiples f e xs m))

In-of_multiples : (d f : ℕ) (s : List ℕ) → In d (multiples f s) → (e : ℕ) × In e s × (d ≡ e * f)
In-of_multiples d f [] m = elim m [ ]
In-of_multiples d f (x ∷ xs) m = elim (In-of_add d (x * f) (multiples f xs) m) [
  | inl p ↦ (x, inl refl, p)
  | inr r ↦ let (e, n, q) = In-of_multiples d f xs r in (e, inr n, q)
]

-- The set holds exactly the divisors of `m`.
record Holds (m : ℕ) (s : List ℕ) : Type 0 where
  sound : (d : ℕ) → In d s → Divides d m
  complete : (d : ℕ) → Divides d m → In d s

cancel_factor : (f a b : ℕ) → 1 ≤ f → f * a ≡ f * b → a ≡ b
cancel_factor f a b pos e = grind arith

step_sound :
    (m f d : ℕ) (s : List ℕ) → Holds m s → In d (union (multiples f s) s) → Divides d (m * f)
step_sound m f d s h i = elim (In-of_union d (multiples f s) s i) [
  | inl l ↦
      let (e, n, p) = In-of_multiples d f s l in
      let (k, q) = h.sound e n in
      (k, omega (arith, ap (λ (t : ℕ). t * f) q, ap (λ (t : ℕ). t * k) p))
  | inr r ↦ let (k, q) = h.sound d r in (k * f, omega (arith, ap (λ (t : ℕ). t * f) q))
]

step_complete :
    (m f d : ℕ) (s : List ℕ)
    → Holds m s
    → IsPrime f
    → Divides d (m * f)
    → In d (union (multiples f s) s)
step_complete m f d s h prime (k, e) = elim (euclid f d k prime (m, omega arith)) [
  | inl (y, p) ↦
      let quotient : m ≡ y * k =
        cancel_factor f m (y * k) (omega (arith, prime.big))
          (omega (arith, ap (λ (t : ℕ). t * k) p)) in
      In-union d (multiples f s) s (
        inl (
          subst (λ t. In t (multiples f s)) (omega arith)
            (In-multiples f y s (h.complete y (k, quotient)))))
  | inr (y, p) ↦ In-union d (multiples f s) s (
      inr (
        h.complete d (
          y,
          cancel_factor f m (d * y) (omega (arith, prime.big))
              (omega (arith, ap (λ (t : ℕ). d * t) p)),
        )))
]

Holds-step :
    (m f : ℕ) (s : List ℕ) → IsPrime f → Holds m s → Holds (m * f) (union (multiples f s) s)
Holds-step m f s prime h = record {
  sound = λ d. step_sound m f d s h;
  complete = λ d. step_complete m f d s h prime;
}

divisors_loop-Holds :
    (fs : List ℕ) (m : ℕ) (s : List ℕ)
    → All IsPrime fs
    → Holds m s
    → Holds (m * product fs) (divisors_loop fs s)
unfolding divisors_loop
divisors_loop-Holds [] m s primes h = subst (λ t. Holds t s) (omega arith) h
divisors_loop-Holds (f ∷ fs) m s (prime, primes) h =
    subst (λ t. Holds t (divisors_loop (f ∷ fs) s)) (omega arith)
      (divisors_loop-Holds fs (m * f) (union (multiples f s) s) primes (Holds-step m f s prime h))

Holds-one : Holds 1 (1 ∷ [])
Holds-one = record { sound = λ d. one_sound d; complete = λ d. one_complete d }
  where
    one_sound : (d : ℕ) → In d (1 ∷ []) → Divides d 1
    one_sound d (inl e) = (1, omega arith)
    one_sound d (inr m) = elim m [ ]

    one_complete : (d : ℕ) → Divides d 1 → In d (1 ∷ [])
    one_complete zero (k, e) = absurd (omega arith)
    one_complete (suc zero) d = inl refl
    one_complete (suc (suc d)) (zero, e) = absurd (omega arith)
    one_complete (suc (suc d)) (suc k, e) = absurd (omega arith)

-- Ascending with no repetition.
abbrev pub IsAscending : List ℕ → Type 0
IsAscending [] = Unit
IsAscending (x ∷ xs) = All (λ y. x < y) xs × IsAscending xs

abbrev Distinct : List ℕ → Type 0
Distinct [] = Unit
Distinct (x ∷ xs) = ¬ In x xs × Distinct xs

Distinct-add : (a : ℕ) (s : List ℕ) → Distinct s → Distinct (add a s)
Distinct-add a s h = elim (Bool-cases (contains a s)) [
  | inl there ↦ rw there h
  | inr new ↦ rw new (λ m. ground (arith, In→contains a s m), h)
]

Distinct-union : (xs s : List ℕ) → Distinct s → Distinct (union xs s)
Distinct-union [] s h = h
Distinct-union (x ∷ xs) s h = Distinct-union xs (add x s) (Distinct-add x s h)

Distinct-divisors_loop : (fs s : List ℕ) → Distinct s → Distinct (divisors_loop fs s)
unfolding divisors_loop
Distinct-divisors_loop [] s h = h
Distinct-divisors_loop (f ∷ fs) s h =
    Distinct-divisors_loop fs (union (multiples f s) s) (Distinct-union (multiples f s) s h)

In-insert : (d a : ℕ) (xs : List ℕ) → (d ≡ a) ⊎ In d xs → In d (insert a xs)
In-insert d a [] h = h
In-insert d a (x ∷ xs) h = ground (arith, In-insert d a xs)

In-of_insert : (d a : ℕ) (xs : List ℕ) → In d (insert a xs) → (d ≡ a) ⊎ In d xs
In-of_insert d a [] h = h
In-of_insert d a (x ∷ xs) h = ground (arith, In-of_insert d a xs)

In-sorted : (d : ℕ) (xs : List ℕ) → In d xs → In d (sorted xs)
In-sorted d [] h = h
In-sorted d (x ∷ xs) (inl e) = In-insert d x (sorted xs) (inl e)
In-sorted d (x ∷ xs) (inr m) = In-insert d x (sorted xs) (inr (In-sorted d xs m))

In-of_sorted : (d : ℕ) (xs : List ℕ) → In d (sorted xs) → In d xs
In-of_sorted d [] h = h
In-of_sorted d (x ∷ xs) h = elim (In-of_insert d x (sorted xs) h) [
  | inl e ↦ inl e
  | inr m ↦ inr (In-of_sorted d xs m)
]

above_of_insert :
    (x a : ℕ) (xs : List ℕ) → x < a → All (λ y. x < y) xs → All (λ y. x < y) (insert a xs)
above_of_insert x a [] lt h = (lt, tt)
above_of_insert x a (y ∷ ys) lt (p, h) = ground (arith, above_of_insert x a ys lt h)

above_trans : (x a : ℕ) (xs : List ℕ) → x < a → All (λ y. a < y) xs → All (λ y. x < y) xs
above_trans x a [] lt h = tt
above_trans x a (y ∷ ys) lt (p, h) = (omega arith, above_trans x a ys lt h)

IsAscending-insert : (a : ℕ) (xs : List ℕ) → ¬ In a xs → IsAscending xs → IsAscending (insert a xs)
IsAscending-insert a [] new h = (tt, tt)
IsAscending-insert a (x ∷ xs) new (low, h) = elim (Bool-cases (leb a x)) [
  | inl before ↦
      let lt : a < x = below a x (λ e. new (inl e)) before in
      rw before ((lt, above_trans a x xs lt low), (low, h))
  | inr after ↦
      rw after
        (above_of_insert x a xs (ground arith) low, IsAscending-insert a xs (λ m. new (inr m)) h)
]
  where
    below : (a x : ℕ) → ¬ (a ≡ x) → leb a x ≡ true → a < x
    below a x ne le = ground arith

IsAscending-sorted : (xs : List ℕ) → Distinct xs → IsAscending (sorted xs)
IsAscending-sorted [] h = tt
IsAscending-sorted (x ∷ xs) (new, h) =
    IsAscending-insert x (sorted xs) (λ m. new (In-of_sorted x xs m)) (IsAscending-sorted xs h)

-- For every `n` from 1 on, `find_divisors n` holds exactly the divisors of `n`, in ascending order
-- and each once.
pub find_divisors-Divides :
    (n : ℕ)
    → 1 ≤ n
    → ((d : ℕ) → In d (find_divisors n) ↔ Divides d n) × IsAscending (find_divisors n)
unfolding find_divisors
find_divisors-Divides n pos =
    let (prod, primes) = prime_factors-product n pos in
    let fs : List ℕ = prime_factors n in
    let holds : Holds n (divisors_loop fs (1 ∷ [])) =
      subst (λ t. Holds t (divisors_loop fs (1 ∷ []))) (omega (arith, prod))
        (divisors_loop-Holds fs 1 (1 ∷ []) primes Holds-one) in
    (
      λ d. (
        λ m. holds.sound d (In-of_sorted d (divisors_loop fs (1 ∷ [])) m),
        λ q. In-sorted d (divisors_loop fs (1 ∷ [])) (holds.complete d q),
      ),
      IsAscending-sorted (divisors_loop fs (1 ∷ []))
          (Distinct-divisors_loop fs (1 ∷ []) ((λ m. elim m [ ]), tt)),
    )
