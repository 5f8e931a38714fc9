-- ===== src/Algo/Memory/Fit.antt =====
-- What `memory_config_rec` (algo/service.py) returns, for any arithmetic of the numbers.
use enova.Prelude.{
  ℕ, ◌<◌, ◌≤◌, ◌≡◌, refl, Bool, true, false, ap, ◌∙◌, ◌&&◌, inl, inr, List, [], ◌∷◌, Option, none,
  some, leb, leb→le, le→leb, first, In, All, Bool-cases, arith,
}
use enova.Algo.Numbers.{Numbers}
use enova.Algo.Factors.{find_divisors}
use enova.Algo.Factors.Primes.{Divides}
use enova.Algo.Factors.Divisors.{IsAscending, find_divisors-Divides}
use enova.Algo.Models.{gpu_mem_util}
use enova.Algo.Memory.{holds_at_most, holds_at, memory_config_rec}

-- `found` is the least item of `xs` that passes `p`, and `none` if no item passes.
abbrev pub LeastOf : (ℕ → Bool) → List ℕ → Option ℕ → Type 0
LeastOf p xs none = (d : ℕ) → In d xs → p d ≡ false
LeastOf p xs (some s) = In s xs × (p s ≡ true) × ((d : ℕ) → In d xs → d < s → p d ≡ false)

above : (x d : ℕ) (xs : List ℕ) → All (λ y. x < y) xs → In d xs → x < d
above x d [] low m = elim m [ ]
above x d (y ∷ ys) (lt, low) (inl e) = omega arith
above x d (y ∷ ys) (lt, low) (inr m) = above x d ys low m

least_later :
    (p : ℕ → Bool) (x : ℕ) (xs : List ℕ) (found : Option ℕ)
    → p x ≡ false
    → LeastOf p xs found
    → LeastOf p (x ∷ xs) found
least_later p x xs none miss h = λ d m. elim m [ inl e ↦ ap p e ∙ miss | inr t ↦ h d t ]
least_later p x xs (some s) miss (there, pass, least) = (inr there, pass, λ d m lt. earlier d m lt)
  where
    earlier : (d : ℕ) → In d (x ∷ xs) → d < s → p d ≡ false
    earlier d (inl e) lt = ap p e ∙ miss
    earlier d (inr m) lt = least d m lt

first-LeastOf : (p : ℕ → Bool) (xs : List ℕ) → IsAscending xs → LeastOf p xs (first p xs)
first-LeastOf p [] h = λ d m. elim m [ ]
first-LeastOf p (x ∷ xs) (low, h) = elim (Bool-cases (p x)) [
  | inl pass ↦ rw pass (inl refl, pass, λ d m lt. not_below d m lt)
  | inr miss ↦ rw miss (least_later p x xs (first p xs) miss (first-LeastOf p xs h))
]
  where
    not_below : (d : ℕ) → In d (x ∷ xs) → d < x → p d ≡ false
    not_below d (inl e) lt = absurd (omega arith)
    not_below d (inr m) lt = absurd (omega (arith, above x d xs low m))

and_left : (a b : Bool) → (a && b) ≡ true → a ≡ true
and_left a b h = ground arith

and_right : (a b : Bool) → (a && b) ≡ true → b ≡ true
and_right a b h = ground arith

and_false : (a b : Bool) → (a && b) ≡ false → b ≡ true → a ≡ false
and_false a b h t = ground arith

le_trans_lt : (d s n : ℕ) → d < s → s ≤ n → d ≤ n
le_trans_lt d s n lt le = omega arith

util-IsAscending : IsAscending gpu_mem_util
util-IsAscending = omega arith

module _ (numbers : Numbers) where
  open numbers use {Number, mul, tenths}

  -- What the advice means: `spec` is the memory of one GPU that may be used.
  abbrev pub IsAdvice : Number → ℕ → Number → ℕ → Option ℕ × Option ℕ → Type 0
  IsAdvice total n_head spec gpu_num (none, util) =
      (util ≡ none)
      × ((d : ℕ) → Divides d n_head → d ≤ gpu_num → holds_at_most numbers total spec d ≡ false)
  IsAdvice total n_head spec gpu_num (some s, util) =
      Divides s n_head
      × (s ≤ gpu_num)
      × (holds_at_most numbers total spec s ≡ true)
      × ((d : ℕ) → Divides d n_head → d < s → holds_at_most numbers total spec d ≡ false)
      × LeastOf (holds_at numbers total spec s) gpu_mem_util util

  -- For a positive number of heads: a tensor-parallel size, if one is returned, divides it, is at
  -- most the number of GPUs and holds the memory, and no smaller divisor does; none is returned
  -- only if no divisor up to the number of GPUs holds it. The utilisation is the least of the list
  -- that holds the memory, and none if the list has no such utilisation.
  pub memory_config_rec-IsAdvice :
      (total : Number) (n_head : ℕ) (gpu_spec : Number) (gpu_num : ℕ)
      → 1 ≤ n_head
      → IsAdvice total n_head
          (mul gpu_spec (tenths 9))
          gpu_num
          (memory_config_rec numbers total n_head gpu_spec gpu_num)
  unfolding memory_config_rec
  memory_config_rec-IsAdvice total n_head gpu_spec gpu_num pos =
      by_search (first fits divisors) (first-LeastOf fits divisors ascending)
    where
      spec : Number
      spec = mul gpu_spec (tenths 9)

      divisors : List ℕ
      divisors = find_divisors n_head

      fits : ℕ → Bool
      fits s = holds_at_most numbers total spec s && leb s gpu_num

      ascending : IsAscending (find_divisors n_head)
      ascending = (find_divisors-Divides n_head pos).1

      by_search :
          (found : Option ℕ)
          → LeastOf fits divisors found
          → IsAdvice total n_head spec gpu_num (elim found [
            | none ↦ (none, none)
            | some s ↦ (some s, first (holds_at numbers total spec s) gpu_mem_util)
          ])
      by_search none h = (
        refl,
        λ d divides fit.
            and_false (holds_at_most numbers total spec d) (leb d gpu_num)
              (h d (((find_divisors-Divides n_head pos).0 d).1 divides)) (le→leb d gpu_num fit),
      )
      by_search (some s) (there, pass, least) = (
        ((find_divisors-Divides n_head pos).0 s).0 there,
        leb→le s gpu_num (and_right (holds_at_most numbers total spec s) (leb s gpu_num) pass),
        and_left (holds_at_most numbers total spec s) (leb s gpu_num) pass,
        λ d divides lt.
            and_false (holds_at_most numbers total spec d) (leb d gpu_num)
              (least d (((find_divisors-Divides n_head pos).0 d).1 divides) lt)
              (le→leb d gpu_num (
                le_trans_lt d s gpu_num lt (
                  leb→le s gpu_num
                    (and_right (holds_at_most numbers total spec s) (leb s gpu_num) pass)))),
        first-LeastOf (holds_at numbers total spec s) gpu_mem_util util-IsAscending,
      )
