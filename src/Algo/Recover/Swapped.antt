-- ===== src/Algo/Recover/Swapped.antt =====
-- When no divisor of the heads holds the memory that scaling up asks for (algo/service.py).
use enova.Prelude.{
  ◌≢◌, leb→le, le→leb, ◌∙◌, ◌↔◌, ℕ, ◌≤◌, ◌*◌, ◌^◌, ◌&&◌, ◌≡◌, refl, ◌⊎◌, inl, inr, Bool, true,
  false, List, [], ◌∷◌, Option, none, some, if◌then◌else◌, In, keep, leb, Bool-cases, arith,
}
use enova.Algo.Numbers.{Numbers}
use enova.Algo.Factors.{find_divisors}
use enova.Algo.Factors.Primes.{Divides}
use enova.Algo.Factors.Divisors.{find_divisors-Divides}
use enova.Algo.Models.{config_match}
use enova.Algo.Memory.{memory_estimation, memory_config_rec}
use enova.Algo.Metrics.{Analytics, Replica}
use enova.Algo.Recommend.{Gpu}
use enova.Algo.Recover.{
  unchanged, String, next, max_from, maximum, larger, required_kv_mem, memory_of, Configurations,
  Signals, read_signals, verify_memory, predict_replicas, recovered, llm_config_recovery,
}

In-keep : (p : ℕ → Bool) (xs : List ℕ) (d : ℕ) → In d xs → p d ≡ true → In d (keep p xs)
In-keep p [] d m h = m
In-keep p (x ∷ xs) d (inl e) h = ground arith
In-keep p (x ∷ xs) d (inr m) h = ground (arith, In-keep p xs d m h)

In-of_keep : (p : ℕ → Bool) (xs : List ℕ) (d : ℕ) → In d (keep p xs) → In d xs × (p d ≡ true)
In-of_keep p [] d m = elim m [ ]
In-of_keep p (x ∷ xs) d m = ground (arith, In-of_keep p xs d)

-- `m` is an item of the list, and no item is greater.
abbrev pub IsGreatest : ℕ → List ℕ → Type 0
IsGreatest m xs = In m xs × ((d : ℕ) → In d xs → d ≤ m)

pick : (m x : ℕ) → ((if leb x m then m else x) ≡ m) ⊎ ((if leb x m then m else x) ≡ x)
pick m x = elim (Bool-cases (leb x m)) [ inl e ↦ inl (rw e) | inr e ↦ inr (rw e) ]

pick_bounds : (m x : ℕ) → (m ≤ (if leb x m then m else x)) × (x ≤ (if leb x m then m else x))
pick_bounds m x = ground arith

IsGreatest-step :
    (r m x k : ℕ) (xs : List ℕ)
    → (k ≡ m) ⊎ (k ≡ x)
    → m ≤ k
    → x ≤ k
    → IsGreatest r (k ∷ xs)
    → IsGreatest r (m ∷ x ∷ xs)
IsGreatest-step r m x k xs which le_m le_x (there, top) = (place there, below)
  where
    place : In r (k ∷ xs) → In r (m ∷ x ∷ xs)
    place (inl e) = elim which [ inl f ↦ inl (e ∙ f) | inr f ↦ inr (inl (e ∙ f)) ]
    place (inr j) = inr (inr j)

    below : (d : ℕ) → In d (m ∷ x ∷ xs) → d ≤ r
    below d (inl e) = omega (arith, top k (inl refl))
    below d (inr (inl e)) = omega (arith, top k (inl refl))
    below d (inr (inr j)) = top d (inr j)

max_from-IsGreatest : (m : ℕ) (xs : List ℕ) → IsGreatest (max_from m xs) (m ∷ xs)
max_from-IsGreatest m [] = (inl refl, λ d i. elim i [ inl e ↦ omega arith | inr j ↦ elim j [ ] ])
max_from-IsGreatest m (x ∷ xs) =
    let k : ℕ = if leb x m then m else x in
    let (le_m, le_x) = pick_bounds m x in
    IsGreatest-step (max_from k xs) m x k xs (pick m x) le_m le_x (max_from-IsGreatest k xs)

maximum-IsGreatest :
    (xs : List ℕ) (d : ℕ) → In d xs → (m : ℕ) × (maximum xs ≡ some m) × IsGreatest m xs
maximum-IsGreatest [] d i = elim i [ ]
maximum-IsGreatest (x ∷ xs) d i = (max_from x xs, refl, max_from-IsGreatest x xs)

-- The greatest divisor of the heads that is no more than the number of GPUs.
pub record IsLargestDivisor (n_head gpu_num d : ℕ) : Type 0 where
  pub divides : Divides d n_head
  pub fits : d ≤ gpu_num
  pub greatest : (e : ℕ) → Divides e n_head → e ≤ gpu_num → e ≤ d

pub largest_divisor :
    (n_head gpu_num : ℕ)
    → 1 ≤ n_head
    → 1 ≤ gpu_num
    → (d : ℕ) × (maximum (keep (λ v. leb v gpu_num) (find_divisors n_head)) ≡ some d)
      × IsLargestDivisor n_head gpu_num d
largest_divisor n_head gpu_num pos some_gpu =
    let divisors : List ℕ = find_divisors n_head in
    let small : ℕ → Bool = λ v. leb v gpu_num in
    let exact : (d : ℕ) → In d divisors ↔ Divides d n_head = (find_divisors-Divides n_head pos).0 in
    let one : In 1 (keep small divisors) =
      In-keep small divisors 1 ((exact 1).1 (n_head, omega arith)) (le→leb 1 gpu_num some_gpu) in
    let (d, found, (there, top)) = maximum-IsGreatest (keep small divisors) 1 one in
    (
      d,
      found,
      record {
        divides = (exact d).0 (In-of_keep small divisors d there).0;
        fits = leb→le d gpu_num (In-of_keep small divisors d there).1;
        greatest = λ e q le. top e (In-keep small divisors e ((exact e).1 q) (le→leb e gpu_num le));
      },
    )

module _ (numbers : Numbers) (analytics : Analytics numbers) (framework : String)
    (param : numbers.Number) (gpu : Gpu) (metrics : List (Replica numbers))
    (c : Configurations numbers) where
  open numbers use {of_ℕ, tenths, add, sub, mul, to_int, less}

  -- The memory that scaling up asks for.
  abbrev pub required_mem : Signals numbers → numbers.Number → numbers.Number
  required_mem s util =
      let sizes = config_match numbers framework param in
      let param_mem = mul sizes.param_size (of_ℕ 2) in
      let kv_mem = sub (memory_of numbers analytics c.tensor_parallel_size util gpu) param_mem in
      larger numbers analytics (add (required_kv_mem numbers analytics s kv_mem) param_mem) (
        memory_estimation numbers sizes.param_size sizes.token_size sizes.seq_length (of_ℕ 2)
          (of_ℕ (5 * 1024 ^ 3)))

  verify_memory-swapped :
      (s : Signals numbers) (util : numbers.Number) {x : Option ℕ} {d : ℕ}
      → s.is_scale_up ≡ true
      → (less s.kv_cache_usage (of_ℕ 90) && less s.batch_usage (tenths 9)) ≡ false
      → c.gpu_memory_utilization ≡ some util
      → memory_config_rec numbers
          (required_mem s util)
          (config_match numbers framework param).n_head
          (of_ℕ gpu.spec)
          gpu.num
        ≡ (none, x)
      → maximum
          (keep (λ v. leb v gpu.num) (find_divisors (config_match numbers framework param).n_head))
        ≡ some d
      → verify_memory numbers analytics (config_match numbers framework param) gpu c s
        ≡ next (tenths 9, some (of_ℕ d))
  unfolding verify_memory
  verify_memory-swapped s util up real had_util none_fits found =
      rw (up, had_util, real, none_fits, found)

  predict_replicas-ne-unchanged :
      (s : Signals numbers) (tp : numbers.Number) (util : Option numbers.Number)
      → predict_replicas numbers analytics metrics
          (config_match numbers framework param)
          gpu
          c
          s
          tp
          util
        ≢ unchanged
  unfolding predict_replicas
  predict_replicas-ne-unchanged s tp util = ground arith

  recovered-memory :
      (s : Signals numbers) (tp : numbers.Number) (util : Option numbers.Number)
      (t : numbers.Number) {r : Configurations numbers}
      → to_int tp ≡ some t
      → read_signals numbers analytics metrics c ≡ next s
      → verify_memory numbers analytics (config_match numbers framework param) gpu c s
        ≡ next (tp, util)
      → llm_config_recovery numbers analytics framework param gpu metrics c ≡ some r
      → (r.tensor_parallel_size ≡ t) × (r.gpu_memory_utilization ≡ util)
  unfolding llm_config_recovery recovered
  recovered-memory s tp util t int_tp read memory h =
      ground (arith, predict_replicas-ne-unchanged s tp util)

  -- The signals are read and ask for more, the usage is not discarded as made-up, a utilisation is
  -- configured, the heads and the GPUs are not 0, and no tensor-parallel size holds the required
  -- memory: if `int(0.9)` is 0, any configuration that is returned has tensor-parallel size 0, and
  -- the largest divisor of the heads up to the number of GPUs as its utilisation.
  pub llm_config_recovery-swapped :
      (s : Signals numbers) (util : numbers.Number) {x : Option ℕ} {r : Configurations numbers}
      → 1 ≤ (config_match numbers framework param).n_head
      → 1 ≤ gpu.num
      → to_int (tenths 9) ≡ some (of_ℕ 0)
      → read_signals numbers analytics metrics c ≡ next s
      → s.is_scale_up ≡ true
      → (less s.kv_cache_usage (of_ℕ 90) && less s.batch_usage (tenths 9)) ≡ false
      → c.gpu_memory_utilization ≡ some util
      → memory_config_rec numbers
          (required_mem s util)
          (config_match numbers framework param).n_head
          (of_ℕ gpu.spec)
          gpu.num
        ≡ (none, x)
      → llm_config_recovery numbers analytics framework param gpu metrics c ≡ some r
      → (r.tensor_parallel_size ≡ of_ℕ 0)
        × ((d : ℕ) × (r.gpu_memory_utilization ≡ some (of_ℕ d))
            × IsLargestDivisor (config_match numbers framework param).n_head gpu.num d)
  llm_config_recovery-swapped s util heads gpus int_zero read up real had_util none_fits h =
      let (d, found, largest) =
        largest_divisor (config_match numbers framework param).n_head gpu.num heads gpus in
      let memory = verify_memory-swapped s util up real had_util none_fits found in
      let (tp, same) =
        recovered-memory s (tenths 9) (some (of_ℕ d)) (of_ℕ 0) int_zero read memory h in
      (tp, (d, same, largest))
