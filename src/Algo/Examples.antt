-- ===== src/Algo/Examples.antt =====
-- The theorems on algo/service.py at concrete numbers, series and configurations.
use enova.Prelude.{
  ℕ, ◌+◌, ◌-◌, ◌*◌, ◌/◌, min, max, ◌≡◌, refl, arith, true, false, List, [], ◌∷◌, map, none, some,
  ltb, leb, ◌==◌, length, drop, In, All, ◌↔◌,
}
use enova.Algo.Numbers.{Numbers}
use enova.Algo.Factors.{prime_factors, find_divisors}
use enova.Algo.Factors.Primes.{Divides, IsPrime, product}
use enova.Algo.Factors.Loop.{prime_factors-product}
use enova.Algo.Factors.Divisors.{IsAscending, find_divisors-Divides}
use enova.Algo.Models.{config_match, nearest_default, max_num_seqs_rec}
use enova.Algo.Memory.{memory_config_rec, memory_estimation}
use enova.Algo.Memory.Fit.{IsAdvice, memory_config_rec-IsAdvice}
use enova.Algo.Metrics.{Analytics, Replica, metric_process, metric_norm, metric_freq}
use enova.Algo.Detect.{llm_performance_ad}
use enova.Algo.Detect.Rules.{llm_performance_ad-short, llm_performance_ad-single}
use enova.Algo.Recommend.{Gpu}
use enova.Algo.Recover.{
  Configurations, Signals, read_signals, llm_config_recovery, recovered, verify_memory,
  predict_replicas,
}
use enova.Algo.Recover.Swapped.{IsLargestDivisor, llm_config_recovery-swapped}

-- Numbers with one decimal, in tenths; a difference below zero is 0.
abbrev fixed : Numbers
fixed = record {
  Number = ℕ;
  of_ℕ = λ n. 10 * n;
  tenths = λ n. n;
  add = λ a b. a + b;
  sub = λ a b. a - b;
  mul = λ a b. a * b / 10;
  div = λ a b. a * 10 / b;
  floor_div = λ a b. a / b * 10;
  abs = λ a. a;
  ceil = λ a. (a + 9) / 10 * 10;
  to_int = λ a. some (a / 10 * 10);
  less = ltb;
  at_most = leb;
  eq = λ a b. a == b;
}

abbrev first_or : List ℕ → ℕ
first_or [] = 0
first_or (x ∷ xs) = x

abbrev seconds : List (ℕ × ℕ) → List ℕ
seconds [] = []
seconds (p ∷ rest) = p.1 ∷ seconds rest

abbrev added : List ℕ → List ℕ → List ℕ
added (x ∷ xs) (y ∷ ys) = (x + y) ∷ added xs ys
added _ _ = []

-- Frames as the list of their values, for series with a step of a minute.
abbrev simple : Analytics fixed
simple = record {
  unique = λ xs. (first_or xs ∷ [], length xs ∷ []);
  max_count = first_or;
  sum_counts = first_or;
  arg_max = λ _. 0;
  Frame = List ℕ;
  reindex = λ points _ _ _ _. seconds points;
  add_values = added;
  sum_per_minute = λ f. f;
  mean_per_minute = λ f. f;
  divide = λ f n. map (λ x. x / n) f;
  last_values = λ n f. drop (length f - n) f;
  percentile = λ xs _. first_or xs;
  clip = λ v low high. max low (min v high);
}

abbrev steady_at : ℕ → List (ℕ × ℕ)
steady_at v = (600, v) ∷ (1200, v) ∷ (1800, v) ∷ (2400, v) ∷ (3000, v) ∷ []

abbrev replica : ℕ → ℕ → ℕ → Replica fixed
replica pending running kv = record {
  pending_requests = steady_at pending;
  running_requests = steady_at running;
  gpu_kv_cache_usage = steady_at kv;
  server_new_requests = steady_at 400;
  server_success_requests = steady_at 200;
}

abbrev silent : Replica fixed
silent = record {
  pending_requests = [];
  running_requests = (600, 10) ∷ [];
  gpu_kv_cache_usage = steady_at 10;
  server_new_requests = [];
  server_success_requests = [];
}

abbrev config : ℕ → Configurations fixed
config replicas = record {
  max_num_seqs = 640;
  tensor_parallel_size = 10;
  gpu_memory_utilization = some 9;
  replicas = 10 * replicas;
}

abbrev gpu : Gpu
gpu = record { spec = 24; num = 4 }

abbrev small : Gpu
small = record { spec = 1; num = 1 }

abbrev quiet : Signals fixed
quiet = record { is_scale_up = false; is_scale_down = true; batch_usage = 0; kv_cache_usage = 50 }

abbrev busy : Signals fixed
busy = record { is_scale_up = true; is_scale_down = false; batch_usage = 10; kv_cache_usage = 950 }

prime_factors-product_example : (product (prime_factors 60) ≡ 60) × All IsPrime (prime_factors 60)
prime_factors-product_example = prime_factors-product 60 (omega arith)

find_divisors-Divides_example :
    ((d : ℕ) → In d (find_divisors 60) ↔ Divides d 60) × IsAscending (find_divisors 60)
find_divisors-Divides_example = find_divisors-Divides 60 (omega arith)

memory_config_rec-IsAdvice_example :
    IsAdvice fixed 200000000000 32 (24 * 9) 4 (memory_config_rec fixed 200000000000 32 240 4)
memory_config_rec-IsAdvice_example =
    memory_config_rec-IsAdvice fixed 200000000000 32 240 4 (omega arith)

llm_performance_ad-short_example : llm_performance_ad fixed simple (silent ∷ []) 20 640 ≡ 0
llm_performance_ad-short_example =
    llm_performance_ad-short fixed simple (silent ∷ []) 20 640 ((omega arith, omega arith), tt)

llm_performance_ad-single_example :
    llm_performance_ad fixed simple (replica 600 10 50 ∷ []) 10 640
    ≡ llm_performance_ad fixed simple (replica 600 990 700 ∷ []) 10 640
llm_performance_ad-single_example =
    llm_performance_ad-single fixed simple (replica 600 10 50 ∷ []) (replica 600 990 700 ∷ []) 10
      640 refl refl

abbrev halved : Configurations fixed
halved = record {
  max_num_seqs = 80;
  tensor_parallel_size = 10;
  gpu_memory_utilization = some 9;
  replicas = 10;
}

abbrev swapped : Configurations fixed
swapped = record {
  max_num_seqs = 80;
  tensor_parallel_size = 0;
  gpu_memory_utilization = some 10;
  replicas = 10;
}

llm_config_recovery-swapped_example :
    (swapped.tensor_parallel_size ≡ 0)
    × ((d : ℕ) × (swapped.gpu_memory_utilization ≡ some (10 * d)) × IsLargestDivisor 32 1 d)
unfolding llm_config_recovery recovered verify_memory predict_replicas read_signals metric_process
    metric_norm metric_freq max_num_seqs_rec config_match nearest_default memory_config_rec
    memory_estimation find_divisors prime_factors
llm_config_recovery-swapped_example =
    llm_config_recovery-swapped fixed simple "llama" 70 small (replica 600 640 950 ∷ []) (config 1)
      busy 9 {x = none} {r = swapped} (omega arith) (omega arith) refl refl refl refl refl refl refl
