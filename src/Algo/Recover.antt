-- ===== src/Algo/Recover.antt =====
-- `llm_config_recovery` of algo/service.py, as `AlgoService.anomaly_recover` calls it, in stages.
pub mod Swapped
use enova.Prelude.{
  ℕ, ◌*◌, ◌^◌, String, Bool, not, ◌&&◌, ◌||◌, List, [], ◌∷◌, map, Option, none, some, if◌then◌else◌,
  keep, leb, every,
}
use enova.Algo.Numbers.{Numbers}
use enova.Algo.Models.{Sizes, config_match, max_num_seqs_rec}
use enova.Algo.Memory.{memory_estimation, memory_config_rec}
use enova.Algo.Factors.{find_divisors}
use enova.Algo.Metrics.{Analytics, Replica, Total, count, metric_process}
use enova.Algo.Recommend.{Gpu}

-- A stage gives a value, or ends the call with the given configurations, or raises.
pub data Stage {ℓ} (A : Type ℓ) : Type ℓ where
  next : A → Stage A
  unchanged : Stage A
  raises : Stage A

infixl 5 ◌>>=◌
abbrev pub ◌>>=◌ {ℓ κ} : {A : Type ℓ} {B : Type κ} → Stage A → (A → Stage B) → Stage B
next a >>= f = f a
unchanged >>= f = unchanged
raises >>= f = raises

abbrev pub or_raise {ℓ} : {A : Type ℓ} → Option A → Stage A
or_raise none = raises
or_raise (some a) = next a

-- `max` of a non-empty list of ints; it raises on an empty one.
abbrev max_from : ℕ → List ℕ → ℕ
max_from m [] = m
max_from m (x ∷ xs) = max_from (if leb x m then m else x) xs

abbrev pub maximum : List ℕ → Option ℕ
maximum [] = none
maximum (x ∷ xs) = some (max_from x xs)

module _ (numbers : Numbers) where
  open numbers use {
    Number, of_ℕ, tenths, add, sub, mul, div, floor_div, ceil, to_int, less, at_most, eq,
  }

  -- `params["configurations"]`, and the returned dict.
  pub record Configurations : Type 0 where
    pub max_num_seqs : Number
    pub tensor_parallel_size : Number
    pub gpu_memory_utilization : Option Number
    pub replicas : Number

  -- What is read off the metrics.
  pub record Signals : Type 0 where
    pub is_scale_up : Bool
    pub is_scale_down : Bool
    pub batch_usage : Number
    pub kv_cache_usage : Number

  module _ (analytics : Analytics numbers) where
    open analytics use {
      Frame, sum_per_minute, mean_per_minute, divide, last_values, percentile, clip,
    }

    -- One of the three blocks `if replicas != i: ... return`; a frame that is `None` raises.
    abbrev pub gather : Number → Total numbers analytics → Stage (Frame × ℕ)
    gather replicas total =
        if not (eq replicas (of_ℕ (count numbers analytics total)))
        then unchanged
        else or_raise total

    unfoldable pub read_signals : List (Replica numbers) → Configurations → Stage Signals
    read_signals metrics config = do
      pending ←
          gather config.replicas
            (metric_process numbers analytics (map (λ r. r.pending_requests) metrics))
      kv_cache ←
          gather config.replicas
            (metric_process numbers analytics (map (λ r. r.gpu_kv_cache_usage) metrics))
      running ←
          gather config.replicas
            (metric_process numbers analytics (map (λ r. r.running_requests) metrics))
      let batch_usage =
          div (percentile (last_values 3 (divide (mean_per_minute running.0) running.1)) 90)
            config.max_num_seqs
      let kv_cache_usage =
          percentile (last_values 3 (divide (mean_per_minute kv_cache.0) kv_cache.1)) 90
      next (record {
        is_scale_up = every (λ v. at_most (of_ℕ 50) v) (last_values 3 (sum_per_minute pending.0));
        is_scale_down = less batch_usage (tenths 1) && less kv_cache_usage (of_ℕ 10);
        batch_usage = batch_usage;
        kv_cache_usage = kv_cache_usage;
      })

    -- Memory of `tp` GPUs at a utilisation.
    abbrev pub memory_of : Number → Number → Gpu → Number
    memory_of tp util gpu = mul (mul (mul tp util) (of_ℕ gpu.spec)) (of_ℕ (1024 ^ 3))

    -- Python's `max(a, b)`.
    abbrev pub larger : Number → Number → Number
    larger a b = if less a b then b else a

    abbrev pub required_kv_mem : Signals → Number → Number
    required_kv_mem s kv_mem =
        if less (of_ℕ 90) s.kv_cache_usage && less s.batch_usage (tenths 9)
        then div kv_mem s.batch_usage
        else if less s.kv_cache_usage (of_ℕ 90) && less (tenths 9) s.batch_usage
        then div (mul s.kv_cache_usage kv_mem) (of_ℕ 100)
        else kv_mem

    -- `tp_size_new` and `mem_util_new` from the advice: where there is none, the code gives the
    -- largest utilisation to the first and the largest divisor to the second.
    abbrev pub from_advice : ℕ → ℕ → Option ℕ × Option ℕ → Stage (Number × Option Number)
    from_advice n_head gpu_num (some tp, none) = next (of_ℕ tp, none)
    from_advice n_head gpu_num (some tp, some util) = next (of_ℕ tp, some (tenths util))
    from_advice n_head gpu_num (none, _) =
        or_raise (maximum (keep (λ v. leb v gpu_num) (find_divisors n_head))) >>= λ d.
        next (tenths 9, some (of_ℕ d))

    -- 2) of the source.
    unfoldable pub verify_memory :
        Sizes numbers → Gpu → Configurations → Signals → Stage (Number × Option Number)
    verify_memory sizes gpu config s =
        if not s.is_scale_up
        then next (config.tensor_parallel_size, config.gpu_memory_utilization)
        else do
          util ← or_raise config.gpu_memory_utilization
          let param_mem = mul sizes.param_size (of_ℕ 2)
          let kv_mem = sub (memory_of config.tensor_parallel_size util gpu) param_mem
          let lower_mem =
              memory_estimation numbers sizes.param_size sizes.token_size sizes.seq_length (of_ℕ 2)
                (of_ℕ (5 * 1024 ^ 3))
          if less s.kv_cache_usage (of_ℕ 90) && less s.batch_usage (tenths 9)
              then unchanged
              else from_advice sizes.n_head gpu.num (
                  memory_config_rec numbers
                    (larger (add (required_kv_mem s kv_mem) param_mem) lower_mem) sizes.n_head
                    (of_ℕ gpu.spec) gpu.num)

    -- 3) of the source, up to the last `int`.
    unfoldable pub predict_replicas :
        List (Replica numbers)
        → Sizes numbers
        → Gpu
        → Configurations
        → Signals
        → Number
        → Option Number
        → Stage Number
    predict_replicas metrics sizes gpu config s tp util =
        if s.is_scale_up
        then (let new =
              metric_process numbers analytics (map (λ r. r.server_new_requests) metrics) in
            let success =
              metric_process numbers analytics (map (λ r. r.server_success_requests) metrics) in
            if not (eq config.replicas (of_ℕ (count numbers analytics new)))
              || not (eq config.replicas (of_ℕ (count numbers analytics success)))
            then next config.replicas
            else do
              new_frame ← or_raise new
              success_frame ← or_raise success
              let new_requests = percentile (last_values 3 new_frame.0) 90
              let success_requests = percentile (last_values 3 success_frame.0) 90
              util_new ← or_raise util
              util_old ← or_raise config.gpu_memory_utilization
              let param_mem = mul sizes.param_size (of_ℕ 2)
              let new_mem = sub (memory_of tp util_new gpu) param_mem
              let old_mem = sub (memory_of config.tensor_parallel_size util_old gpu) param_mem
              wanted ← or_raise (
                  to_int (
                    ceil (
                      mul (div (mul (div old_mem new_mem) new_requests) success_requests)
                        config.replicas)))
              next (clip wanted config.replicas (floor_div (of_ℕ gpu.num) tp)))
        else if s.is_scale_down
        then next (ceil (div config.replicas (of_ℕ 2)))
        else next config.replicas

    -- 1) of the source.
    abbrev pub new_max_num_seqs : Sizes numbers → Configurations → Signals → Stage Number
    new_max_num_seqs sizes config s =
        if s.is_scale_up || s.is_scale_down
        then (or_raise (max_num_seqs_rec numbers sizes) >>= (λ n. next (of_ℕ n)))
        else next config.max_num_seqs

    unfoldable pub recovered :
        String → Number → Gpu → List (Replica numbers) → Configurations → Stage Configurations
    recovered framework param gpu metrics config = do
      let sizes = config_match numbers framework param
      s ← read_signals metrics config
      max_num_seqs_new ← new_max_num_seqs sizes config s
      memory ← verify_memory sizes gpu config s
      replicas ← predict_replicas metrics sizes gpu config s memory.0 memory.1
      max_num_seqs_int ← or_raise (to_int max_num_seqs_new)
      tp_int ← or_raise (to_int memory.0)
      replicas_int ← or_raise (to_int replicas)
      next (record {
        max_num_seqs = max_num_seqs_int;
        tensor_parallel_size = tp_int;
        gpu_memory_utilization = memory.1;
        replicas = replicas_int;
      })

    -- `none` is an exception.
    unfoldable pub llm_config_recovery :
        String → Number → Gpu → List (Replica numbers) → Configurations → Option Configurations
    llm_config_recovery framework param gpu metrics config =
        elim (recovered framework param gpu metrics config) [
          | next c ↦ some c
          | unchanged ↦ some config
          | raises ↦ none
        ]
