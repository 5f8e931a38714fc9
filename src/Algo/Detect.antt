-- ===== src/Algo/Detect.antt =====
-- `llm_performance_ad` of algo/service.py, as `AlgoService.anomaly_detect` calls it: no keyword
-- argument, so every threshold has its default.
pub mod Rules
use enova.Prelude.{
  ℕ, zero, suc, Bool, true, false, ◌&&◌, ◌||◌, List, map, Option, none, some, if◌then◌else◌, every,
}
use enova.Algo.Numbers.{Numbers}
use enova.Algo.Metrics.{Analytics, Replica, metric_process}

-- `int(b)`.
abbrev pub int : Bool → ℕ
int true = 1
int false = 0

module _ (numbers : Numbers) (analytics : Analytics numbers) where
  open numbers use {Number, of_ℕ, tenths, mul, at_most, eq}
  open analytics use {sum_per_minute, mean_per_minute, divide, last_values}

  unfoldable pub is_up_anomaly : List (Replica numbers) → Bool
  is_up_anomaly metrics =
      elim (metric_process numbers analytics (map (λ r. r.pending_requests) metrics)) [
        | none ↦ false
        | some (frame, i) ↦ every (λ v. at_most (of_ℕ 50) v) (last_values 3 (sum_per_minute frame))
      ]

  -- The first assignment of `is_down_anomaly`, and the second.
  unfoldable pub is_kv_cache_low : List (Replica numbers) → Bool
  is_kv_cache_low metrics =
      elim (metric_process numbers analytics (map (λ r. r.gpu_kv_cache_usage) metrics)) [
        | none ↦ false
        | some (frame, i) ↦
            every (λ v. at_most v (of_ℕ 10)) (last_values 3 (divide (mean_per_minute frame) i))
      ]

  unfoldable pub is_down_anomaly : List (Replica numbers) → Number → Bool
  is_down_anomaly metrics max_num_seqs =
      elim (metric_process numbers analytics (map (λ r. r.running_requests) metrics)) [
        | none ↦ false
        | some (frame, i) ↦
            is_kv_cache_low metrics
            && every (λ v. at_most v (mul (tenths 1) max_num_seqs))
                (last_values 3 (divide (mean_per_minute frame) i))
      ]

  unfoldable pub llm_performance_ad : List (Replica numbers) → Number → Number → ℕ
  llm_performance_ad metrics replicas max_num_seqs =
      if eq replicas (of_ℕ 1)
      then int (is_up_anomaly metrics)
      else int (is_up_anomaly metrics || is_down_anomaly metrics max_num_seqs)
