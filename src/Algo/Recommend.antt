-- ===== src/Algo/Recommend.antt =====
-- `llm_config_recommendations` of algo/service.py, as `AlgoService.config_recommend` calls it.
use mathlib.Core.Option.{map}
use enova.Prelude.{ℕ, ◌^◌, ◌*◌, String, Option, if◌then◌else◌}
use enova.Prelude.Text.{codes, lower, same_codes}
use enova.Algo.Numbers.{Numbers}
use enova.Algo.Models.{config_match, max_num_seqs_rec}
use enova.Algo.Memory.{gpu_memory_rec}

-- `params["gpu"]`: the memory of one GPU in GB and the number of GPUs.
pub record Gpu : Type 0 where
  pub spec : ℕ
  pub num : ℕ

pub record Recommendation : Type 0 where
  pub max_num_seqs : ℕ
  pub tensor_parallel_size : Option ℕ
  -- In tenths.
  pub gpu_memory_utilization : Option ℕ
  pub replicas : ℕ

-- GB that are set aside for activations.
abbrev pub activations : String → ℕ
activations framework = if same_codes (lower (codes framework)) (codes "mistral") then 5 else 3

module _ (numbers : Numbers) where
  open numbers use {Number, of_ℕ}

  abbrev advised : String → Number → Gpu → ℕ → Recommendation
  advised framework param gpu max_num_seqs =
      let (tp_size, mem_util) =
        gpu_memory_rec numbers (config_match numbers framework param) (of_ℕ gpu.spec) gpu.num
          (of_ℕ 2) (of_ℕ (activations framework * 1024 ^ 3)) in
      record {
        max_num_seqs = max_num_seqs;
        tensor_parallel_size = tp_size;
        gpu_memory_utilization = mem_util;
        replicas = 1;
      }

  -- `none` is an exception.
  unfoldable pub llm_config_recommendations : String → Number → Gpu → Option Recommendation
  unfolding config_match max_num_seqs_rec gpu_memory_rec
  llm_config_recommendations framework param gpu =
      map (advised framework param gpu)
        (max_num_seqs_rec numbers (config_match numbers framework param))
