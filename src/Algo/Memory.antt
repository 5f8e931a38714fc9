-- ===== src/Algo/Memory.antt =====
-- `memory_estimation`, `memory_config_rec` and `gpu_memory_rec` of algo/service.py.
pub mod Fit
use enova.Prelude.{ℕ, ◌^◌, Bool, ◌&&◌, List, [], ◌∷◌, Option, none, some, if◌then◌else◌, leb, first}
use enova.Algo.Factors.{find_divisors}
use enova.Algo.Numbers.{Numbers}
use enova.Algo.Models.{Sizes, gpu_mem_util}

module _ (numbers : Numbers) where
  open numbers use {Number, of_ℕ, tenths, add, mul, less}

  unfoldable pub memory_estimation : Number → ℕ → ℕ → Number → Number → Number
  memory_estimation param_size token_size seq_length dtype_size mem_activations =
      add (mul (add param_size (mul (of_ℕ token_size) (of_ℕ seq_length))) dtype_size)
        mem_activations

  -- The tests of the two loops. `spec` is the memory of one GPU after the safe limit.
  abbrev pub holds_at_most : Number → Number → ℕ → Bool
  holds_at_most total spec s =
      less total (mul (mul (mul (of_ℕ s) spec) (of_ℕ (1024 ^ 3))) (tenths 9))

  abbrev pub holds_at : Number → Number → ℕ → ℕ → Bool
  holds_at total spec s m = less total (mul (mul (mul (tenths m) (of_ℕ s)) spec) (of_ℕ (1024 ^ 3)))

  -- The utilisation is given in tenths.
  unfoldable pub memory_config_rec : Number → ℕ → Number → ℕ → Option ℕ × Option ℕ
  memory_config_rec total_mem n_head gpu_spec gpu_num =
      let spec = mul gpu_spec (tenths 9) in
      elim (first (λ s. holds_at_most total_mem spec s && leb s gpu_num) (find_divisors n_head)) [
        | none ↦ (none, none)
        | some s ↦ (some s, first (holds_at total_mem spec s) gpu_mem_util)
      ]

  -- `gpu_config` as its two fields that are read.
  unfoldable pub gpu_memory_rec : Sizes numbers → Number → ℕ → Number → Number → Option ℕ × Option ℕ
  unfolding memory_estimation memory_config_rec
  gpu_memory_rec config gpu_spec gpu_num dtype_size mem_activations =
      memory_config_rec
        (memory_estimation config.param_size config.token_size config.seq_length dtype_size
          mem_activations)
        config.n_head gpu_spec gpu_num
