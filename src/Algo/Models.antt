-- ===== src/Algo/Models.antt =====
-- `LLMConfig`, `GPUConfig`, `RecConfig`, `config_match` and `max_num_seqs_rec` of algo/service.py.
use enova.Prelude.{ℕ, ◌*◌, ◌^◌, String, List, [], ◌∷◌, Option, none, some, if◌then◌else◌, str_eq}
use enova.Algo.Numbers.{Numbers, min_from}

-- An entry of `LLMConfig.LLM_CONFIG`: its parameter count in billions, and its sizes.
pub record Model : Type 0 where
  pub param_size : ℕ
  pub token_size : ℕ
  pub n_head : ℕ
  pub seq_length : ℕ

-- An entry of `LLMConfig.DEFAULT_CONFIG`.
pub record Default : Type 0 where
  pub param : ℕ
  pub token_size : ℕ
  pub seq_length : ℕ

abbrev model : ℕ → ℕ → ℕ → ℕ → Model
model p t h s = record { param_size = p; token_size = t; n_head = h; seq_length = s }

abbrev pub llm_config : List (String × List (ℕ × Model))
llm_config =
    ("baichuan", (7, model 7505707008 262144 32 4096) ∷ (13, model 13896253440 409600 40 8192) ∷ [])
    ∷ ("chatglm", (6, model 6243221504 86016 32 8192) ∷ [])
    ∷ ("gemma", (2, model 2506096640 9216 8 8192) ∷ (7, model 8537505792 262144 16 8192) ∷ [])
    ∷ ("llama", (7, model 6607077376 262144 32 4096) ∷ (13, model 12851609600 409600 40 4096) ∷ [])
    ∷ ("mistral", (7, model 7110393856 65536 32 32768) ∷ [])
    ∷ ("qwen", (7, model 7720665088 262144 32 8192) ∷ (14, model 14166261760 409600 40 8192) ∷ [])
    ∷ []

abbrev pub default_7 : Default
default_7 = record { param = 7; token_size = 262144; seq_length = 8192 }

abbrev pub default_rest : List Default
default_rest =
    record { param = 13; token_size = 409600; seq_length = 8192 }
    ∷ record { param = 70; token_size = 1310720; seq_length = 8192 }
    ∷ []

-- `GPUConfig.BATCH_BASELINE` and `RecConfig.MAX_NUM_SEQ`; `GPU_MEM_UTIL` is in tenths.
abbrev pub batch_baseline : ℕ
batch_baseline = 256 * (7 * 1024 ^ 3)

abbrev pub max_num_seq_rest : List ℕ
max_num_seq_rest = 16 ∷ 32 ∷ 64 ∷ 128 ∷ 256 ∷ 512 ∷ 1024 ∷ []

abbrev pub gpu_mem_util : List ℕ
gpu_mem_util = 4 ∷ 5 ∷ 6 ∷ 7 ∷ 8 ∷ 9 ∷ []

abbrev pub lookup {ℓ} : {V : Type ℓ} → String → List (String × V) → Option V
lookup k [] = none
lookup k ((j, v) ∷ rest) = if str_eq j k then some v else lookup k rest

module _ (numbers : Numbers) where
  open numbers use {Number, of_ℕ, sub, mul, div, abs, eq}

  -- The sizes that the later steps read: `param_size` is an int of the table or a float.
  pub record Sizes : Type 0 where
    pub param_size : Number
    pub token_size : ℕ
    pub n_head : ℕ
    pub seq_length : ℕ

  -- `d[param]` for a dict whose keys are ints.
  abbrev pub lookup_number : Number → List (ℕ × Model) → Option Model
  lookup_number p [] = none
  lookup_number p ((k, m) ∷ rest) = if eq (of_ℕ k) p then some m else lookup_number p rest

  abbrev pub known : String → Number → Option Model
  known llm param = elim (lookup llm llm_config) [
    | none ↦ none
    | some models ↦ lookup_number param models
  ]

  -- `min(DEFAULT_CONFIG.keys(), key=lambda x: abs(x - param))`, with its entry.
  unfoldable pub nearest_default : Number → Default
  nearest_default param =
      min_from numbers (λ d. abs (sub (of_ℕ d.param) param)) default_7 default_rest

  unfoldable pub config_match : String → Number → Sizes
  config_match llm param = elim (known llm param) [
    | some m ↦ record {
      param_size = of_ℕ m.param_size;
      token_size = m.token_size;
      n_head = m.n_head;
      seq_length = m.seq_length;
    }
    | none ↦ record {
      param_size = mul param (of_ℕ (1024 ^ 3));
      token_size = (nearest_default param).token_size;
      n_head = 8;
      seq_length = (nearest_default param).seq_length;
    }
  ]

  abbrev pub batch_gap : Number → ℕ → Number
  batch_gap param_size x = abs (sub (of_ℕ x) (div (of_ℕ batch_baseline) param_size))

  -- `none` is the ZeroDivisionError of the first key.
  unfoldable pub max_num_seqs_rec : Sizes → Option ℕ
  max_num_seqs_rec config =
      if eq config.param_size (of_ℕ 0)
      then none
      else some (min_from numbers (batch_gap config.param_size) 8 max_num_seq_rest)
