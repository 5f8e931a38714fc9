-- ===== src/Size.antt =====
-- Sizes of storage: `parse_size`, `parse_mgnt_base_by_unit` and `DiskSize` of enova/common/utils.py, and
-- the estimates of enova/enode/utils.py.
pub mod Units
mod Examples
use Prim.Native.Char.{code}
use enova.Prelude.{
  String, ℕ, zero, suc, ◌+◌, ◌*◌, ◌^◌, Bool, true, false, not, ◌&&◌, ◌||◌, List, [], ◌∷◌, Option,
  none, some, if◌then◌else◌, ◌==◌, ltb, leb, str_eq,
}
use enova.Prelude.Int.{ℤ, pos, negsuc, pos_part, neg_part, sub_ℕ}
use enova.Prelude.Text.{codes, lower, same_codes}

pub record SizeMagnitude : Type 0 where
  pub divider : ℕ
  pub symbol : String
  pub name : String

pub record CombinedMagnitude : Type 0 where
  pub decimal : SizeMagnitude
  pub binary : SizeMagnitude

abbrev magnitude : ℕ → String → String → String → String → CombinedMagnitude
magnitude n symbol name symbol_i name_i = record {
  decimal = record { divider = 1000 ^ n; symbol = symbol; name = name };
  binary = record { divider = 1024 ^ n; symbol = symbol_i; name = name_i };
}

abbrev pub disk_size_mgnts : List CombinedMagnitude
disk_size_mgnts =
    magnitude 1 "K" "kilo" "Ki" "kibi"
    ∷ magnitude 2 "M" "mega" "Mi" "mebi"
    ∷ magnitude 3 "G" "giga" "Gi" "gibi"
    ∷ magnitude 4 "T" "tera" "Ti" "tebi"
    ∷ magnitude 5 "P" "peta" "Pi" "pebi"
    ∷ magnitude 6 "E" "exa" "Ei" "exbi"
    ∷ magnitude 7 "Z" "zetta" "Zi" "zebi"
    ∷ magnitude 8 "Y" "yotta" "Yi" "yobi"
    ∷ magnitude 9 "B" "bronto" "Bi" "brobi"
    ∷ []

abbrev one_of : ℕ → List ℕ → Bool
one_of c [] = false
one_of c (d ∷ ds) = c == d || one_of c ds

-- `str.rstrip(chars)`: the characters at the end that are among `chars` go.
abbrev pub rstrip : List ℕ → List ℕ → List ℕ
rstrip chars [] = []
rstrip chars (c ∷ s) = keep_unless (rstrip chars s)
  where
    keep_unless : List ℕ → List ℕ
    keep_unless [] = if one_of c chars then [] else c ∷ []
    keep_unless (d ∷ rest) = c ∷ d ∷ rest

-- `ds_unit.rstrip("s").rstrip("byte").rstrip("b")`.
abbrev pub magnitude_part : List ℕ → List ℕ
magnitude_part unit = rstrip (codes "b") (rstrip (codes "byte") (rstrip (codes "s") unit))

abbrev pub matches : List ℕ → SizeMagnitude → Bool
matches part m = same_codes part (lower (codes m.symbol)) || same_codes part (lower (codes m.name))

-- The loop over the magnitudes: the binary names are looked at first.
unfoldable pub find_base : List ℕ → Bool → List CombinedMagnitude → Option ℕ
find_base part is_binary [] = none
find_base part is_binary (m ∷ rest) =
    if matches part m.binary
    then some m.binary.divider
    else if matches part m.decimal
    then some (if is_binary then m.binary.divider else m.decimal.divider)
    else find_base part is_binary rest

-- `none` is the ValueError.
unfoldable pub parse_mgnt_base_by_unit : String → Bool → Option ℕ
unfolding find_base
parse_mgnt_base_by_unit unit is_binary =
    let ds_unit = lower (codes unit) in
    if same_codes ds_unit []
    then some 1
    else find_base (magnitude_part ds_unit) is_binary disk_size_mgnts

-- A number of a text, an int or a float; `whole` and `times` are `int(x)` and `int(x * divider)`.
pub data Token (Float : Type 0) : Type 0 where
  int_token : ℕ → Token Float
  float_token : Float → Token Float
  text_token : List ℕ → Token Float

pub record Floats : Type 1 where
  pub Float : Type 0
  pub whole : Float → ℕ
  pub times : Float → ℕ → ℕ
  -- `tokenize_size`, by `re`.
  pub tokenize_size : String → List (Token Float)

module _ (f : Floats) where
  -- `int(tokens[0] * divider)`; a text is no number.
  abbrev scaled : Token f.Float → ℕ → Option ℕ
  scaled (int_token n) divider = some (n * divider)
  scaled (float_token x) divider = some (f.times x divider)
  scaled (text_token s) divider = none

  abbrev truncated : Token f.Float → Option ℕ
  truncated (int_token n) = some n
  truncated (float_token x) = some (f.whole x)
  truncated (text_token s) = none

  -- The unit is not empty here, since a token is not.
  abbrev in_unit : Token f.Float → List ℕ → Bool → Option ℕ
  in_unit number [] is_binary = none
  in_unit number (c ∷ rest) is_binary =
      if c == 98
      then truncated number
      else elim (find_base (magnitude_part (c ∷ rest)) is_binary disk_size_mgnts) [
        | none ↦ none
        | some divider ↦ scaled number divider
      ]

  abbrev pub parse_tokens : List (Token f.Float) → Bool → Option ℕ
  parse_tokens (number ∷ []) is_binary = truncated number
  parse_tokens (number ∷ text_token unit ∷ []) is_binary = in_unit number (lower unit) is_binary
  parse_tokens _ is_binary = none

  -- `parse_size`; `none` is the ValueError.
  unfoldable pub parse_size : String → Bool → Option ℕ
  unfolding find_base
  parse_size ds_txt is_binary = parse_tokens (f.tokenize_size ds_txt) is_binary

pub record DiskSize : Type 0 where
  pub bytes : ℤ
  pub is_binary : Bool

-- `vocab_size * hidden_size + ...` of `estimate_hf_model_params_size` and of
-- `chatglm_estimate_hf_model_params_size`.
unfoldable pub estimate : ℕ → ℕ → ℕ → ℕ
estimate num_layers hidden_size vocab_size =
    vocab_size * hidden_size
    + num_layers * (4 * hidden_size ^ 2 + 4 * hidden_size)
    + num_layers * (8 * hidden_size ^ 2 + 5 * hidden_size)
    + 4 * num_layers * hidden_size

-- The configuration of a model, as transformers reads it.
pub record ModelConfig : Type 0 where
  pub model_type : String
  pub num_hidden_layers : Option ℕ
  pub num_layers : Option ℕ
  pub hidden_size : ℕ
  pub vocab_size : ℕ

pub record ParamsSize : Type 0 where
  pub params_size : ℕ
  pub model_type : String

-- What `DiskSize` is constructed from.
pub data Source : Type 0 where
  number : ℤ → Source
  size_text : String → Source
  size : DiskSize → Source
  something_else : Source

-- `DiskSize(ds, is_binary)`; `none` is a ValueError.
unfoldable pub init : Floats → Source → Bool → Option DiskSize
init f (number n) is_binary = some (record { bytes = n; is_binary = is_binary })
init f (size_text s) is_binary = elim (parse_size f s is_binary) [
  | none ↦ none
  | some n ↦ some (record { bytes = pos n; is_binary = is_binary })
]
init f (size d) is_binary = some d
init f something_else is_binary = none

abbrev scale : ℤ → ℕ → ℤ
scale n k = sub_ℕ (pos_part n * k) (neg_part n * k)

-- `self * other` for an int `other`; the error of a negative one is `none`.
unfoldable pub mul : DiskSize → ℤ → Option DiskSize
mul d (pos k) = some (record { bytes = scale d.bytes k; is_binary = d.is_binary })
mul d (negsuc k) = none

unfoldable pub add : DiskSize → DiskSize → DiskSize
add d e = record {
  bytes = sub_ℕ (pos_part d.bytes + pos_part e.bytes) (neg_part d.bytes + neg_part e.bytes);
  is_binary = d.is_binary;
}

unfoldable pub sub : DiskSize → DiskSize → DiskSize
sub d e = record {
  bytes = sub_ℕ (pos_part d.bytes + neg_part e.bytes) (neg_part d.bytes + pos_part e.bytes);
  is_binary = d.is_binary;
}

unfoldable pub gt : DiskSize → DiskSize → Bool
gt d e = ltb (pos_part e.bytes + neg_part d.bytes) (pos_part d.bytes + neg_part e.bytes)

unfoldable pub lt : DiskSize → DiskSize → Bool
lt d e = ltb (pos_part d.bytes + neg_part e.bytes) (pos_part e.bytes + neg_part d.bytes)

unfoldable pub ge : DiskSize → DiskSize → Bool
ge d e = leb (pos_part e.bytes + neg_part d.bytes) (pos_part d.bytes + neg_part e.bytes)

unfoldable pub le : DiskSize → DiskSize → Bool
le d e = leb (pos_part d.bytes + neg_part e.bytes) (pos_part e.bytes + neg_part d.bytes)

abbrev estimated : ModelConfig → Option ℕ → Option ParamsSize
estimated c none = none
estimated c (some layers) =
    some (record {
      params_size = estimate layers c.hidden_size c.vocab_size;
      model_type = c.model_type;
    })

unfoldable pub chatglm_estimate_hf_model_params_size : ModelConfig → Option ParamsSize
unfolding estimate
chatglm_estimate_hf_model_params_size c = estimated c c.num_layers

-- `config` is what `AutoConfig.from_pretrained` answers.
unfoldable pub estimate_hf_model_params_size : Option ModelConfig → Option ParamsSize
unfolding chatglm_estimate_hf_model_params_size
estimate_hf_model_params_size none = none
estimate_hf_model_params_size (some c) =
    if str_eq c.model_type "chatglm"
    then chatglm_estimate_hf_model_params_size c
    else estimated c c.num_hidden_layers

-- `specific` is the count of the weights of the model, `none` an exception of it.
unfoldable pub hf_model_params_size : Option ParamsSize → Option ModelConfig → Option ParamsSize
unfolding estimate_hf_model_params_size
hf_model_params_size none config = estimate_hf_model_params_size config
hf_model_params_size (some s) config = some s
