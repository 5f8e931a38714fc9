-- ===== src/Api/Template/Fill.antt =====
-- The URL of a resource (enova/api/base.py).
use Prim.Native.Char.{Char, code}
use Prim.Native.String.{◌++◌ as str_append}
use text.Mathlib.TextLemmas.{append_assoc, append-nil, nil-append, cons-append}
use enova.Prelude.{
  ◌≡◌, refl, ◌∙◌, sym, ap, arith, String, Bool, true, false, ◌||◌, some, if◌then◌else◌, ◌==◌,
}
use enova.Value.{Fields}
use enova.Api.Template.{
  get, is_name, Value, print_field, Printer, plain, in_field, format_from, one, join,
}

abbrev is_brace : Char → Bool
is_brace c = code c == 123 || code c == 125

-- A text without braces.
abbrev pub is_braceless : String → Bool
is_braceless String.[] = true
is_braceless (String.◌∷◌ c s) = if is_brace c then false else is_braceless s

one-append : (c : Char) (s : String) → str_append (one c) s ≡ String.◌∷◌ c s
one-append c s = cons-append c String.[] s ∙ ap (λ t. String.◌∷◌ c t) (nil-append s)

split : (b c : Bool) → (if b then false else c) ≡ true → (b ≡ false) × (c ≡ true)
split true c h = cc
split false c h = (refl, h)

head_clean : (c : Char) (s : String) → is_braceless (String.◌∷◌ c s) ≡ true → is_brace c ≡ false
head_clean c s h = (split (is_brace c) (is_braceless s) h).0

tail_clean : (c : Char) (s : String) → is_braceless (String.◌∷◌ c s) ≡ true → is_braceless s ≡ true
tail_clean c s h = (split (is_brace c) (is_braceless s) h).1

join_clean : (b c : Bool) → b ≡ false → c ≡ true → (if b then false else c) ≡ true
join_clean true c h k = cc
join_clean false c h k = k

pub is_braceless-append :
    (s t : String)
    → is_braceless s ≡ true
    → is_braceless t ≡ true
    → is_braceless (str_append s t) ≡ true
is_braceless-append String.[] t h k = ap is_braceless (nil-append t) ∙ k
is_braceless-append (String.◌∷◌ c s) t h k =
    ap is_braceless (cons-append c s t)
    ∙ join_clean (is_brace c) (is_braceless (str_append s t)) (head_clean c s h)
        (is_braceless-append s t (tail_clean c s h) k)

module _ (p : Printer) (params : Fields) where
  plain_step :
      (c : Char) (s : String) {t : String}
      → is_brace c ≡ false
      → format_from p params (some plain) s ≡ some t
      → format_from p params (some plain) (String.◌∷◌ c s) ≡ some (String.◌∷◌ c t)
  unfolding format_from
  plain_step c s {t} clean h = let joined = one-append c t in ground arith

  pub format-append :
      (url rest : String) {t : String}
      → is_braceless url ≡ true
      → format_from p params (some plain) rest ≡ some t
      → format_from p params (some plain) (str_append url rest) ≡ some (str_append url t)
  format-append String.[] rest {t} clean h =
      ap (format_from p params (some plain)) (nil-append rest) ∙ h ∙ ap some (sym (nil-append t))
  format-append (String.◌∷◌ c url) rest {t} clean h =
      ap (format_from p params (some plain)) (cons-append c url rest)
      ∙ plain_step c (str_append url rest) (head_clean c url clean)
          (format-append url rest (tail_clean c url clean) h)
      ∙ ap some (sym (cons-append c url t))

  field_step :
      (name : String) (c : Char) (s : String)
      → is_brace c ≡ false
      → format_from p params (some (in_field name)) (String.◌∷◌ c s)
        ≡ join (some "") (format_from p params (some (in_field (str_append name (one c)))) s)
  unfolding format_from
  field_step name c s clean = ground arith

  field_end :
      (name : String) {t : String}
      → print_field p params name ≡ some t
      → format_from p params (some (in_field name)) "}" ≡ some t
  unfolding format_from
  field_end name {t} h = let whole = append-nil t in rw h (ap some whole)

  field-append :
      (name key : String) {t : String}
      → is_braceless key ≡ true
      → print_field p params (str_append name key) ≡ some t
      → format_from p params (some (in_field name)) (str_append key "}") ≡ some t
  field-append name String.[] {t} clean h =
      ap (format_from p params (some (in_field name))) (nil-append "}")
      ∙ field_end name (ap (print_field p params) (sym (append-nil name)) ∙ h)
  field-append name (String.◌∷◌ c key) {t} clean h =
      let longer : str_append (str_append name (one c)) key ≡ str_append name (String.◌∷◌ c key) =
        append_assoc name (one c) key ∙ ap (str_append name) (one-append c key) in
      ap (format_from p params (some (in_field name))) (cons-append c key "}")
      ∙ field_step name c (str_append key "}") (head_clean c key clean)
      ∙ ap (join (some "")) (
          field-append (str_append name (one c)) key (tail_clean c key clean)
            (ap (print_field p params) longer ∙ h))
      ∙ ap some (nil-append t)

  print_name :
      (key : String) {v : Value}
      → is_name key ≡ true
      → get key params ≡ some v
      → print_field p params key ≡ some (p.str v)
  unfolding print_field
  print_name key name there = ground arith

  opened_step :
      (c : Char) (s : String)
      → is_brace c ≡ false
      → format_from p params (some plain) (str_append "{" (String.◌∷◌ c s))
        ≡ join (some "") (join (some "") (format_from p params (some (in_field (one c))) s))
  unfolding format_from
  opened_step c s clean =
      ap (format_from p params (some plain)) (one-append _ (String.◌∷◌ c s)) ∙ ground arith

  -- The field of a name.
  pub format_field :
      (key : String) {v : Value}
      → is_name key ≡ true
      → is_braceless key ≡ true
      → get key params ≡ some v
      → format_from p params (some plain) (str_append "{" (str_append key "}")) ≡ some (p.str v)
  format_field String.[] name clean there = cc
  format_field (String.◌∷◌ c key) {v} name clean there =
      ap (λ s. format_from p params (some plain) (str_append "{" s)) (cons-append c key "}")
      ∙ opened_step c (str_append key "}") (head_clean c key clean)
      ∙ ap (λ o. join (some "") (join (some "") o))
          (field-append (one c) key (tail_clean c key clean) (
            ap (print_field p params) (one-append c key)
            ∙ print_name (String.◌∷◌ c key) name there))
      ∙ ap (join (some "")) (ap some (nil-append (p.str v)))
      ∙ ap some (nil-append (p.str v))
