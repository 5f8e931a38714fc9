-- ===== src/Command/Args/Print.antt =====
-- A dict as `--key=value` arguments, and back (enova/common/cli_helper.py).
use Prim.Native.Char.{Char, code}
use Prim.Native.String.{◌++◌ as str_append}
use text.Mathlib.TextLemmas.{nil-append, cons-append}
use enova.Prelude.{
  ◌≡◌, refl, ◌∙◌, ap, String, Bool, true, false, List, [], ◌∷◌, none, some, if◌then◌else◌, ◌==◌,
}
use enova.Value.{Value, Fields, end, field, set, update}
use enova.Command.Args.{Eval, flag, split_eq, cons_key, args_type_eval, parse_extra_args}
use enova.Command.Args.Loop.{read, next, by_flag, start_key, parse_extra_args-read}

-- A key without "=".
abbrev pub is_key : String → Bool
is_key String.[] = true
is_key (String.◌∷◌ c s) = if code c == 61 then false else is_key s

abbrev pub print_arg : (Value → String) → String → Value → String
print_arg show key v = str_append "--" (str_append key (str_append "=" (show v)))

abbrev pub print_args : (Value → String) → Fields → List String
print_args show end = []
print_args show (field key v rest) = print_arg show key v ∷ print_args show rest

-- The keys have no "=", and `literal_eval` reads what was printed.
abbrev pub Printed : Eval → (Value → String) → Fields → Type 0
Printed eval show end = Unit {0}
Printed eval show (field key v rest) =
    (is_key key ≡ true) × (args_type_eval eval (show v) ≡ v) × Printed eval show rest

split_cons :
    (c : Char) (key rest value : String) (b : Bool)
    → (if b then false else is_key key) ≡ true
    → (is_key key ≡ true → split_eq rest ≡ some (key, value))
    → (if b then some ("", rest) else cons_key c (split_eq rest)) ≡ some (String.◌∷◌ c key, value)
split_cons c key rest value true h ih = cc
split_cons c key rest value false h ih = ap (cons_key c) (ih h)

split_eq-append :
    (key value : String)
    → is_key key ≡ true
    → split_eq (str_append key (str_append "=" value)) ≡ some (key, value)
unfolding split_eq
split_eq-append String.[] value h =
    ap split_eq (nil-append (str_append "=" value))
    ∙ ap split_eq (cons-append "=" "" value)
    ∙ ap (λ s. some ("", s)) (nil-append value)
split_eq-append (String.◌∷◌ c key) value h =
    ap split_eq (cons-append c key (str_append "=" value))
    ∙ split_cons c key (str_append key (str_append "=" value)) value (code c == 61) h
        (λ plain. split_eq-append key value plain)

flag-append : (s : String) → flag (str_append "--" s) ≡ some s
flag-append s = ap flag (
    cons-append "-" "-" s
    ∙ ap (λ t. String.◌∷◌ "-" t) (cons-append "-" "" s ∙ ap (λ t. String.◌∷◌ "-" t) (nil-append s)))

next_printed :
    (eval : Eval) (show : Value → String) (key : String) (v : Value) (extra : Fields)
    → is_key key ≡ true
    → args_type_eval eval (show v) ≡ v
    → next eval (none, extra) (print_arg show key v) ≡ (none, set key v extra)
next_printed eval show key v extra plain reads =
    ap (by_flag eval (none, extra) (print_arg show key v))
      (flag-append (str_append key (str_append "=" (show v))))
    ∙ ap (start_key eval extra (str_append key (str_append "=" (show v))))
        (split_eq-append key (show v) plain)
    ∙ ap (λ u. (none, set key u extra)) reads

read-print :
    (eval : Eval) (show : Value → String) (d extra : Fields)
    → Printed eval show d
    → (read eval (none, extra) (print_args show d)).1 ≡ update extra d
unfolding read
read-print eval show end extra printed = refl
read-print eval show (field key v rest) extra (plain, reads, printed) =
    ap (λ w. (read eval w (print_args show rest)).1)
      (next_printed eval show key v extra plain reads)
    ∙ read-print eval show rest (set key v extra) printed

-- The arguments `--key=value` of a dict are read as that dict, where its keys have no "=" and what stands
-- for a value is read as the value. (With a key twice, its last value is that of the first place.)
pub parse_extra_args-print :
    (eval : Eval) (show : Value → String) (d : Fields)
    → Printed eval show d
    → parse_extra_args eval (print_args show d) ≡ some (update end d)
parse_extra_args-print eval show d printed =
    parse_extra_args-read eval (print_args show d) ∙ ap some (read-print eval show d end printed)
