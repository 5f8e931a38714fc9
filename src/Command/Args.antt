-- ===== src/Command/Args.antt =====
-- `parse_extra_args` and `ArgumentHelper` of enova/common/cli_helper.py, and `get_user_args` of
-- enova/common/config.py.
pub mod Loop
pub mod Print
use Prim.Native.Char.{Char, code}
use Prim.Native.String.{◌++◌ as str_append}
use enova.Prelude.{
  ℕ, zero, suc, ◌+◌, String, Bool, true, false, ◌&&◌, List, [], ◌∷◌, ◌++◌, Option, none, some,
  if◌then◌else◌, ◌==◌, get_elem?, length, ltb, str_eq,
}
use enova.Prelude.Int.{pos}
use enova.Value.{Value, null, text, int, dict, Fields, end, field, get, set, update, get_value}

-- `args[i].startswith("--")`, with `args[i][2:]`.
abbrev pub flag : String → Option String
flag (String.◌∷◌ a (String.◌∷◌ b s)) = if code a == 45 && code b == 45 then some s else none
flag _ = none

abbrev pub cons_key : Char → Option (String × String) → Option (String × String)
cons_key c none = none
cons_key c (some (key, value)) = some (String.◌∷◌ c key, value)

-- `s.split("=", 1)`; `none` where there is no "=".
unfoldable pub split_eq : String → Option (String × String)
split_eq String.[] = none
split_eq (String.◌∷◌ c s) =
    let rest = split_eq s in if code c == 61 then some ("", s) else cons_key c rest

-- `ast.literal_eval`, or `none` for its exception.
abbrev pub Eval : Type 0
Eval = String → Option Value

abbrev pub args_type_eval : Eval → String → Value
args_type_eval eval s = elim (eval s) [ none ↦ text s | some v ↦ v ]

-- The value that follows a key; what starts with "--" is none.
abbrev pub unless_flag : String → Option String → Option String
unless_flag s none = some s
unless_flag s (some body) = none

abbrev pub value_of : Option String → Option String
value_of none = none
value_of (some s) = unless_flag s (flag s)

abbrev pub with_next : Eval → String → ℕ → Fields → Option String → ℕ × Fields
with_next eval key i extra none = (suc i, extra)
with_next eval key i extra (some value) = (suc (suc i), set key (args_type_eval eval value) extra)

-- A flag, by its parts at the first "=".
abbrev pub with_flag :
    Eval → List String → ℕ → Fields → String → Option (String × String) → ℕ × Fields
with_flag eval args i extra body (some (key, value)) =
    (suc i, set key (args_type_eval eval value) extra)
with_flag eval args i extra body none =
    with_next eval body i extra (value_of (get_elem? args (suc i)))

-- One turn of the loop at the argument of index `i`. The keys keep their dashes: what `key.replace`
-- returns is dropped.
abbrev pub turn : Eval → List String → ℕ → Fields → Option String → ℕ × Fields
turn eval args i extra none = (suc i, extra)
turn eval args i extra (some body) = with_flag eval args i extra body (split_eq body)

-- `while i < len(args)`, on fuel; `none` is that there is not enough of it.
unfoldable pub loop : Eval → List String → ℕ → ℕ → Fields → Option Fields
unfolding split_eq
loop eval args zero i extra = none
loop eval args (suc fuel) i extra = elim (get_elem? args i) [
  | none ↦ some extra
  | some arg ↦ let (i', extra') = turn eval args i extra (flag arg) in loop eval args fuel i' extra'
]

abbrev pub parse_extra_args : Eval → List String → Option Fields
parse_extra_args eval args = loop eval args (suc (length args)) 0 end

-- The locals of a call, by the names of its parameters.
unfoldable pub locals_of : List String → Fields → Fields
locals_of [] f_locals = end
locals_of (arg ∷ rest) f_locals = field arg (get_value arg f_locals) (locals_of rest f_locals)

abbrev without_self : List String → List String
without_self [] = []
without_self (arg ∷ rest) = if str_eq arg "self" then rest else arg ∷ rest

abbrev kwargs_of : Option Value → Fields
kwargs_of (some (dict d)) = d
kwargs_of _ = end

-- `ArgumentHelper.args_map`, of the number of helpers that were made before, `camel_to_snake`, the name
-- of the class and of the function, the parameters and the locals.
unfoldable pub args_map : ℕ → (String → String) → String → String → List String → Fields → Fields
unfolding locals_of
args_map made snake class func args f_locals =
    let own = update (locals_of (without_self args) f_locals) (kwargs_of (get "kwargs" f_locals)) in
    field (snake (str_append class (str_append "_" (str_append func "_args"))))
      (dict (set "call_order" (int (pos (made + 1))) own)) end

abbrev order_of : Fields → Option ℕ
order_of d = elim (get "call_order" d) [ some (int (pos n)) ↦ some n | _ ↦ none ]

-- Whether an order comes before another; an item without one has an infinite order.
abbrev before : Option ℕ → Option ℕ → Bool
before none o = false
before (some n) none = true
before (some n) (some k) = ltb n k

unfoldable pub earliest : Fields → List Fields → Fields
earliest d [] = d
earliest d (e ∷ rest) = earliest (if before (order_of e) (order_of d) then e else d) rest

-- `get_user_args`; the list is `CONFIG.command_args`.
unfoldable pub get_user_args : List Fields → Fields
unfolding earliest
get_user_args [] = end
get_user_args (d ∷ rest) = earliest d rest
