-- ===== src/Api/Template.antt =====
-- `default_url_builder` of enova/api/base.py: a URL with `{key}` in it.
pub mod Fill
use Prim.Native.Char.{Char, code}
use Prim.Native.String.{◌++◌ as str_append}
use enova.Prelude.{
  ℕ, String, Bool, true, false, ◌||◌, ◌&&◌, leb, List, [], ◌∷◌, Option, none, some, if◌then◌else◌,
  str_eq, ◌==◌,
}
use enova.Value.{Value, dict, Fields, end, field, get}

-- Python's texts of values in an f-string, and what a field that is no name prints (a position, a
-- path, a conversion or a format).
pub record Printer : Type 0 where
  pub str : Value → String
  pub special : String → Fields → Option String

abbrev one : Char → String
one c = String.◌∷◌ c String.[]

-- `re.findall(r"\{([^}]*)\}", url)`: the text since the brace that is open.
abbrev next_key : Option String → Char → Option String
next_key none c = if code c == 123 then some "" else none
next_key (some key) c = if code c == 125 then none else some (str_append key (one c))

abbrev add_key : Option String → Char → List String → List String
add_key none c rest = rest
add_key (some key) c rest = if code c == 125 then key ∷ rest else rest

unfoldable pub find_keys : Option String → String → List String
find_keys key String.[] = []
find_keys key (String.◌∷◌ c s) = add_key key c (find_keys (next_key key c) s)

abbrev pub extract_parameters : String → List String
extract_parameters url = find_keys none url

-- Where `str.format` stands: in the text, after an opening brace, in a field, after a closing brace.
pub data Mode : Type 0 where
  plain opened closed : Mode
  in_field : String → Mode

abbrev is_special_code : ℕ → Bool
is_special_code c = c == 33 || c == 46 || c == 58 || c == 91 || c == 123

abbrev has_special : String → Bool
has_special String.[] = false
has_special (String.◌∷◌ c s) = is_special_code (code c) || has_special s

-- A field that starts with a digit is a position.
abbrev is_digit : ℕ → Bool
is_digit c = leb 48 c && leb c 57

abbrev pub is_name : String → Bool
is_name String.[] = false
is_name (String.◌∷◌ c s) =
    if is_digit (code c) || is_special_code (code c) || has_special s then false else true

-- What `{name}` prints; `none` is a KeyError.
unfoldable pub print_field : Printer → Fields → String → Option String
print_field p params name =
    if is_name name
    then elim (get name params) [ none ↦ none | some v ↦ some (p.str v) ]
    else p.special name params

abbrev next_mode : Mode → Char → Option Mode
next_mode plain c = some (if code c == 123 then opened else if code c == 125 then closed else plain)
next_mode opened c =
    some (if code c == 123 then plain else if code c == 125 then plain else in_field (one c))
next_mode closed c = if code c == 125 then some plain else none
next_mode (in_field name) c =
    some (if code c == 125 then plain else in_field (str_append name (one c)))

-- What is printed where the mode meets a character.
abbrev printed : Printer → Fields → Mode → Char → Option String
printed p params plain c = if code c == 123 || code c == 125 then some "" else some (one c)
printed p params opened c =
    if code c == 123
    then some (one c)
    else if code c == 125
    then print_field p params ""
    else some ""
printed p params closed c = some (one c)
printed p params (in_field name) c = if code c == 125 then print_field p params name else some ""

abbrev join : Option String → Option String → Option String
join none rest = none
join (some s) none = none
join (some s) (some t) = some (str_append s t)

abbrev at_end : Mode → Option String
at_end plain = some ""
at_end _ = none

unfoldable pub format_from : Printer → Fields → Option Mode → String → Option String
unfolding print_field
format_from p params none s = none
format_from p params (some mode) String.[] = at_end mode
format_from p params (some mode) (String.◌∷◌ c s) =
    join (printed p params mode c) (format_from p params (next_mode mode c) s)

-- `url.format(**params)`.
abbrev pub format : Printer → String → Fields → Option String
format p url params = format_from p params (some plain) url

-- `params.pop(key, None)`.
unfoldable pub pop : String → Fields → Fields
pop key end = end
pop key (field k v rest) = if str_eq k key then rest else field k v (pop key rest)

unfoldable pub pop_all : List String → Fields → Fields
unfolding pop
pop_all [] params = params
pop_all (key ∷ rest) params = pop_all rest (pop key params)

abbrev built : Bool → String → Fields → Option String → Option (String × Value)
built remove url params none = none
built remove url params (some actual) =
    some (actual, dict (if remove then pop_all (extract_parameters url) params else params))

-- The URL, and the dict as the builder leaves it.
unfoldable pub default_url_builder : Printer → Bool → String → Value → Option (String × Value)
unfolding find_keys format_from pop_all
default_url_builder p remove url (dict params) = built remove url params (format p url params)
default_url_builder p remove url params = some (url, params)
