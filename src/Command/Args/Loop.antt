-- ===== src/Command/Args/Loop.antt =====
-- The loop of `parse_extra_args` ends, and reads the arguments from left to right.
use enova.Prelude.{
  ◌≡◌, refl, ◌∙◌, sym, ap, arith, ℕ, zero, suc, ◌+◌, ◌≤◌, ◌<◌, String, List, [], ◌∷◌, Option, none,
  some, length, get_elem?, drop, Option-cases, inl, inr,
}
use enova.Value.{Fields, end, set}
use enova.Command.Args.{
  Eval, flag, split_eq, args_type_eval, unless_flag, value_of, with_flag, with_next, turn, loop,
  parse_extra_args,
}

-- The reference: the arguments one at a time, with the key that waits for its value.
abbrev pub Waiting : Type 0
Waiting = Option String × Fields

abbrev pub start_key : Eval → Fields → String → Option (String × String) → Waiting
start_key eval extra body (some (key, value)) = (none, set key (args_type_eval eval value) extra)
start_key eval extra body none = (some body, extra)

abbrev pub by_flag : Eval → Waiting → String → Option String → Waiting
by_flag eval (key, extra) arg (some body) = start_key eval extra body (split_eq body)
by_flag eval (none, extra) arg none = (none, extra)
by_flag eval (some key, extra) arg none = (none, set key (args_type_eval eval arg) extra)

abbrev pub next : Eval → Waiting → String → Waiting
next eval w arg = by_flag eval w arg (flag arg)

unfoldable pub read : Eval → Waiting → List String → Waiting
read eval w [] = w
read eval w (arg ∷ rest) = read eval (next eval w arg) rest

module _ {A : Type 0} where
  drop_at :
      (xs : List A) (i : ℕ) {x : A} → get_elem? xs i ≡ some x → drop i xs ≡ x ∷ drop (suc i) xs
  drop_at [] i h = cc
  drop_at (y ∷ ys) zero h = cc
  drop_at (y ∷ ys) (suc i) h = drop_at ys i h

  drop_out : (xs : List A) (i : ℕ) → get_elem? xs i ≡ none → drop i xs ≡ []
  drop_out [] zero h = refl
  drop_out [] (suc i) h = refl
  drop_out (y ∷ ys) zero h = cc
  drop_out (y ∷ ys) (suc i) h = drop_out ys i h

  at-lt : (xs : List A) (i : ℕ) {x : A} → get_elem? xs i ≡ some x → i < length xs
  at-lt [] i h = cc
  at-lt (y ∷ ys) zero h = omega arith
  at-lt (y ∷ ys) (suc i) h = omega (arith, at-lt ys i h)

-- A key that gets no value is as if it had not been there.
no_value :
    (eval : Eval) (key : String) (extra : Fields) (arg : String) (o : Option String)
    → unless_flag arg o ≡ none
    → by_flag eval (some key, extra) arg o ≡ by_flag eval (none, extra) arg o
no_value eval key extra arg none h = cc
no_value eval key extra arg (some body) h = refl

read-no_value :
    (eval : Eval) (key : String) (extra : Fields) (args : List String) (i : ℕ)
    → value_of (get_elem? args i) ≡ none
    → (read eval (some key, extra) (drop i args)).1 ≡ (read eval (none, extra) (drop i args)).1
unfolding read
read-no_value eval key extra args i h = elim (Option-cases (get_elem? args i)) [
  | inl out ↦
      ap (λ xs. (read eval (some key, extra) xs).1) (drop_out args i out)
      ∙ ap (λ xs. (read eval (none, extra) xs).1) (sym (drop_out args i out))
  | inr (arg, there) ↦
      ap (λ xs. (read eval (some key, extra) xs).1) (drop_at args i there)
      ∙ ap (λ w. (read eval w (drop (suc i) args)).1)
          (no_value eval key extra arg (flag arg) (ap value_of (sym there) ∙ h))
      ∙ ap (λ xs. (read eval (none, extra) xs).1) (sym (drop_at args i there))
]

plain :
    (arg : String) (o : Option String) {value : String}
    → unless_flag arg o ≡ some value
    → (o ≡ none) × (arg ≡ value)
plain arg none h = (refl, cc)
plain arg (some body) h = cc

read-value :
    (eval : Eval) (key : String) (extra : Fields) (args : List String) (i : ℕ) {value : String}
    → value_of (get_elem? args i) ≡ some value
    → read eval (some key, extra) (drop i args)
      ≡ read eval (none, set key (args_type_eval eval value) extra) (drop (suc i) args)
unfolding read
read-value eval key extra args i {value} h = elim (Option-cases (get_elem? args i)) [
  | inl out ↦ cc (sym (ap value_of out) ∙ h)
  | inr (arg, there) ↦
      let (no_flag, same) = plain arg (flag arg) (ap value_of (sym there) ∙ h) in
      ap (read eval (some key, extra)) (drop_at args i there)
      ∙ ap (λ o. read eval (by_flag eval (some key, extra) arg o) (drop (suc i) args)) no_flag
      ∙ ap (λ v. read eval (none, set key (args_type_eval eval v) extra) (drop (suc i) args)) same
]

found-lt :
    (args : List String) (i : ℕ) {value : String}
    → value_of (get_elem? args i) ≡ some value
    → i < length args
found-lt args i h = elim (Option-cases (get_elem? args i)) [
  | inl out ↦ cc (sym (ap value_of out) ∙ h)
  | inr (arg, there) ↦ at-lt args i there
]

module _ (eval : Eval) (args : List String) where
  abbrev Reads : ℕ → Type 0
  Reads fuel =
      (i : ℕ) (extra : Fields)
      → i ≤ length args
      → length args < fuel + i
      → loop eval args fuel i extra ≡ some (read eval (none, extra) (drop i args)).1

  from_next :
      (fuel i : ℕ) (extra : Fields) (key : String) (o : Option String)
      → value_of (get_elem? args (suc i)) ≡ o
      → i < length args
      → length args < suc fuel + i
      → Reads fuel
      → loop eval args fuel (with_next eval key i extra o).0 (with_next eval key i extra o).1
        ≡ some (read eval (some key, extra) (drop (suc i) args)).1
  from_next fuel i extra key none found more enough ih =
      ih (suc i) extra (omega arith) (omega arith)
      ∙ ap some (sym (read-no_value eval key extra args (suc i) found))
  from_next fuel i extra key (some value) found more enough ih =
      ih (suc (suc i)) (set key (args_type_eval eval value) extra)
        (omega (arith, found-lt args (suc i) found)) (omega arith)
      ∙ ap (λ w. some w.1) (sym (read-value eval key extra args (suc i) found))

  from_parts :
      (fuel i : ℕ) (extra : Fields) (body : String) (o : Option (String × String))
      → i < length args
      → length args < suc fuel + i
      → Reads fuel
      → loop eval args fuel
          (with_flag eval args i extra body o).0
          (with_flag eval args i extra body o).1
        ≡ some (read eval (start_key eval extra body o) (drop (suc i) args)).1
  from_parts fuel i extra body (some (key, value)) more enough ih =
      ih (suc i) (set key (args_type_eval eval value) extra) (omega arith) (omega arith)
  from_parts fuel i extra body none more enough ih =
      from_next fuel i extra body (value_of (get_elem? args (suc i))) refl more enough ih

  from_flag :
      (fuel i : ℕ) (extra : Fields) (arg : String) (o : Option String)
      → i < length args
      → length args < suc fuel + i
      → Reads fuel
      → loop eval args fuel (turn eval args i extra o).0 (turn eval args i extra o).1
        ≡ some (read eval (by_flag eval (none, extra) arg o) (drop (suc i) args)).1
  from_flag fuel i extra arg none more enough ih = ih (suc i) extra (omega arith) (omega arith)
  from_flag fuel i extra arg (some body) more enough ih =
      from_parts fuel i extra body (split_eq body) more enough ih

  loop-read : (fuel : ℕ) → Reads fuel
  unfolding loop read
  loop-read zero i extra within enough = let empty : ⊥ = omega arith in elim empty [ ]
  loop-read (suc fuel) i extra within enough = elim (Option-cases (get_elem? args i)) [
    | inl out ↦
        let rest = drop_out args i out in
        rw (out, loop) (ap (λ xs. some (read eval (none, extra) xs).1) (sym rest))
    | inr (arg, there) ↦
        let rest = drop_at args i there in
        rw (there, loop)
          (from_flag fuel i extra arg (flag arg) (at-lt args i there) enough (loop-read fuel)
            ∙ ap (λ xs. some (read eval (none, extra) xs).1) (sym rest))
  ]

-- The loop over the indices ends within as many turns as there are arguments, and one; and what it leaves
-- is what reading the arguments one by one, with at most one key waiting for its value, leaves.
pub parse_extra_args-read :
    (eval : Eval) (args : List String)
    → parse_extra_args eval args ≡ some (read eval (none, end) args).1
parse_extra_args-read eval args =
    loop-read eval args (suc (length args)) 0 end (omega arith) (omega arith)
