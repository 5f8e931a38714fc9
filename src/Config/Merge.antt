-- ===== src/Config/Merge.antt =====
-- What `_update_if_exist` (enova/common/config.py) makes of two dicts.
use enova.Prelude.{
  ◌≡◌, refl, sym, ◌∙◌, ap, subst, eq_iff, str_eq, Bool-cases, inl, inr, String, true, false, Option,
  none, some,
}
use enova.Value.{Value, null, bool, int, float, text, list, dict, Fields, end, field, get, set}
use enova.Value.Laws.{get-set, get-set_self}
use enova.App.Escaler.{◌>>=◌ as and_then}
use enova.Config.{update_if_exist, overlay}

-- No key stands twice.
abbrev pub Distinct : Fields → Type 0
Distinct end = Unit {0}
Distinct (field k v rest) = (get k rest ≡ none) × Distinct rest

-- The entry of a key in the source, in the target, and in what is made of them.
abbrev pub Overlay : Option Value → Option Value → Option Value → Type 0
Overlay none old new = new ≡ old
Overlay (some (dict v)) (some (dict old)) new =
    (merged : Fields) × (update_if_exist v old ≡ some merged) × (new ≡ some (dict merged))
Overlay (some (dict v)) old new = new ≡ some (dict v)
Overlay (some v) (some (dict old)) new = ⊥
Overlay (some v) old new = new ≡ some v

pub bind-eq-some :
    {A B : Type 0}
    → (o : Option A) (f : A → Option B) {b : B} → and_then o f ≡ some b
    → (a : A) × (o ≡ some a) × (f a ≡ some b)
bind-eq-some none f h = cc
bind-eq-some (some a) f h = (a, refl, h)

overlay-Overlay :
    (v : Value) (old : Option Value) {x : Value}
    → overlay v old ≡ some x
    → Overlay (some v) old (some x)
unfolding overlay
overlay-Overlay (dict v) (some (dict old)) h =
    let (d, merged, is) = bind-eq-some (update_if_exist v old) (λ d. some (dict d)) h in
    (d, merged, sym is)
overlay-Overlay (dict v) none h = sym h
overlay-Overlay (dict v) (some null) h = sym h
overlay-Overlay (dict v) (some (bool c)) h = sym h
overlay-Overlay (dict v) (some (int m)) h = sym h
overlay-Overlay (dict v) (some (float t)) h = sym h
overlay-Overlay (dict v) (some (text t)) h = sym h
overlay-Overlay (dict v) (some (list ys)) h = sym h
overlay-Overlay null none h = sym h
overlay-Overlay null (some null) h = sym h
overlay-Overlay null (some (bool c)) h = sym h
overlay-Overlay null (some (int m)) h = sym h
overlay-Overlay null (some (float t)) h = sym h
overlay-Overlay null (some (text t)) h = sym h
overlay-Overlay null (some (list ys)) h = sym h
overlay-Overlay null (some (dict old)) h = cc
overlay-Overlay (bool b) none h = sym h
overlay-Overlay (bool b) (some null) h = sym h
overlay-Overlay (bool b) (some (bool c)) h = sym h
overlay-Overlay (bool b) (some (int m)) h = sym h
overlay-Overlay (bool b) (some (float t)) h = sym h
overlay-Overlay (bool b) (some (text t)) h = sym h
overlay-Overlay (bool b) (some (list ys)) h = sym h
overlay-Overlay (bool b) (some (dict old)) h = cc
overlay-Overlay (int n) none h = sym h
overlay-Overlay (int n) (some null) h = sym h
overlay-Overlay (int n) (some (bool c)) h = sym h
overlay-Overlay (int n) (some (int m)) h = sym h
overlay-Overlay (int n) (some (float t)) h = sym h
overlay-Overlay (int n) (some (text t)) h = sym h
overlay-Overlay (int n) (some (list ys)) h = sym h
overlay-Overlay (int n) (some (dict old)) h = cc
overlay-Overlay (float s) none h = sym h
overlay-Overlay (float s) (some null) h = sym h
overlay-Overlay (float s) (some (bool c)) h = sym h
overlay-Overlay (float s) (some (int m)) h = sym h
overlay-Overlay (float s) (some (float t)) h = sym h
overlay-Overlay (float s) (some (text t)) h = sym h
overlay-Overlay (float s) (some (list ys)) h = sym h
overlay-Overlay (float s) (some (dict old)) h = cc
overlay-Overlay (text s) none h = sym h
overlay-Overlay (text s) (some null) h = sym h
overlay-Overlay (text s) (some (bool c)) h = sym h
overlay-Overlay (text s) (some (int m)) h = sym h
overlay-Overlay (text s) (some (float t)) h = sym h
overlay-Overlay (text s) (some (text t)) h = sym h
overlay-Overlay (text s) (some (list ys)) h = sym h
overlay-Overlay (text s) (some (dict old)) h = cc
overlay-Overlay (list xs) none h = sym h
overlay-Overlay (list xs) (some null) h = sym h
overlay-Overlay (list xs) (some (bool c)) h = sym h
overlay-Overlay (list xs) (some (int m)) h = sym h
overlay-Overlay (list xs) (some (float t)) h = sym h
overlay-Overlay (list xs) (some (text t)) h = sym h
overlay-Overlay (list xs) (some (list ys)) h = sym h
overlay-Overlay (list xs) (some (dict old)) h = cc

overlaid : (o old : Option Value) {x y : Option Value} → x ≡ y → Overlay o old y → Overlay o old x
overlaid o old same h = subst (λ z. Overlay o old z) (sym same) h

get-field_eq :
    (k j : String) (v : Value) (rest : Fields) → str_eq k j ≡ true → get j (field k v rest) ≡ some v
get-field_eq k j v rest h = rw h

get-field_ne :
    (k j : String) (v : Value) (rest : Fields)
    → str_eq k j ≡ false
    → get j (field k v rest) ≡ get j rest
get-field_ne k j v rest h = rw h

get-set_ne :
    (k j : String) (v : Value) (d : Fields) → str_eq k j ≡ false → get j (set k v d) ≡ get j d
get-set_ne k j v d h = get-set k j v d ∙ (rw h)

at_key :
    (k : String) (v : Value) (rest dst d : Fields) (x : Value)
    → get k rest ≡ none
    → overlay v (get k dst) ≡ some x
    → Overlay (get k rest) (get k (set k x dst)) (get k d)
    → Overlay (some v) (get k dst) (get k d)
at_key k v rest dst d x new stored later =
    let kept : get k d ≡ get k (set k x dst) =
      subst (λ o. Overlay o (get k (set k x dst)) (get k d)) new later in
    overlaid (some v) (get k dst) (kept ∙ get-set_self k x dst)
      (overlay-Overlay v (get k dst) stored)

-- A merge that succeeds leaves each key as it should: a key that the source lacks keeps its entry; a
-- dict onto a dict is merged in the same way; what is no dict is never stored onto a dict; and any
-- other entry of the source replaces what was there. The keys of a dict are distinct.
pub update_if_exist-Overlay :
    (src dst : Fields) (j : String) {d : Fields}
    → Distinct src
    → update_if_exist src dst ≡ some d
    → Overlay (get j src) (get j dst) (get j d)
unfolding update_if_exist
update_if_exist-Overlay end dst j {d} distinct h = let same : dst ≡ d = cc in ap (get j) (sym same)
update_if_exist-Overlay (field k v rest) dst j {d} (new, distinct) h =
    let (x, stored, more) =
      bind-eq-some (overlay v (get k dst)) (λ x. update_if_exist rest (set k x dst)) h in
    let later = update_if_exist-Overlay rest (set k x dst) j distinct more in
    elim (Bool-cases (str_eq k j)) [
      | inl same ↦
          let is = (eq_iff k j).0 same in
          subst (λ o. Overlay o (get j dst) (get j d)) (sym (get-field_eq k j v rest same))
            (subst (λ i. Overlay (some v) (get i dst) (get i d)) is
              (at_key k v rest dst d x new stored
                (subst (λ i. Overlay (get i rest) (get i (set k x dst)) (get i d)) (sym is) later)))
      | inr other ↦
          subst (λ o. Overlay o (get j dst) (get j d)) (sym (get-field_ne k j v rest other))
            (subst (λ o. Overlay (get j rest) o (get j d)) (get-set_ne k j x dst other) later)
    ]
