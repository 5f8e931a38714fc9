-- ===== src/App/System/Settle.antt =====
-- No request but `create_test` starts a test: it leaves the unfinished tests as they are, or ends some
-- (enova/app/service.py).
use enova.Prelude.{
  Bool-cases, ◌∙◌, ◌≤◌, ◌<◌, ◌≡◌, refl, arith, String, false, List, [], ◌∷◌, Option, none, some,
  ◌⊎◌, inl, inr,
}
use enova.App.Store.{
  set_instances, fail, create_deploy, delete_deploy, pure, Failure, Instance, call, gets, World,
  Test,
}
use enova.App.Traffic.{merged, is_unfinished, unfinished, merge_test}
use enova.App.System.{starts, running}
use enova.App.Injection.{Machine, stop}
use enova.App.System.Preserve.{Preserves, Preorder}

-- The same test runs, or fewer do.
abbrev pub Fewer : List Test → List Test → Type 0
Fewer before rows =
    (unfinished rows ≤ unfinished before)
    × ((running rows ≡ running before) ⊎ (unfinished rows < unfinished before))

abbrev pub Settles : World → World → Type 0
Settles w w' = Fewer w.db.tests w'.db.tests × (starts w'.calls ≡ starts w.calls)

pub Fewer-same : (rows : List Test) → Fewer rows rows
Fewer-same rows = (omega arith, inl refl)

pub Fewer-through : (a b c : List Test) → Fewer a b → Fewer b c → Fewer a c
Fewer-through a b c (le, inl e) (le', inl e') = (omega arith, inl cc)
Fewer-through a b c (le, inl e) (le', inr lt) = (omega arith, inr (omega arith))
Fewer-through a b c (le, inr lt) (le', _) = (omega arith, inr (omega arith))

abbrev pub settling : Preorder
settling = record {
  Rel = Settles;
  here = λ w. (Fewer-same w.db.tests, refl);
  through =
      λ w w1 w2 (f, c) (f', c'). (Fewer-through w.db.tests w1.db.tests w2.db.tests f f', c' ∙ c);
  restored = λ w w1 (f, c). (Fewer-same w.db.tests, c);
}

-- A finished test that replaces the row of its id.
pub Fewer-merge_test :
    (t : Test) (rows : List Test) → is_unfinished t ≡ false → Fewer rows (merge_test t rows)
unfolding unfinished running
Fewer-merge_test t [] ended = (omega arith, inl refl)
Fewer-merge_test t (u ∷ rest) ended = let ih = Fewer-merge_test t rest ended in ground (arith, ih)

pub gets-Settles : {A : Type 0} (f : World → A) → Preserves settling (gets f)
gets-Settles f w = (Fewer-same w.db.tests, refl)

pub stop-Settles : (m : Machine) → Preserves settling (stop m)
unfolding stop starts
stop-Settles m w = elim (Bool-cases m.compose_down) [
  | inl up ↦ rw up (Fewer-same w.db.tests, refl)
  | inr down ↦ rw down (Fewer-same w.db.tests, refl)
]

pub set_instances-Settles : (rows : List Instance) → Preserves settling (set_instances rows)
set_instances-Settles rows w = (Fewer-same w.db.tests, refl)

pub pure-Settles : {A : Type 0} (a : A) → Preserves settling (pure a)
pure-Settles a w = (Fewer-same w.db.tests, refl)

pub fail-Settles : (A : Type 0) (e : Failure) → Preserves settling {A = A} (fail e)
fail-Settles A e w = (Fewer-same w.db.tests, refl)

pub delete_deploy-Settles : (id : String) → Preserves settling (call (delete_deploy id))
unfolding starts
delete_deploy-Settles id w = (Fewer-same w.db.tests, refl)

pub create_deploy-Settles : (id : String) → Preserves settling (call (create_deploy id))
unfolding starts
create_deploy-Settles id w = (Fewer-same w.db.tests, refl)

pub merged-Settles :
    (o : Option Test)
    → ((t : Test) → o ≡ some t → is_unfinished t ≡ false)
    → Preserves settling (merged o)
merged-Settles none ended w = (Fewer-same w.db.tests, refl)
merged-Settles (some t) ended w = (Fewer-merge_test t w.db.tests (ended t refl), refl)
