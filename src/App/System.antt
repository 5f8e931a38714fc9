-- ===== src/App/System.antt =====
-- The requests of enova/app/service.py as the steps of one system, and what they are to a client: one
-- place where at most one test runs, and a count of the launches. App/System/Overlap lets creations of
-- tests overlap at their awaits.
pub mod Preserve
pub mod Settle
pub mod Requests
pub mod Hosts
pub mod Launch
pub mod Refine
pub mod Overlap
mod Examples
use enova.Prelude.{ℕ, zero, suc, String, List, [], ◌∷◌, Option, none, some, ◌≡◌, map, first}
use enova.App.Store.{World, Test, Call, start_injector}
use enova.App.Injection.{Machine}
use enova.App.Instances.{
  Answers, CreateParams, Replies, create_instance, list_instance, delete_instance,
  delete_instance_by_name, get_instance,
}
use enova.App.Traffic.{
  TestParams, Handed, row, is_unfinished, create_test, list_test, get_test, delete_test,
}
use enova.App.Traffic.Get.{Docker}

-- How often the injector was started.
unfoldable pub starts : List Call → ℕ
starts [] = 0
starts (start_injector ∷ calls) = suc (starts calls)
starts (_ ∷ calls) = starts calls

-- The id of the test that runs.
unfoldable pub running : List Test → Option String
running rows = elim (first is_unfinished rows) [ none ↦ none | some t ↦ some t.test_id ]

-- One request other than `create_test`, served from its start to its end. The answers of the
-- escaler, the enode and the injector are any; those of docker and sqlalchemy are limited where it is
-- said.
pub data Serves (w w' : World) : Type 1 where
  creates_instance :
      (a : Answers) (params : CreateParams) → (create_instance a params w).1 ≡ w' → Serves w w'
  lists_instances : (r : Replies) → (list_instance r w).1 ≡ w' → Serves w w'
  gets_instance : (r : Replies) (id : String) → (get_instance r id w).1 ≡ w' → Serves w w'
  deletes_instance : (r : Replies) (id : String) → (delete_instance r id w).1 ≡ w' → Serves w w'
  deletes_instances :
      (r : Replies) (name : String) → (delete_instance_by_name r name w).1 ≡ w' → Serves w w'
  lists_tests :
      (m : Machine) (page : List Test → List Test) → (list_test m page w).1 ≡ w' → Serves w w'
  -- Docker knows no container's state "success".
  gets_test : (m : Machine) (id : String) → Docker m → (get_test m id w).1 ≡ w' → Serves w w'
  -- sqlalchemy deletes no row of a result.
  deletes_test :
      (m : Machine) (delete : Handed → Option (List Test → List Test)) (id : String)
      → ((t : Test) → delete (row t) ≡ none)
      → (delete_test m delete id w).1 ≡ w'
      → Serves w w'

-- Any request, served before the next one starts.
pub data Step (w w' : World) : Type 1 where
  serves : Serves w w' → Step w w'
  creates_test :
      (m : Machine) (r : Replies) (test_id : String) (now : ℕ) (params : TestParams)
      → (create_test m r test_id now params w).1 ≡ w'
      → Step w w'

pub data Reach (start : World) : World → Type 1 where
  initially : (w : World) → start ≡ w → Reach start w
  after : (w1 w : World) → Reach start w1 → Step w1 w → Reach start w

-- What a client knows: the test that runs, and how many launches were tried.
pub record Place : Type 0 where
  pub test : Option String
  pub launches : ℕ

abbrev pub view : World → Place
view w = record { test = running w.db.tests; launches = starts w.calls }

pub data Moves (p q : Place) : Type 0 where
  stays : q ≡ p → Moves p q
  -- Another test is launched only when none runs.
  begins :
      (id : String)
      → p.test ≡ none
      → q ≡ record { test = some id; launches = suc p.launches }
      → Moves p q
  fails : p.test ≡ none → q ≡ record p { launches = suc p.launches } → Moves p q
  finishes : (id : String) → p.test ≡ some id → q ≡ record p { test = none } → Moves p q
