-- ===== src/App/Store.antt =====
-- The tables of enova/app/db_modles.py, the session of
-- enova/database/relation/transaction/session.py that changes them, and the calls that change
-- something outside. An exception ends a session without a commit; what was called outside stays called.
pub mod Bind
use enova.Prelude.{true, false, ℕ, Bool, String, List, ◌∷◌, Option, none, some}
use enova.Prelude.Int.{ℤ}
use enova.Value.{Value, Fields}
use enova.Error.{ErrorClass}

pub record Instance : Type 0 where
  pub instance_id : String
  pub instance_name : String
  pub instance_spec : Fields
  pub startup_args : Fields
  pub mdl_cfg : Fields
  pub enode_id : String
  pub deploy_status : Value
  pub extra : Option Fields
  pub create_time : ℕ
  pub is_deleted : Bool
  pub creator : String
  pub updater : String

pub record Test : Type 0 where
  pub test_id : String
  pub instance_id : String
  pub data_set : Value
  pub param_spec : Fields
  pub test_spec : Fields
  pub test_status : String
  pub prompt_tps : ℤ
  pub generation_tps : ℤ
  pub result : Fields
  pub creator : String
  -- In seconds since the epoch.
  pub create_time : ℕ

pub record Db : Type 0 where
  pub instances : List Instance
  pub tests : List Test

-- The calls that change something outside, a deployment or the injector's container, in order: the
-- last one comes first. Calls that only read are not recorded: `get_deploy` and `engine_args`, docker's
-- states, the metrics.
pub data Call : Type 0 where
  create_deploy delete_deploy : String → Call
  start_injector stop_injector : Call

-- The dicts of `CONFIG` that the service reads, and changes when it deploys.
pub record Settings : Type 0 where
  pub serving : Fields
  pub llmo : Fields
  -- The dict of each backend, by its name.
  pub backends : Fields
  pub enova_app : Fields
  pub user_args : Fields

pub record World : Type 0 where
  pub db : Db
  pub settings : Settings
  pub calls : List Call

-- A declared error, or any other Python exception.
pub data Failure : Type 0 where
  raised : ErrorClass → Failure
  crash : Failure

pub data Result {ℓ} (A : Type ℓ) : Type ℓ where
  ok : A → Result A
  err : Failure → Result A

abbrev pub Action : Type 0 → Type 0
Action A = World → Result A × World

module _ {A : Type 0} where
  abbrev pub pure : A → Action A
  pure a w = (ok a, w)

  abbrev pub fail : Failure → Action A
  fail e w = (err e, w)

  abbrev pub raise : ErrorClass → Action A
  raise c = fail (raised c)

  abbrev pub gets : (World → A) → Action A
  gets f w = (ok (f w), w)

  -- A call that may raise: `none` is its exception.
  abbrev pub or_crash : Option A → Action A
  or_crash none = fail crash
  or_crash (some a) = pure a

  -- `async with get_async_session() as session`.
  abbrev pub end_session : Result A × World → Db → Result A × World
  end_session (ok a, w) before = (ok a, w)
  end_session (err e, w) before = (err e, record w { db = before })

  unfoldable pub in_session : Action A → Action A
  in_session m w = end_session (m w) w.db

infixl 5 ◌>>=◌ ◌>>◌
abbrev pub ◌>>=◌ : {A B : Type 0} → Action A → (A → Action B) → Action B
◌>>=◌ m f w = let (r, w') = m w in elim r [ ok a ↦ f a w' | err e ↦ (err e, w') ]

abbrev pub ◌>>◌ : {A B : Type 0} → Action A → Action B → Action B
m >> k = m >>= λ _. k

abbrev pub raise_if : Bool → ErrorClass → Action (Unit {0})
raise_if true c = raise c
raise_if false c = pure tt

abbrev pub call : Call → Action (Unit {0})
call c w = (ok tt, record w { calls = c ∷ w.calls })

abbrev pub set_instances : List Instance → Action (Unit {0})
set_instances xs w = (ok tt, record w { db = record { instances = xs; tests = w.db.tests } })

abbrev pub set_tests : List Test → Action (Unit {0})
set_tests xs w = (ok tt, record w { db = record { instances = w.db.instances; tests = xs } })
