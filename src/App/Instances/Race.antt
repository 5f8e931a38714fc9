-- ===== src/App/Instances/Race.antt =====
-- `create_instance` looks for an active instance in one session and adds its row in another, and it
-- awaits in between: two requests can interleave (enova/app/service.py).
use enova.Prelude.{◌+◌, ◌≡◌, arith}
use enova.App.Instances.Unique.{prepare_same, check_same, check_ok, deploy_and_add-active}
use enova.App.Store.Bind.{>>=-eq-ok, reading-eq-ok}
use enova.App.Store.{Action, Result, Instance, World, ok, ◌>>=◌, ◌>>◌}
use enova.App.Instances.{
  Draft, Fields, Action, active, check_enode_existed, CreateParams, Answers, prepare,
  deploy_and_add,
}

-- The second half of a request, after its check.
abbrev pub second_half : Answers → CreateParams → Action Instance
second_half a params = do p ← prepare a params; deploy_and_add a p.0 p.1

-- A schedule of two requests: both check before either adds.
abbrev pub interleaved : Answers → CreateParams → Answers → CreateParams → Action Instance
interleaved a params b others = do
  check_enode_existed
  check_enode_existed
  second_half a params
  second_half b others

pair_path : {r : Result Instance × World} {a : Instance} → r.0 ≡ ok a → r ≡ (ok a, r.1)
pair_path {r} e = λ i. (e i, r.1)

second_half_ok :
    (a : Answers) (params : CreateParams) (w : World) {row : Instance} {w' : World}
    → second_half a params w ≡ (ok row, w')
    → active w'.db.instances ≡ active w.db.instances + 1
second_half_ok a params w h =
    let (p, _, last) =
      reading-eq-ok (λ (p : Fields × Draft). deploy_and_add a p.0 p.1) (prepare a params) w
        (prepare_same a params w) h in
    deploy_and_add-active a p.0 p.1 w last

-- Whenever this schedule of two requests returns, no instance was active before it and two are
-- after it.
pub interleaved-two :
    (a b : Answers) (params others : CreateParams) (w : World) {row : Instance} {w' : World}
    → interleaved a params b others w ≡ (ok row, w')
    → (active w.db.instances ≡ 0) × (active w'.db.instances ≡ 2)
interleaved-two a b params others w h =
    let last = λ (i : Instance). second_half b others in
    let both = λ (u : Unit {0}). second_half a params >>= last in
    let (_, clear, rest) =
      reading-eq-ok (λ _. check_enode_existed >>= both) check_enode_existed w (check_same w) h in
    let (_, _, halves) = reading-eq-ok both check_enode_existed w (check_same w) rest in
    let (i, first_row, second) = >>=-eq-ok last (second_half a params) w halves in
    let none_before : active w.db.instances ≡ 0 = check_ok w clear in
    let one : active (second_half a params w).1.db.instances ≡ active w.db.instances + 1 =
      second_half_ok a params w (pair_path first_row) in
    (none_before, omega (arith, second_half_ok b others (second_half a params w).1 second))
