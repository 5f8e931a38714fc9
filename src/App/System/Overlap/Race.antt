-- ===== src/App/System/Overlap/Race.antt =====
-- Two creations of tests that overlap (enova/app/service.py).
use enova.Prelude.{◌≡◌, refl, ap, arith, ℕ, ◌+◌, String, Bool, true, false, Option, none, some}
use enova.Value.{Value}
use enova.App.Store.{Action, World, Test, Instance, Result, ok, err, or_crash, pure, ◌>>=◌}
use enova.App.Store.Bind.{>>=-eq-ok, in_session-eq-ok}
use enova.App.Injection.{Machine, start, deployed}
use enova.App.Instances.{Replies}
use enova.App.Traffic.{TestParams, unfinished, add_started, as_running, start_on}
use enova.App.Traffic.Create.{start_db, unfinished-append}
use enova.App.System.Overlap.{count_half, start_half, overlapped}
use enova.App.System.Overlap.Bound.{count_half_ok, there}

added_one :
    (t : Test) (w : World) (q : Result Bool × World) {t' : Test} {w' : World}
    → q.1.db ≡ w.db
    → ◌>>=◌ (λ _. q) (add_started t) w ≡ (ok t', w')
    → unfinished w'.db.tests ≡ unfinished w.db.tests + 1
added_one t w (ok true, w1) same h =
    let one = unfinished-append w1.db.tests (as_running t) refl in
    let rows = ap (λ (q : Result Test × World). unfinished q.1.db.tests) h in
    omega (arith, one, rows, ap (λ d. unfinished d.tests) same)
added_one t w (ok false, w1) same h = cc
added_one t w (err e, w1) same h = cc

start_half_ok :
    (m : Machine) (p : Instance × Test) (w : World) {t : Test} {w' : World}
    → start_half m p w ≡ (ok t, w')
    → unfinished w'.db.tests ≡ unfinished w.db.tests + 1
start_half_ok m p w {t} {w'} h =
    by_port (deployed "port" p.0)
      (in_session-eq-ok (or_crash (deployed "port" p.0) >>= start_on m p.0 p.1) w h)
  where
    by_port :
        (o : Option Value)
        → (or_crash o >>= start_on m p.0 p.1) w ≡ (ok t, w')
        → unfinished w'.db.tests ≡ unfinished w.db.tests + 1
    by_port none h = cc
    by_port (some port) h =
        added_one p.1 w (start m m.default_enode_host port p.1 p.0 w)
          (start_db m m.default_enode_host port p.1 p.0 w) h

-- Whenever this schedule of two creations returns, two tests are unfinished after it.
pub overlapped-two :
    (m : Machine) (r : Replies) (first_id second_id : String) (now : ℕ) (params others : TestParams)
    (w : World) {both : Test × Test} {w' : World}
    → overlapped m r first_id second_id now params others w ≡ (ok both, w')
    → unfinished w'.db.tests ≡ 2
overlapped-two m r first_id second_id now params others w h =
    let (p, _, after_first) = >>=-eq-ok second (count_half r first_id now params) w h in
    let w1 = (count_half r first_id now params w).1 in
    let (q, passed, after_second) =
      >>=-eq-ok (begun p) (count_half r second_id now others) w1 after_first in
    let w2 = (count_half r second_id now others w1).1 in
    let (t, began, after_start) = >>=-eq-ok (begun_last q) (start_half m p) w2 after_second in
    let w3 = (start_half m p w2).1 in
    let (u, last, done) = >>=-eq-ok (λ u. pure (t, u)) (start_half m q) w3 after_start in
    let rows = ap (λ (q : Result (Test × Test) × World). unfinished q.1.db.tests) done in
    omega (
      arith,
      count_half_ok r second_id now others w1 passed,
      start_half_ok m p w2 (there began),
      start_half_ok m q w3 (there last),
      rows,
    )
  where
    begun_last : Instance × Test → Test → Action (Test × Test)
    begun_last q t = do u ← start_half m q; pure (t, u)

    begun : Instance × Test → Instance × Test → Action (Test × Test)
    begun p q = start_half m p >>= begun_last q

    second : Instance × Test → Action (Test × Test)
    second p = count_half r second_id now others >>= begun p
