-- ===== src/App/Instances/Unique.antt =====
-- At most one instance is active (enova/app/service.py).
use enova.App.Store.Bind.{
  >>=-eq-ok, reading-eq-ok, reading-eq-err, err_bind, in_session-eq-ok, in_session-eq-err,
}
use enova.Prelude.{
  refl, ◌+◌, ap, inr, inl, Bool-cases, lt→ltb, ◌≤◌, ◌≡◌, true, [], ◌∷◌, ◌++◌, Option, none, some,
  String, arith,
}
use enova.Error.{instance_exist}
use enova.Value.{Fields, Value}
use enova.App.Store.{Instance, World, Settings, Result, ok, err, Failure, raised, in_session, ◌>>=◌}
use enova.App.Payload.{Draft, Merged, llm_of, enode_info}
use enova.App.Deploy.{ask, merge_settings, deploy_merged, deploy_llm, deploy_enode}
use enova.App.Instances.{
  ltb, active, is_active, check_enode_existed, CreateParams, Answers, prepare, deploy_and_add,
  create_instance, add_row,
}
use enova.App.Instances.Rows.{active-one, active-append}

deploy_enode-db :
    (create : Fields → Option Value) (gpu : Fields) (version : String) (draft : Draft) (w : World)
    → (deploy_enode create gpu version draft w).1.db ≡ w.db
unfolding deploy_enode
deploy_enode-db create gpu version draft w = by_llm (llm_of draft.mdl_cfg)
  where
    asked : (payload : Option Fields) (w1 : World) → (ask create draft payload w1).1.db ≡ w1.db
    asked none w1 = refl
    asked (some payload) w1 = refl

    by_merge :
        (llm : Fields) (r : Result Merged × Settings)
        → (deploy_merged create gpu version draft llm r w).1.db ≡ w.db
    by_merge llm (err e, s) = refl
    by_merge llm (ok m, s) =
        asked (enode_info s m draft llm gpu version) (record w { settings = s })

    by_llm : (llm : Option Fields) → (deploy_llm create gpu version draft llm w).1.db ≡ w.db
    by_llm none = refl
    by_llm (some llm) = by_merge llm (merge_settings w.settings draft.mdl_cfg)

-- What the second session does once the deployment has answered.
abbrev Added : World → World → Instance → Type 0
Added w w' row =
    (w'.db.instances ≡ w.db.instances ++ row ∷ [])
    × (w'.db.tests ≡ w.db.tests)
    × (is_active row ≡ true)

added :
    (a : Answers) (draft : Draft) (w w1 : World) (extra : Option Fields) {row : Instance}
    {w' : World}
    → w1.db ≡ w.db
    → add_row a draft extra w1 ≡ (ok row, w')
    → Added w w' row
added a draft w w1 none same h = cc
added a draft w w1 (some extra) same h = ground arith

deploy_and_add_ok :
    (a : Answers) (gpu : Fields) (draft : Draft) (w : World) {row : Instance} {w' : World}
    → deploy_and_add a gpu draft w ≡ (ok row, w')
    → Added w w' row
unfolding deploy_and_add
deploy_and_add_ok a gpu draft w h =
    let deploy = deploy_enode a.create_deploy gpu a.version draft in
    let (extra, _, rest) =
      >>=-eq-ok (add_row a draft) deploy w (in_session-eq-ok (deploy >>= add_row a draft) w h) in
    added a draft w (deploy w).1 extra (deploy_enode-db a.create_deploy gpu a.version draft w) rest

pub prepare_same : (a : Answers) (params : CreateParams) (w : World) → (prepare a params w).1 ≡ w
unfolding prepare
prepare_same a params w = ground arith

pub deploy_and_add-active :
    (a : Answers) (gpu : Fields) (draft : Draft) (w : World) {row : Instance} {w' : World}
    → deploy_and_add a gpu draft w ≡ (ok row, w')
    → active w'.db.instances ≡ active w.db.instances + 1
deploy_and_add-active a gpu draft w {row} h =
    let (rows, _, is_new) = deploy_and_add_ok a gpu draft w h in
    rw rows (omega (arith, active-append w.db.instances (row ∷ []), active-one row is_new))

deploy_and_add_err :
    (a : Answers) (gpu : Fields) (draft : Draft) (w : World) {e : Failure} {w' : World}
    → deploy_and_add a gpu draft w ≡ (err e, w')
    → w'.db ≡ w.db
unfolding deploy_and_add
deploy_and_add_err a gpu draft w h =
    (in_session-eq-err (deploy_enode a.create_deploy gpu a.version draft >>= add_row a draft) w h).1

pub check_same : (w : World) → (check_enode_existed w).1 ≡ w
unfolding check_enode_existed in_session
check_same w = elim (Bool-cases (ltb 0 (active w.db.instances))) [
  | inl there ↦ rw there
  | inr clear ↦ rw clear
]

pub check_ok : (w : World) → (check_enode_existed w).0 ≡ ok tt → active w.db.instances ≡ 0
unfolding check_enode_existed in_session
check_ok w h = elim (Bool-cases (ltb 0 (active w.db.instances))) [
  | inl there ↦ cc (rw there at h)
  | inr clear ↦ ground arith
]

check_err :
    (w : World)
    → 1 ≤ active w.db.instances
    → check_enode_existed w ≡ (err (raised instance_exist), w)
unfolding check_enode_existed in_session
check_err w h = rw (lt→ltb 0 (active w.db.instances) h)

-- A creation that succeeds found no active instance and leaves exactly one: the new row, which it
-- returns, added to rows that are as they were; the tests are as they were.
pub create_instance_unique :
    (a : Answers) (params : CreateParams) (w : World) {row : Instance} {w' : World}
    → create_instance a params w ≡ (ok row, w')
    → (active w.db.instances ≡ 0)
      × (w'.db.instances ≡ w.db.instances ++ row ∷ [])
      × (active w'.db.instances ≡ 1)
      × (w'.db.tests ≡ w.db.tests)
unfolding create_instance
create_instance_unique a params w {row} {w'} h =
    let go = λ (p : Fields × Draft). deploy_and_add a p.0 p.1 in
    let (_, clear, rest) =
      reading-eq-ok (λ _. prepare a params >>= go) check_enode_existed w (check_same w) h in
    let (p, _, last) = reading-eq-ok go (prepare a params) w (prepare_same a params w) rest in
    let (rows, tests, is_new) = deploy_and_add_ok a p.0 p.1 w last in
    let one : active (row ∷ []) ≡ 1 = active-one row is_new in
    let none_before : active w.db.instances ≡ 0 = check_ok w clear in
    (none_before, rows, rw rows (omega (arith, active-append w.db.instances (row ∷ []))), tests)

-- A creation that raises leaves both tables as they were.
pub create_instance-error :
    (a : Answers) (params : CreateParams) (w : World) {e : Failure} {w' : World}
    → create_instance a params w ≡ (err e, w')
    → w'.db ≡ w.db
unfolding create_instance
create_instance-error a params w {e} {w'} h =
    let go = λ (p : Fields × Draft). deploy_and_add a p.0 p.1 in
    elim (reading-eq-err (λ _. prepare a params >>= go) check_enode_existed w (check_same w) h) [
      | inl same ↦ ap (λ v. v.db) same
      | inr (_, clear, rest) ↦
          elim (reading-eq-err go (prepare a params) w (prepare_same a params w) rest) [
            | inl same ↦ ap (λ v. v.db) same
            | inr (p, _, last) ↦ deploy_and_add_err a p.0 p.1 w last
          ]
    ]

-- If an instance is active, a creation raises `instance_exist`, and has called and changed nothing.
pub create_instance-exist :
    (a : Answers) (params : CreateParams) (w : World)
    → 1 ≤ active w.db.instances
    → create_instance a params w ≡ (err (raised instance_exist), w)
unfolding create_instance
create_instance-exist a params w h =
    err_bind (λ _. prepare a params >>= λ p. deploy_and_add a p.0 p.1) check_enode_existed w
      (check_err w h)
