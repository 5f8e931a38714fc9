-- ===== src/App/System/Hosts.antt =====
-- The requests on instances start no test and change none (enova/app/service.py).
use enova.Prelude.{
  Bool, true, false, String, List, [], ◌∷◌, ◌++◌, Option, none, some, not, ◌&&◌, keep, ltb, str_eq,
}
use enova.Value.{Value, Fields}
use enova.Error.{instance_exist, instance_not_exist}
use enova.App.Store.{
  Result, ok, err, Settings, Instance, Action, pure, raised, raise_if, or_crash, set_instances,
  call, delete_deploy, ◌>>=◌, ◌>>◌,
}
use enova.App.Payload.{Draft, Merged, llm_of, enode_info}
use enova.App.Deploy.{ask, merge_settings, deploy_merged, deploy_llm, deploy_enode}
use enova.App.Escaler.{flushed}
use enova.App.Instances
use enova.App.Instances.{
  Answers, CreateParams, Replies, shut, synced, merge, find, newest_first, active,
  check_enode_existed, model_of, with_size, with_spec, drafted, prepare, add_row, new_row,
  deploy_and_add, create_instance, sync_rows, list_instance, delete_row, delete_instance,
  delete_rows, delete_instance_by_name, sync_found, get_instance,
}
use enova.App.System.Preserve.{
  Preserves-bind, Preserves-in_session, Preserves-or_crash, Preserves-raise_if, Preserves,
}
use enova.App.System.Settle.{
  Settles, settling, pure-Settles, fail-Settles, set_instances-Settles, delete_deploy-Settles,
  create_deploy-Settles,
}

check-Settles : Preserves settling check_enode_existed
unfolding check_enode_existed
check-Settles =
    Preserves-in_session settling (λ w. raise_if (ltb 0 (active w.db.instances)) instance_exist w)
      (λ w. Preserves-raise_if settling (ltb 0 (active w.db.instances)) instance_exist w)

prepare-Settles : (a : Answers) (params : CreateParams) → Preserves settling (prepare a params)
unfolding prepare
prepare-Settles a params w =
    let model = model_of params w.settings.enova_app in
    Preserves-bind settling (or_crash (a.params_size model)) (with_size a params model)
      (Preserves-or_crash settling (a.params_size model))
      (λ size.
        Preserves-bind settling (or_crash a.machine_spec) (with_spec a params model size)
          (Preserves-or_crash settling a.machine_spec)
          (λ spec.
            Preserves-bind settling (or_crash (a.gpu_config spec))
              (drafted a params model size spec) (Preserves-or_crash settling (a.gpu_config spec))
              (λ gpu.
                pure-Settles {A = Fields × Draft}
                  (gpu, Instances.draft_of a params model size spec))))
      w

deploy_enode-Settles :
    (create : Fields → Option Value) (gpu : Fields) (version : String) (draft : Draft)
    → Preserves settling (deploy_enode create gpu version draft)
unfolding deploy_enode
deploy_enode-Settles create gpu version draft w = by_llm (llm_of draft.mdl_cfg)
  where
    asked :
        (payload : Option Fields) (s : Settings)
        → Settles w (ask create draft payload (record w { settings = s })).1
    asked none s = pure-Settles tt w
    asked (some payload) s = create_deploy-Settles draft.enode_id w

    by_merge :
        (llm : Fields) (r : Result Merged × Settings)
        → Settles w (deploy_merged create gpu version draft llm r w).1
    by_merge llm (err e, s) = pure-Settles tt w
    by_merge llm (ok m, s) = asked (enode_info s m draft llm gpu version) s

    by_llm : (llm : Option Fields) → Settles w (deploy_llm create gpu version draft llm w).1
    by_llm none = pure-Settles tt w
    by_llm (some llm) = by_merge llm (merge_settings w.settings draft.mdl_cfg)

add_row-Settles :
    (a : Answers) (draft : Draft) (extra : Option Fields)
    → Preserves settling (add_row a draft extra)
add_row-Settles a draft none w = pure-Settles tt w
add_row-Settles a draft (some extra) w =
    set_instances-Settles (w.db.instances ++ new_row a draft extra ∷ []) w

deploy_and_add-Settles :
    (a : Answers) (gpu : Fields) (draft : Draft) → Preserves settling (deploy_and_add a gpu draft)
unfolding deploy_and_add deploy_enode
deploy_and_add-Settles a gpu draft =
    Preserves-in_session settling
      (deploy_enode a.create_deploy gpu a.version draft >>= add_row a draft)
      (Preserves-bind settling (deploy_enode a.create_deploy gpu a.version draft) (add_row a draft)
        (deploy_enode-Settles a.create_deploy gpu a.version draft) (add_row-Settles a draft))

pub create_instance-Settles :
    (a : Answers) (params : CreateParams) → Preserves settling (create_instance a params)
unfolding create_instance
create_instance-Settles a params =
    Preserves-bind settling check_enode_existed (λ _. prepare a params >>= deploy) check-Settles
      (λ _.
        Preserves-bind settling (prepare a params) deploy (prepare-Settles a params)
          (λ p. deploy_and_add-Settles a p.0 p.1))
  where
    deploy : Fields × Draft → Action Instance
    deploy p = deploy_and_add a p.0 p.1

sync_rows-Settles : (r : Replies) (rows : List Instance) → Preserves settling (sync_rows r rows)
unfolding sync_rows
sync_rows-Settles r [] = pure-Settles {A = List Instance} []
sync_rows-Settles r (i ∷ rest) =
    Preserves-bind settling replace (λ _. sync_rows r rest >>= answer)
      (λ w. set_instances-Settles (merge (flushed i (synced r i)) w.db.instances) w)
      (λ _.
        Preserves-bind settling (sync_rows r rest) answer (sync_rows-Settles r rest)
          (λ done. pure-Settles (synced r i ∷ done)))
  where
    replace : Action (Unit {0})
    replace w = set_instances (merge (flushed i (synced r i)) w.db.instances) w

    answer : List Instance → Action (List Instance)
    answer done = pure (synced r i ∷ done)

pub list_instance-Settles : (r : Replies) → Preserves settling (list_instance r)
unfolding list_instance
list_instance-Settles r =
    Preserves-in_session settling
      (λ w. sync_rows r (newest_first (keep (λ i. not i.is_deleted) w.db.instances)) w)
      (λ w. sync_rows-Settles r (newest_first (keep (λ i. not i.is_deleted) w.db.instances)) w)

sync_found-Settles :
    (r : Replies) (found : Option Instance) → Preserves settling (sync_found r found)
sync_found-Settles r none w = fail-Settles Instance (raised instance_not_exist) w
sync_found-Settles r (some i) w =
    set_instances-Settles (merge (flushed i (synced r i)) w.db.instances) w

pub get_instance-Settles : (r : Replies) (id : String) → Preserves settling (get_instance r id)
unfolding get_instance
get_instance-Settles r id =
    Preserves-in_session settling (λ w. sync_found r (find id w.db.instances) w)
      (λ w. sync_found-Settles r (find id w.db.instances) w)

delete_row-Settles : (o : Option Instance) → Preserves settling (delete_row o)
delete_row-Settles none w = pure-Settles false w
delete_row-Settles (some i) w = set_instances-Settles (merge i w.db.instances) w

delete_found-Settles :
    (r : Replies) (found : Option Instance) → Preserves settling (Instances.delete_found r found)
delete_found-Settles r none = fail-Settles Bool (raised instance_not_exist)
delete_found-Settles r (some i) =
    Preserves-bind settling (call (delete_deploy i.enode_id)) (λ _. delete_row (shut r i))
      (delete_deploy-Settles i.enode_id) (λ _. delete_row-Settles (shut r i))

pub delete_instance-Settles :
    (r : Replies) (id : String) → Preserves settling (delete_instance r id)
unfolding delete_instance
delete_instance-Settles r id =
    Preserves-in_session settling (λ w. Instances.delete_found r (find id w.db.instances) w)
      (λ w. delete_found-Settles r (find id w.db.instances) w)

delete_rows-Settles : (r : Replies) (rows : List Instance) → Preserves settling (delete_rows r rows)
unfolding delete_rows
delete_rows-Settles r [] = pure-Settles tt
delete_rows-Settles r (i ∷ rest) =
    Preserves-bind settling (call (delete_deploy i.enode_id))
      (λ _. replace (shut r i) >> delete_rows r rest) (delete_deploy-Settles i.enode_id)
      (λ _.
        Preserves-bind settling (replace (shut r i)) (λ _. delete_rows r rest)
          (λ w. set_instances-Settles (after (shut r i) w.db.instances) w)
          (λ _. delete_rows-Settles r rest))
  where
    after : Option Instance → List Instance → List Instance
    after gone rows = elim gone [ none ↦ rows | some i' ↦ merge i' rows ]

    replace : Option Instance → Action (Unit {0})
    replace gone w = set_instances (after gone w.db.instances) w

pub delete_instance_by_name-Settles :
    (r : Replies) (name : String) → Preserves settling (delete_instance_by_name r name)
unfolding delete_instance_by_name
delete_instance_by_name-Settles r name =
    Preserves-in_session settling (λ w. (delete_rows r (matching w.db.instances) >> pure true) w)
      (λ w.
        Preserves-bind settling (delete_rows r (matching w.db.instances)) (λ _. pure true)
          (delete_rows-Settles r (matching w.db.instances)) (λ _. pure-Settles true) w)
  where
    matching : List Instance → List Instance
    matching rows = keep (λ i. str_eq i.instance_name name && not i.is_deleted) rows
