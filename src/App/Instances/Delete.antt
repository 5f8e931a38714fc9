-- ===== src/App/Instances/Delete.antt =====
-- Deleting an instance (enova/app/service.py).
use enova.Prelude.{
  ◌≡◌, ◌≢◌, refl, sym, ◌∙◌, String, Bool, true, false, List, [], ◌∷◌, Option, none, some, eq_iff,
  arith,
}
use enova.Error.{instance_not_exist}
use enova.App.Store.{
  Instance, World, Result, ok, err, raised, in_session, end_session, Call, delete_deploy,
}
use enova.App.Escaler.{shutdown_enode}
use enova.App.Instances.{merge, find, Replies, shut, delete_instance, delete_row, delete_found}

find-some :
    (id : String) (rows : List Instance) (i : Instance) → find id rows ≡ some i → i.instance_id ≡ id
find-some id [] i h = cc
find-some id (j ∷ rest) i h = ground (arith, eq_iff j.instance_id id, find-some id rest i)

find-merge_self :
    (id : String) (rows : List Instance) (i : Instance)
    → i.instance_id ≡ id
    → i.is_deleted ≡ true
    → find id (merge i rows) ≡ none
find-merge_self id [] i own gone = refl
find-merge_self id (j ∷ rest) i own gone = ground (
  arith,
  eq_iff j.instance_id id,
  eq_iff i.instance_id id,
  eq_iff j.instance_id i.instance_id,
  find-merge_self id rest i own gone,
)

find-merge_ne :
    (id : String) (rows : List Instance) (i : Instance)
    → i.instance_id ≢ id
    → find id (merge i rows) ≡ find id rows
find-merge_ne id [] i other = refl
find-merge_ne id (j ∷ rest) i other = ground (
  arith,
  eq_iff j.instance_id id,
  eq_iff i.instance_id id,
  eq_iff j.instance_id i.instance_id,
  find-merge_ne id rest i other,
)

shut-some :
    (r : Replies) (i : Instance) {i' : Instance}
    → shut r i ≡ some i'
    → (i'.instance_id ≡ i.instance_id) × (i'.is_deleted ≡ true)
unfolding shutdown_enode
shut-some r i h = ground arith

-- How a deletion ended: the row was there and is now gone from what later requests see, or nothing
-- changed in the tables.
abbrev pub Deleted : String → World → Result Bool × World → Type 0
Deleted id w (ok true, w') =
    (find id w.db.instances ≢ none)
    × (find id w'.db.instances ≡ none)
    × ((other : String) → other ≢ id → find other w'.db.instances ≡ find other w.db.instances)
    × (w'.db.tests ≡ w.db.tests)
Deleted id w (ok false, w') = (find id w.db.instances ≢ none) × (w'.db ≡ w.db)
Deleted id w (err e, w') =
    (find id w.db.instances ≡ none) × (e ≡ raised instance_not_exist) × (w' ≡ w)

removed :
    (r : Replies) (id : String) (rows : List Instance) (i i' : Instance)
    → find id rows ≡ some i
    → shut r i ≡ some i'
    → (find id (merge i' rows) ≡ none)
      × ((other : String) → other ≢ id → find other (merge i' rows) ≡ find other rows)
removed r id rows i i' there gone =
    let (own, deleted) = shut-some r i gone in
    let same : i'.instance_id ≡ id = own ∙ find-some id rows i there in
    (
      find-merge_self id rows i' same deleted,
      λ other ne. find-merge_ne other rows i' (λ e. ne (sym e ∙ same)),
    )

delete_row-Deleted :
    (r : Replies) (id : String) (w : World) (i : Instance) (gone : Option Instance)
    (calls : List Call)
    → find id w.db.instances ≡ some i
    → shut r i ≡ gone
    → Deleted id w (end_session (delete_row gone (record w { calls = calls })) w.db)
delete_row-Deleted r id w i none calls there gone = (λ e. cc, refl)
delete_row-Deleted r id w i (some i') calls there gone =
    let (lost, kept) = removed r id w.db.instances i i' there gone in (λ e. cc, lost, kept, refl)

delete_found-Deleted :
    (r : Replies) (id : String) (w : World) (found : Option Instance)
    → find id w.db.instances ≡ found
    → Deleted id w (end_session (delete_found r found w) w.db)
delete_found-Deleted r id w none missing = (missing, refl, refl)
delete_found-Deleted r id w (some i) there =
    delete_row-Deleted r id w i (shut r i) (delete_deploy i.enode_id ∷ w.calls) there refl

-- A deletion that answers "success" had found the instance, after it no request finds that instance
-- and every other one is found as before; one that answers "failed" had found it and changed no
-- table; it raises only `instance_not_exist`, only for an id that is not found, with nothing
-- called or changed.
pub delete_instance-Deleted :
    (r : Replies) (id : String) (w : World) → Deleted id w (delete_instance r id w)
unfolding delete_instance in_session
delete_instance-Deleted r id w = delete_found-Deleted r id w (find id w.db.instances) refl
