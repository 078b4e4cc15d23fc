-- ===== src/Manager/Migrating.antt =====
-- A migration into a new generation is atomic (apps/manager/src/node-manager.ts, migrationApply).
use neuromem.Prelude.{String, false, ◌≡◌, refl, ap, none, str_eq}
use neuromem.Nodes.State.{NodeRecord}
use neuromem.Nodes.Operations.{OperationKind}
use neuromem.Manager.World.{
  World, HostLibrary, BackupManifest, bind_result, ◌>>=◌, catch, ask, call, require, begin,
  this_node,
}
use neuromem.Manager.Backups.{locate_backup, verify_located_backup, snapshot_while_quiesced}
use neuromem.Manager.Staging.{VerificationMode}
use neuromem.Manager.Generations.{enough_space, quiesce, unchanged_since, abandon}
use neuromem.Manager.Migration.{
  is_revision, migrate_aside, migrate_from, migrate_locked, migration_apply,
}
use neuromem.Manager.Kept.{Active, active, framed, kept, call-steady}
use neuromem.Manager.Kept.Steps.{require-steady}
use neuromem.Manager.Kept.Quiet.{
  ask-kept, require-kept, locate_backup-kept, verify_located_backup-kept,
  snapshot_while_quiesced-kept,
}
use neuromem.Manager.Ends.{Ends, Ends-bind, Ends-catch, Ends-weaken}
use neuromem.Manager.Journal.{pending, Settled, Restorable, At, Unfinished}
use neuromem.Manager.Replacement.{Ended, abandon-Ends, replace_generation-Ends}
use neuromem.Manager.Restoring.{begin-Ends, quiesce-kept, quietly}
use neuromem.Manager.Rollable.{steadily}
use neuromem.Manager.Outcome.{
  Restored, RestorableTo, Unchanged, Start, Start-Unchanged, Start-steady, Unfinished-Unchanged,
  Ended-Restored,
}

module _ (lib : HostLibrary) (a : Active) (s key : String) (os : _)
    (empty : pending os ≡ none) where
  migrate_aside-Ends :
      (n : NodeRecord) (m : BackupManifest) (target : String) (w : World)
      → n.generation ≡ a.generation
      → n.schema_revision ≡ a.schema
      → At lib a s key os none w
      → Ends
          (λ x. Ended lib a s key os n)
          (Unfinished lib a s key os)
          (Restorable lib a s key)
          (migrate_aside lib n m target w)
  unfolding migrate_aside
  migrate_aside-Ends n m target w e f h =
      quietly lib a s key os empty ask _ w ask-kept h (λ disk v h.
        quietly lib a s key os empty (require (enough_space disk.number m)) _ v
          (require-kept (enough_space disk.number m)) h
          (λ x v h.
            quietly lib a s key os empty (locate_backup n m.backup_id) _ v
              (locate_backup-kept n m.backup_id) h
              (λ found v h.
                quietly lib a s key os empty (verify_located_backup found) _ v
                  (verify_located_backup-kept found) h
                  (λ x v h.
                    replace_generation-Ends lib a s key os empty n found VerificationMode.migration
                      target v e f h))))

  migrate_from-Ends :
      (n : NodeRecord) (target : String) (latest : NodeRecord) (w : World)
      → latest.generation ≡ a.generation
      → latest.schema_revision ≡ a.schema
      → At lib a s key os none w
      → Ends
          (λ x. Ended lib a s key os latest)
          (Unfinished lib a s key os)
          (Restorable lib a s key)
          (migrate_from lib n target false latest w)
  unfolding migrate_from
  migrate_from-Ends n target latest w e f h =
      quietly lib a s key os empty (require (unchanged_since n latest)) _ w
        (require-kept (unchanged_since n latest)) h
        (λ x v h. quietly lib a s key os empty quiesce _ v quiesce-kept h (λ x v h.
          quietly lib a s key os empty (snapshot_while_quiesced latest) _ v
            (snapshot_while_quiesced-kept latest) h
            (λ m v h.
              quietly lib a s key os empty
                (require (str_eq m.database.schema_revision latest.schema_revision)) _ v
                (require-kept (str_eq m.database.schema_revision latest.schema_revision)) h
                (λ x v h. migrate_aside-Ends latest m target v e f h))))

  migrated-Ends :
      (n : NodeRecord) (target : String) (w : World)
      → At lib a s key os none w
      → Ends
          (λ x v. (latest : NodeRecord) × (latest.node_id ≡ key) × Ended lib a s key os latest v)
          (Unfinished lib a s key os)
          (Restorable lib a s key)
          ((this_node >>= λ latest. catch (migrate_from lib n target false latest) (abandon latest))
            w)
  unfolding this_node ◌>>=◌ bind_result At kept active framed
  migrated-Ends n target w h =
      Ends-weaken (catch (migrate_from lib n target false w.node) (abandon w.node) w)
        (Ends-catch (Unfinished lib a s key os) (migrate_from lib n target false w.node)
          (abandon w.node) w
          (migrate_from-Ends n target w.node w (ap (λ k. k.0.generation) h) (ap (λ k. k.0.schema) h)
            h)
          (λ v u. abandon-Ends lib a s key os empty w.node w.node v u))
        (λ x v e. (w.node, ap (λ k. k.1.node_id) h, e)) (λ v e. e) (λ v e. e)

migrate_locked-Ends :
    (lib : HostLibrary) (w : World) (target : String) (v : World)
    → Start lib w v
    → Ends
        (λ x. Restored lib w)
        (Unchanged lib w)
        (RestorableTo lib w)
        (migrate_locked lib w.node target false v)
unfolding migrate_locked Start Settled
migrate_locked-Ends lib w target v h =
    Ends-bind (λ x. At lib (active w) w.settings w.node.node_id v.history none)
      (begin OperationKind.migrate_apply "entering_maintenance") _ v
      (begin-Ends lib (active w) w.settings w.node.node_id OperationKind.migrate_apply
        "entering_maintenance" v h)
      (λ x u at.
        Ends-weaken _
          (migrated-Ends lib (active w) w.settings w.node.node_id v.history h.3 w.node target u at)
          (λ x t e. Ended-Restored lib w v.history h.3 e.0 t e.1 e.2)
          (λ t e. Unfinished-Unchanged lib w v.history h.3 t e) (λ t e. e))

-- From a state whose operation records have no journal that a restart would act on, migrationApply
-- in a mode other than "transactional", whatever the calls outside answer, ends as restoreApply does.
-- When it returns, either its operation has failed and the generation, the schema and the volume are
-- as they were, or it has succeeded and the volume is that of the generation; the rest of the `.env`
-- is as it was, and a restart has nothing to roll back. When it throws, the generation, the schema
-- and the volume are as they were. When the process dies in it, they are as they were with nothing
-- for a restart to do, or there is one journal for a restart, which leads back to them.
pub migration_apply-Restored :
    (lib : HostLibrary) (target confirmation mode : String) (w : World)
    → pending w.history ≡ none
    → str_eq mode "transactional" ≡ false
    → Ends
        (λ x. Restored lib w)
        (Unchanged lib w)
        (RestorableTo lib w)
        (migration_apply lib target confirmation mode w)
unfolding migration_apply this_node ◌>>=◌ bind_result Start Settled
migration_apply-Restored lib target confirmation mode w empty aside =
    let start : Start lib w w = (refl, refl, refl, empty) in
    steadily (Start lib w) (Start-steady lib w) (Start-Unchanged lib w)
      (require (str_eq confirmation w.node.node_id)) _ w
      (require-steady (str_eq confirmation w.node.node_id)) start
      (λ x v h.
        steadily (Start lib w) (Start-steady lib w) (Start-Unchanged lib w)
          (require (is_revision target)) _ v (require-steady (is_revision target)) h
          (λ x v h.
            steadily (Start lib w) (Start-steady lib w) (Start-Unchanged lib w) call _ v call-steady
              h (λ x v h. rw aside (migrate_locked-Ends lib w target v h))))
