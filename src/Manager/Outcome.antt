-- ===== src/Manager/Outcome.antt =====
-- How restoreApply ends, and a restart after it (apps/manager/src/node-manager.ts).
use neuromem.Prelude.{
  String, Bool, false, ◌≡◌, refl, sym, ◌∙◌, ap, subst, inl, inr, ◌⊎◌, Option, none, some, List, [],
  ◌∷◌, str_eq, arith,
}
use neuromem.Nodes.State.{NodeRecord}
use neuromem.Nodes.Operations.{OperationState, OperationKind, failed, succeeded}
use neuromem.Manager.World.{
  Cutover, Operation, World, HostLibrary, bind_result, ◌>>=◌, ◌>>◌, call, return, require, begin,
  fail_operation, this_node,
}
use neuromem.Manager.Staging.{volume_name}
use neuromem.Manager.Generations.{
  inspect_backup, restore_plan, located, restore_located, restore_locked, restore_apply,
}
use neuromem.Manager.Kept.{active, mark, framed, kept, steady, call-steady}
use neuromem.Manager.Kept.Steps.{require-steady}
use neuromem.Manager.Ends.{Ends, Holds, Ends-bind, Ends-catch, Ends-weaken}
use neuromem.Manager.Journal.{
  pending, Prepared, Settled, Restorable, Settled-Restorable, At, At-active, Unfinished,
  At-Restorable, ended-Settled, kept-then,
}
use neuromem.Manager.Replacement.{Failed, Ended, fail_operation-Ends}
use neuromem.Manager.Restoring.{begin-Ends, inspect_backup-Ends, located-kept, restore_located-Ends}
use neuromem.Manager.Rollable.{steadily}

unfoldable pub newest_state : List Operation → Option OperationState
newest_state [] = none
newest_state (op ∷ ops) = some op.state

mark-newest_state :
    (ops : List Operation) (st : OperationState) (j : Option Cutover) (b : Bool)
    → mark ops ≡ some (st, j, b)
    → newest_state ops ≡ some st
unfolding mark newest_state
mark-newest_state [] st j b e = ground arith
mark-newest_state (op ∷ ops) st j b e = ground arith

-- The generation is as it was and the operation has failed, or the volume is that of the generation
-- and the operation has succeeded; a restart has nothing to do.
unfoldable pub Restored : HostLibrary → World → World → Type 0
Restored lib w v =
    (v.settings ≡ w.settings)
    × (pending v.history ≡ none)
    × (((active v ≡ active w) × (newest_state v.history ≡ some failed))
        ⊎ ((v.volume ≡ volume_name lib w.node v.node.generation)
            × (newest_state v.history ≡ some succeeded)))

-- A restart finds the generation of `w` active, or one journal, which leads back to it.
abbrev pub RestorableTo : HostLibrary → World → World → Type 0
RestorableTo lib w v = Restorable lib (active w) w.settings w.node.node_id v

module _ (lib : HostLibrary) (w : World) where
  unfoldable pub Start : World → Type 0
  Start v = Settled lib (active w) w.settings w.node.node_id v

  -- The generation is as it was.
  unfoldable pub Unchanged : World → Type 0
  Unchanged v = (active v ≡ active w) × RestorableTo lib w v

  pub Start-Unchanged : (v : World) → Start v → Unchanged v × RestorableTo lib w v
  unfolding Start Unchanged Settled
  Start-Unchanged v h =
      let back = Settled-Restorable lib (active w) w.settings w.node.node_id v h in
      ((h.0, back), back)

  pub Start-steady : (u v : World) → steady u ≡ steady v → Start v → Start u
  unfolding Start Settled steady
  Start-steady u v e h =
      subst
        (λ x.
          (x.0 ≡ active w) × (x.1.0 ≡ w.settings) × (x.1.1 ≡ w.node.node_id) × (pending x.2 ≡ none))
        (sym e) h

  module _ (os : List Operation) (empty : pending os ≡ none) where
    pub Unfinished-Unchanged :
        (v : World) → Unfinished lib (active w) w.settings w.node.node_id os v → Unchanged v
    unfolding Unfinished Unchanged
    Unfinished-Unchanged v (j, pr, h) = (
      At-active lib (active w) w.settings w.node.node_id os j v h,
      At-Restorable lib (active w) w.settings w.node.node_id os j v pr empty h,
    )

    Failed-Start : (v : World) → Failed lib (active w) w.settings w.node.node_id os v → Start v
    unfolding Failed Start
    Failed-Start v (j, e) =
        ended-Settled lib (active w) w.settings w.node.node_id os failed j v (inr (inl refl)) empty
          e

    pub Ended-Restored :
        (latest : NodeRecord) (v : World)
        → latest.node_id ≡ w.node.node_id
        → Ended lib (active w) w.settings w.node.node_id os latest v
        → Restored lib w v
    unfolding Ended Failed Restored kept framed active volume_name Settled
    Ended-Restored latest v same (inl (j, e)) =
        let h =
          ended-Settled lib (active w) w.settings w.node.node_id os failed j v (inr (inl refl))
            empty e in
        (h.1, h.3, inl (h.0, mark-newest_state v.history failed j false (ap (λ k. k.1.newest) e)))
    Ended-Restored latest v same (inr (g, schema, e)) =
        let h =
          ended-Settled lib
            (record { generation = g; schema = schema; volume = volume_name lib latest g })
            w.settings w.node.node_id os succeeded none v (inr (inr refl)) empty e in
        (
          h.1,
          h.3,
          inr (
            ap (λ k. k.0.volume) e
                ∙ (ap (λ id. volume_name lib (record latest { node_id = id }) g) same
                    ∙ ap (λ g. volume_name lib w.node g) (sym (ap (λ k. k.0.generation) e))),
            mark-newest_state v.history succeeded none false (ap (λ k. k.1.newest) e),
          ),
        )

  failing :
      (os : List Operation) (empty : pending os ≡ none) (v : World)
      → Unfinished lib (active w) w.settings w.node.node_id os v
      → Ends (λ b. Start) Unchanged (RestorableTo lib w) ((do fail_operation; return false) v)
  unfolding Unfinished Holds return
  failing os empty v (j, pr, h) =
      Ends-bind (λ x. Failed lib (active w) w.settings w.node.node_id os) fail_operation
        (λ x. return false) v
        (Ends-weaken (fail_operation v)
          (fail_operation-Ends lib (active w) w.settings w.node.node_id os empty j v pr h)
          (λ x u e. e) (λ u e. Unfinished-Unchanged os empty u e) (λ u e. e))
        (λ x u e. record { holds = Failed-Start os empty u e })

  restore_plan-Ends :
      (n : NodeRecord) (id : String) (v : World)
      → Start v
      → Ends (λ b. Start) Unchanged (RestorableTo lib w) (restore_plan n id v)
  unfolding restore_plan Start Settled Holds return
  restore_plan-Ends n id v h =
      Ends-bind (λ x. At lib (active w) w.settings w.node.node_id v.history none)
        (begin OperationKind.restore_plan "inspecting") _ v
        (begin-Ends lib (active w) w.settings w.node.node_id OperationKind.restore_plan "inspecting"
          v h)
        (λ x u at.
          Ends-catch (Unfinished lib (active w) w.settings w.node.node_id v.history)
            (inspect_backup n id) (do fail_operation; return false) u
            (inspect_backup-Ends lib (active w) w.settings w.node.node_id v.history h.3 n id u at)
            (λ t bad. failing v.history h.3 t bad))

  restore_locked-Ends :
      (id : String) (v : World)
      → Start v
      → Ends (λ x. Restored lib w) Unchanged (RestorableTo lib w) (restore_locked lib w.node id v)
  unfolding restore_locked Start Settled Prepared
  restore_locked-Ends id v h =
      Ends-bind (λ x. At lib (active w) w.settings w.node.node_id v.history none)
        (begin OperationKind.restore_apply "entering_maintenance") _ v
        (begin-Ends lib (active w) w.settings w.node.node_id OperationKind.restore_apply
          "entering_maintenance" v h)
        (λ x u at.
          Ends-weaken ((located w.node id >>= restore_located lib w.node) u)
            (kept-then lib (active w) w.settings w.node.node_id v.history none (located w.node id) _
              u (located-kept w.node id) (inl refl) h.3 at
              (λ o t at.
                restore_located-Ends lib (active w) w.settings w.node.node_id v.history h.3 w.node o
                  t at))
            (λ x t (latest, same, e). Ended-Restored v.history h.3 latest t same e)
            (λ t e. Unfinished-Unchanged v.history h.3 t e) (λ t e. e))

-- From a state whose operation records have no journal that a restart would act on, restoreApply,
-- whatever the calls outside answer, ends as follows. When it returns, either its operation has
-- failed and the generation, the schema and the volume are as they were, or it has succeeded and the
-- volume is that of the generation; the rest of the `.env` is as it was, and a restart has nothing to
-- roll back. When it throws, the generation, the schema and the volume are as they were. When the
-- process dies in it, at any step, they are as they were with nothing for a restart to do, or there
-- is one journal for a restart, which leads back to them.
pub restore_apply-Restored :
    (lib : HostLibrary) (id confirmation : String) (w : World)
    → pending w.history ≡ none
    → Ends
        (λ x. Restored lib w)
        (Unchanged lib w)
        (RestorableTo lib w)
        (restore_apply lib id confirmation w)
unfolding restore_apply this_node ◌>>=◌ bind_result Start Settled
restore_apply-Restored lib id confirmation w empty =
    let start : Start lib w w = (refl, refl, refl, empty) in
    steadily (Start lib w) (Start-steady lib w) (Start-Unchanged lib w)
      (require (str_eq confirmation w.node.node_id)) _ w
      (require-steady (str_eq confirmation w.node.node_id)) start
      (λ x v h.
        Ends-bind (λ b. Start lib w) (restore_plan w.node id) _ v
          (restore_plan-Ends lib w w.node id v h)
          (λ planned v h.
            steadily (Start lib w) (Start-steady lib w) (Start-Unchanged lib w) (require planned) _
              v (require-steady planned) h
              (λ x v h.
                steadily (Start lib w) (Start-steady lib w) (Start-Unchanged lib w) call _ v
                  call-steady h (λ x v h. restore_locked-Ends lib w id v h))))
