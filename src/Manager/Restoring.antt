-- ===== src/Manager/Restoring.antt =====
-- restoreApply as a whole (apps/manager/src/node-manager.ts), from the plan to the end.
use neuromem.Prelude.{
  ◌+◌, String, false, ◌≡◌, ◌&&◌, refl, ◌∙◌, ap, inl, inr, Option, none, some, List, ◌∷◌, str_eq,
}
use neuromem.Nodes.State.{NodeRecord}
use neuromem.Nodes.Operations.{OperationKind, running, succeeded}
use neuromem.Manager.World.{
  Operation, World, HostLibrary, M, ◌>>=◌, ask, return, require, patch_first, amend, begin, succeed,
  enter_phase, this_node, BackupManifest,
}
use neuromem.Manager.Backups.{
  sound_structure, locate_backup, verify_located_backup, snapshot_while_quiesced,
}
use neuromem.Manager.Staging.{VerificationMode}
use neuromem.Manager.Generations.{
  inspect_backup, quiesce, unchanged_since, restore_from, located, restore_located, abandon,
  unblocked,
}
use neuromem.Manager.Kept.{
  Active, active, mark, older, framed, kept, Preserves, Preserves-bind, Preserves-catch,
  Preserves-return,
}
use neuromem.Manager.Kept.Quiet.{
  call-kept, ask-kept, require-kept, set_phase-kept, enter_phase-kept, patch_first-older,
  locate_backup-kept, verify_located_backup-kept, snapshot_while_quiesced-kept,
}
use neuromem.Manager.Ends.{Ends, Holds, Ends-bind, Ends-catch, Ends-weaken, write-Ends}
use neuromem.Manager.Journal.{
  frame, pending, Prepared, Settled, Restorable, Settled-Restorable, At, Unfinished, At-Restorable,
  ended-Settled, kept-then,
}
use neuromem.Manager.Replacement.{Ended, end-mark, abandon-Ends, replace_generation-Ends}

pub quiesce-kept : Preserves kept quiesce
unfolding quiesce
quiesce-kept =
    search (Preserves-bind, set_phase-kept, call-kept, ask-kept, require-kept, enter_phase-kept)

pub located-kept : (n : NodeRecord) (id : String) → Preserves kept (located n id)
unfolding located
located-kept n id = search (
  Preserves-catch, Preserves-bind, Preserves-return, locate_backup-kept, verify_located_backup-kept,
)

module _ (lib : HostLibrary) (a : Active) (s key : String) where
  pub begin-Ends :
      {E : World → Type 0} (kind : OperationKind) (phase : String) (w : World)
      → Settled lib a s key w
      → Ends (λ x. At lib a s key w.history none) E (Restorable lib a s key) (begin kind phase w)
  unfolding begin At kept framed active mark older Settled
  begin-Ends kind phase w h =
      let op : Operation = record {
        kind = kind;
        state = running;
        phase = phase;
        cutover = none;
        recovery = false;
      } in
      write-Ends (λ v. record v { history = op ∷ v.history }) w
        (Settled-Restorable lib a s key (record w { tick = w.tick + 1 }) h)
        (λ i. (h.0 i, frame (h.1 i) (h.2 i) (running, none, false) w.history))

  module _ (os : List Operation) (empty : pending os ≡ none) where
    planned-Ends :
        {E : World → Type 0} (w : World)
        → At lib a s key os none w
        → Ends (λ x. Settled lib a s key) E (Restorable lib a s key) (succeed "planned" w)
    unfolding succeed amend kept framed active At Prepared
    planned-Ends w h =
        let done : Operation → Operation =
          λ op. record op { state = succeeded; phase = "planned"; cutover = none } in
        write-Ends (λ v. record v { history = patch_first done v.history }) w
          (At-Restorable lib a s key os none (record w { tick = w.tick + 1 }) (inl refl) empty h)
          (ended-Settled lib a s key os succeeded none _ (inr (inr refl)) empty (λ i. (
            (h i).0,
            record {
              settings = (h i).1.settings;
              node_id = (h i).1.node_id;
              newest =
                  (end-mark "planned" w.history running none false (ap (λ k. k.1.newest) h)).1 i;
              others = (patch_first-older done w.history ∙ ap (λ k. k.1.others) h) i;
            },
          )))

    -- A step that keeps everything, while the operation has no journal.
    pub quietly :
        {A B : Type 0} {Q : B → World → Type 0} (m : M A) (f : A → M B) (w : World)
        → Preserves kept m
        → At lib a s key os none w
        → ((x : A) (v : World)
            → At lib a s key os none v
            → Ends Q (Unfinished lib a s key os) (Restorable lib a s key) (f x v))
        → Ends Q (Unfinished lib a s key os) (Restorable lib a s key) ((m >>= f) w)
    unfolding Prepared
    quietly m f w p h k = kept-then lib a s key os none m f w p (inl refl) empty h k

    pub inspect_backup-Ends :
        (n : NodeRecord) (id : String) (w : World)
        → At lib a s key os none w
        → Ends
            (λ x. Settled lib a s key)
            (Unfinished lib a s key os)
            (Restorable lib a s key)
            (inspect_backup n id w)
    unfolding inspect_backup return Holds
    inspect_backup-Ends n id w h =
        quietly (locate_backup n id) _ w (locate_backup-kept n id) h (λ m v h.
          quietly (verify_located_backup m) _ v (verify_located_backup-kept m) h (λ x v h.
            quietly ask _ v ask-kept h (λ disk v h. quietly ask _ v ask-kept h (λ queue v h.
              Ends-bind (λ x. Settled lib a s key) (succeed "planned")
                (λ x. return (unblocked n m disk.number queue.flag)) v (planned-Ends v h)
                (λ x u e. record { holds = e })))))

    restore_from-Ends :
        (n : NodeRecord) (m : BackupManifest) (latest : NodeRecord) (w : World)
        → latest.generation ≡ a.generation
        → latest.schema_revision ≡ a.schema
        → At lib a s key os none w
        → Ends
            (λ x. Ended lib a s key os latest)
            (Unfinished lib a s key os)
            (Restorable lib a s key)
            (restore_from lib n m latest w)
    unfolding restore_from
    restore_from-Ends n m latest w e f h =
        quietly (require (unchanged_since n latest)) _ w (require-kept (unchanged_since n latest)) h
          (λ x v h.
            quietly
              (require
                (sound_structure m && str_eq m.database.schema_revision latest.schema_revision))
              _ v
              (require-kept
                (sound_structure m && str_eq m.database.schema_revision latest.schema_revision))
              h
              (λ x v h. quietly quiesce _ v quiesce-kept h (λ x v h.
                quietly (snapshot_while_quiesced latest) _ v (snapshot_while_quiesced-kept latest) h
                  (λ safety v h.
                    quietly (enter_phase "staging") _ v (enter_phase-kept "staging") h (λ x v h.
                      replace_generation-Ends lib a s key os empty latest m VerificationMode.exact
                        m.database.schema_revision v e f h)))))

    pub restore_located-Ends :
        (n : NodeRecord) (o : Option BackupManifest) (w : World)
        → At lib a s key os none w
        → Ends
            (λ x v. (latest : NodeRecord) × (latest.node_id ≡ key) × Ended lib a s key os latest v)
            (Unfinished lib a s key os)
            (Restorable lib a s key)
            (restore_located lib n o w)
    unfolding restore_located this_node Unfinished Prepared At kept active framed ◌>>=◌
    restore_located-Ends n none w h =
        Ends-weaken (abandon n w) (abandon-Ends lib a s key os empty w.node n w (none, inl refl, h))
          (λ x v e. (w.node, ap (λ k. k.1.node_id) h, e)) (λ v e. e) (λ v e. e)
    restore_located-Ends n (some m) w h =
        Ends-catch (Unfinished lib a s key os) (restore_from lib n m w.node) (abandon w.node) w
          (Ends-weaken (restore_from lib n m w.node w)
            (restore_from-Ends n m w.node w (ap (λ k. k.0.generation) h) (ap (λ k. k.0.schema) h) h)
            (λ x v e. (w.node, ap (λ k. k.1.node_id) h, e)) (λ v e. e) (λ v e. e))
          (λ v u.
            Ends-weaken (abandon w.node v) (abandon-Ends lib a s key os empty w.node w.node v u)
              (λ x v e. (w.node, ap (λ k. k.1.node_id) h, e)) (λ v e. e) (λ v e. e))
