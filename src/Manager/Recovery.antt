-- ===== src/Manager/Recovery.antt =====
-- The restart of the manager after it died (apps/manager/src/node-manager.ts,
-- `reconcileInterruptedCutovers`): the proof that a restart leads back.
use neuromem.Prelude.{
  ◌+◌, ◌^◌, String, true, false, ◌≡◌, refl, ◌∙◌, ap, inl, inr, ◌⊎◌, none, some, str_eq, ltb,
  if◌then◌else◌, arith,
}
use neuromem.Nodes.State.{NodePhase}
use neuromem.Manager.World.{
  Cutover, World, HostLibrary, ◌>>=◌, bind_result, catch, call, return, attempt, require,
  amend_node, set_phase,
}
use neuromem.Manager.Status.{wants_running}
use neuromem.Manager.Generations.{read_env, write_volume}
use neuromem.Manager.Restart.{
  cut_off_all, interrupted, mark_recovered, recover_interrupted, find_cutover, is_complete,
  reinstate, resume_wanted, record_recovery, roll_back_cutover, reconcile, restart,
}
use neuromem.Manager.Kept.{Active, active, steady, call-steady}
use neuromem.Manager.Kept.Steps.{attempt-steady, require-steady}
use neuromem.Manager.Ends.{Ends, Holds, Ends-bind, Ends-catch, Ends-if, write-Ends}
use neuromem.Manager.Journal.{pending, Journals, Restorable}
use neuromem.Manager.Rollable.{
  Back, Rollable, Rollable-Restorable, Rollable-steady, cut_off_all_quiet, none_run,
  none_run-cut_off_all, none_run-mark_recovered, read_env-steady, resume_wanted-steady, steadily,
}

module _ (lib : HostLibrary) (a : Active) (s key : String) (c : Cutover)
    (jo : Journals lib a s key c) where
  rolled : World → World
  unfolding wants_running
  rolled v = record v {
    node = record v.node {
      generation = c.from_generation;
      schema_revision = c.from_schema;
      phase = if wants_running v.node then NodePhase.starting else NodePhase.stopped;
    };
  }

  Rolled : World → Type 0
  Rolled v = Rollable lib a s key c v × (active v ≡ a)

  Rolled-steady : (v w : World) → steady v ≡ steady w → Rolled w → Rolled v
  unfolding Rolled steady
  Rolled-steady v w e h = (Rollable-steady lib a s key c v w e h.0, ap (λ x. x.0) e ∙ h.1)

  reinstate-Ends :
      {E : World → Type 0} (w : World)
      → Rollable lib a s key c w × (w.volume ≡ a.volume)
      → Ends (λ x. Rolled) E (Restorable lib a s key) (reinstate c w)
  unfolding reinstate amend_node Rolled rolled Rollable active Journals
  reinstate-Ends w h =
      write-Ends rolled w
        (Rollable-Restorable lib a s key c (record w { tick = w.tick + 1 }) jo h.0)
        (h.0, λ i. record { generation = jo.0 i; schema = jo.1 i; volume = h.1 i })

  record_recovery-Ends :
      {E : World → Type 0} (w : World)
      → Rolled w
      → Ends (λ x. Back lib a s key) E (Restorable lib a s key) (record_recovery w)
  unfolding record_recovery Rolled Rollable Back Restorable active
  record_recovery-Ends w h =
      let after : pending (mark_recovered w.history) ≡ none =
        ap interrupted
          (cut_off_all_quiet (mark_recovered w.history) (none_run-mark_recovered w.history h.0.1))
        ∙ h.0.3 in
      write-Ends (λ v. record v { history = mark_recovered v.history }) w
        (Rollable-Restorable lib a s key c (record w { tick = w.tick + 1 }) jo h.0)
        ((h.0.0, inl (h.1, after)), inl h.1)

  roll_back_cutover-Ends :
      (w : World)
      → Rollable lib a s key c w
      → Ends
          (λ x. Back lib a s key)
          (Rollable lib a s key c)
          (Restorable lib a s key)
          (roll_back_cutover lib c w)
  unfolding roll_back_cutover write_volume Rollable Rolled Journals
  roll_back_cutover-Ends w h =
      let out : (v : World)
          → Rollable lib a s key c v
          → Rollable lib a s key c v × Restorable lib a s key v =
        λ v r. (r, Rollable-Restorable lib a s key c v jo r) in
      let tr = Rollable-steady lib a s key c in
      steadily (Rollable lib a s key c) tr out (attempt call) _ w (attempt-steady call call-steady)
        h
        (λ x v h.
          steadily (Rollable lib a s key c) tr out read_env _ v read_env-steady h (λ env v h.
            steadily (Rollable lib a s key c) tr out
              (require (str_eq (lib.digest c.from_volume env.1) c.env_sha256)) _ v
              (require-steady (str_eq (lib.digest c.from_volume env.1) c.env_sha256)) h
              (λ x v h.
                Ends-bind (λ x u. Rollable lib a s key c u × (u.volume ≡ a.volume))
                  (write_volume c.from_volume) _ v
                  (write-Ends (λ u. record u { volume = c.from_volume }) v
                    (Rollable-Restorable lib a s key c (record v { tick = v.tick + 1 }) jo h)
                    (h, jo.2))
                  (λ x u h.
                    Ends-bind (λ x. Rolled) (reinstate c) _ u (reinstate-Ends u h)
                      (λ x t h.
                        steadily Rolled Rolled-steady
                          (λ v r. (r.0, Rollable-Restorable lib a s key c v jo r.0)) resume_wanted _
                          t resume_wanted-steady h (λ x r h. record_recovery-Ends r h))))))

  fail-Ends :
      {E : World → Type 0} (w : World)
      → Rollable lib a s key c w
      → Ends (λ x. Back lib a s key) E (Restorable lib a s key) (set_phase NodePhase.failed w)
  unfolding set_phase amend_node Back Rollable Restorable active
  fail-Ends w h =
      let back : Restorable lib a s key w = Rollable-Restorable lib a s key c w jo h in
      write-Ends (λ v. record v { node = record v.node { phase = NodePhase.failed } }) w back
        (back, inr refl)

-- What `reconcileInterruptedCutovers` wants of a journal holds of a journal of this generation.
unfoldable pub Complete : Active → Type 0
Complete a =
    (ltb a.generation (2 ^ 53) ≡ true) × (str_eq a.volume "" ≡ false) × (str_eq a.schema "" ≡ false)

module _ (lib : HostLibrary) (a : Active) (s key : String) (complete : Complete a) where
  is_complete_lem : (c : Cutover) → Journals lib a s key c → is_complete c ≡ true
  unfolding Journals is_complete Complete
  is_complete_lem c jo = rw (jo.0, jo.1, jo.2, complete.0, complete.1, complete.2) refl

  reconcile-Ends :
      (c : Cutover) (w : World)
      → Journals lib a s key c
      → Rollable lib a s key c w
      → Ends
          (λ x. Back lib a s key)
          (Restorable lib a s key)
          (Restorable lib a s key)
          (reconcile lib (some c) w)
  unfolding reconcile
  reconcile-Ends c w jo h =
      Ends-if (is_complete c) (catch (roll_back_cutover lib c) (set_phase NodePhase.failed))
        (return tt) w
        (λ e.
          Ends-catch (Rollable lib a s key c) (roll_back_cutover lib c) (set_phase NodePhase.failed)
            w (roll_back_cutover-Ends lib a s key c jo w h) (λ v r. fail-Ends lib a s key c jo v r))
        (λ e. ground (arith, is_complete_lem c jo))

  -- The operations that ran are marked.
  Marked : World → Type 0
  unfolding Journals
  Marked w =
      (w.settings ≡ s)
      × (none_run w.history ≡ true)
      × (((active w ≡ a) × (interrupted w.history ≡ none))
          ⊎ ((c : Cutover) × (interrupted w.history ≡ some c)
              × Journals lib a s key c
              × (interrupted (mark_recovered w.history) ≡ none)))

  idle-Ends :
      {E C : World → Type 0} (w : World)
      → w.settings ≡ s
      → none_run w.history ≡ true
      → active w ≡ a
      → interrupted w.history ≡ none
      → Ends (λ x. Back lib a s key) E C (reconcile lib none w)
  unfolding reconcile return Holds Back Restorable
  idle-Ends w e quiet act idle = record {
    holds = ((e, inl (act, rw (cut_off_all_quiet w.history quiet) idle)), inl act);
  }

  found_journal-Ends :
      (w : World)
      → Marked w
      → Ends
          (λ x. Back lib a s key)
          (Restorable lib a s key)
          (Restorable lib a s key)
          (reconcile lib (interrupted w.history) w)
  unfolding Marked Rollable
  found_journal-Ends w (e, quiet, inl (act, idle)) = rw idle (idle-Ends w e quiet act idle)
  found_journal-Ends w (e, quiet, inr (c, found, jo, single)) =
      rw found (reconcile-Ends c w jo (e, quiet, found, single))

  -- A restart leads back, and so does the next one if the process dies in it.
  pub restart-Ends :
      (w : World)
      → Restorable lib a s key w
      → Ends
          (λ x. Back lib a s key)
          (Restorable lib a s key)
          (Restorable lib a s key)
          (restart lib false w)
  unfolding restart recover_interrupted find_cutover Restorable Marked active ◌>>=◌ bind_result
  restart-Ends w h =
      Ends-bind (λ x. Marked) (recover_interrupted false) (λ x. find_cutover >>= reconcile lib) w
        (write-Ends (λ v. record v { history = cut_off_all v.history }) w h
          (h.0, none_run-cut_off_all w.history, h.1))
        (λ x v m. found_journal-Ends v m)
