-- ===== src/Manager/Rollable.antt =====
-- The operation records that a restart rolls back (apps/manager/src/node-manager.ts,
-- `reconcileInterruptedCutovers`), and the calls that keep all of the state.
use neuromem.Prelude.{
  String, Bool, true, false, not, ◌≡◌, ◌&&◌, refl, sym, subst, inl, inr, ◌⊎◌, none, some, List, [],
  ◌∷◌, arith, Bool-cases,
}
use neuromem.Nodes.State.{NodePhase}
use neuromem.Manager.World.{Cutover, Operation, World, HostLibrary, M, ◌>>=◌}
use neuromem.Manager.Generations.{this_env, read_env, bring_up}
use neuromem.Manager.Restart.{
  runs, cut_off, cut_off_all, is_interrupted, interrupted, mark_recovered, resume_wanted,
}
use neuromem.Manager.Kept.{
  Active, active, steady, Preserves, Preserves-bind, Preserves-if, call-steady,
}
use neuromem.Manager.Kept.Steps.{
  require-steady, set_phase-steady, wait_for_ready-steady, this_node-steady,
}
use neuromem.Manager.Ends.{Ends, Ends-bind, Ends-weaken, Preserves-Ends}
use neuromem.Manager.Journal.{Journals, Restorable}

unfoldable pub none_run : List Operation → Bool
unfolding runs
none_run [] = true
none_run (op ∷ ops) = not (runs op.state) && none_run ops

pub none_run-cut_off_all : (ops : List Operation) → none_run (cut_off_all ops) ≡ true
unfolding none_run cut_off_all cut_off runs
none_run-cut_off_all [] = refl
none_run-cut_off_all (op ∷ ops) = elim (Bool-cases (runs op.state)) [
  | inl e ↦ rw e (none_run-cut_off_all ops)
  | inr e ↦ rw (e, e) (none_run-cut_off_all ops)
]

pub none_run-mark_recovered :
    (ops : List Operation) → none_run ops ≡ true → none_run (mark_recovered ops) ≡ true
unfolding none_run mark_recovered runs
none_run-mark_recovered [] h = refl
none_run-mark_recovered (op ∷ ops) h = elim (Bool-cases (is_interrupted op)) [
  | inl e ↦ rw e (ground arith)
  | inr e ↦ rw e (ground (arith, none_run-mark_recovered ops))
]

pub cut_off_all_quiet : (ops : List Operation) → none_run ops ≡ true → cut_off_all ops ≡ ops
unfolding none_run cut_off_all cut_off
cut_off_all_quiet [] h = refl
cut_off_all_quiet (op ∷ ops) h =
    let quiet : runs op.state ≡ false = ground arith in
    rw (quiet, cut_off_all_quiet ops (ground arith)) refl

module _ (lib : HostLibrary) (a : Active) (s key : String) where
  -- The operations are marked, and the journal leads back.
  unfoldable pub Rollable : Cutover → World → Type 0
  Rollable c w =
      (w.settings ≡ s)
      × (none_run w.history ≡ true)
      × (interrupted w.history ≡ some c)
      × (interrupted (mark_recovered w.history) ≡ none)

  pub Rollable-steady :
      (c : Cutover) (v w : World) → steady v ≡ steady w → Rollable c w → Rollable c v
  unfolding Rollable steady
  Rollable-steady c v w e h =
      subst
        (λ x.
          (x.1.0 ≡ s)
          × (none_run x.2 ≡ true)
          × (interrupted x.2 ≡ some c)
          × (interrupted (mark_recovered x.2) ≡ none))
        (sym e) h

  pub Rollable-Restorable :
      (c : Cutover) (w : World) → Journals lib a s key c → Rollable c w → Restorable lib a s key w
  unfolding Rollable Restorable
  Rollable-Restorable c w jo (e, quiet, found, single) =
      let same = cut_off_all_quiet w.history quiet in
      (e, inr (c, rw same found, jo, rw same single))

  -- What a restart leaves: the generation is active, or the node has failed and the next restart
  -- tries again.
  unfoldable pub Back : World → Type 0
  Back w = Restorable lib a s key w × ((active w ≡ a) ⊎ (w.node.phase ≡ NodePhase.failed))

-- A call that keeps all of the state, before the rest.
pub steadily :
    {A B : Type 0} {Q : B → World → Type 0} {E C : World → Type 0} (T : World → Type 0)
    → ((v w : World) → steady v ≡ steady w → T w → T v)
    → ((v : World) → T v → E v × C v)
    → (m : M A) (f : A → M B) (w : World) → Preserves steady m
    → T w
    → ((x : A) (v : World) → T v → Ends Q E C (f x v))
    → Ends Q E C ((m >>= f) w)
steadily T tr out m f w p t k =
    Ends-bind (λ x. T) m f w
      (Ends-weaken (m w) (Preserves-Ends steady m (steady w) w p refl) (λ x v e. tr v w e t)
        (λ v e. (out v (tr v w e t)).0) (λ v e. (out v (tr v w e t)).1))
      k

pub this_env-steady : Preserves steady this_env
unfolding this_env
this_env-steady w = elim (Bool-cases w.has_env) [ inl e ↦ rw e refl | inr e ↦ rw e refl ]

pub read_env-steady : Preserves steady read_env
unfolding read_env
read_env-steady = search (Preserves-bind, call-steady, this_env-steady)

pub resume_wanted-steady : Preserves steady resume_wanted
unfolding resume_wanted bring_up
resume_wanted-steady =
    search
      (
        Preserves-bind, Preserves-if, this_node-steady, call-steady, wait_for_ready-steady,
        require-steady, set_phase-steady,
      )
      depth 20
