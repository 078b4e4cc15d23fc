-- ===== src/Manager/Journal.antt =====
-- What a restart of the manager finds in the operation records (apps/manager/src/node-manager.ts):
-- the states that a cutover goes through, and how the process may leave them.
use neuromem.Prelude.{
  String, Bool, false, ◌≡◌, refl, ◌∙◌, ap, subst, inl, inr, ◌⊎◌, Option, none, some, List, [], ◌∷◌,
  arith,
}
use neuromem.Nodes.Operations.{OperationState, running, failed, succeeded}
use neuromem.Manager.World.{Cutover, Operation, World, HostLibrary, M, ◌>>=◌}
use neuromem.Manager.Restart.{
  cut_off, cut_off_all, runs, is_interrupted, interrupted, wants_attention, mark_recovered,
}
use neuromem.Manager.Kept.{Active, Frame, active, mark, older, framed, kept, Preserves}
use neuromem.Manager.Ends.{Ends, Ends-bind, Ends-weaken, Preserves-Ends}

-- The journal that a restart would act on.
abbrev pub pending : List Operation → Option Cutover
pending ops = interrupted (cut_off_all ops)

abbrev pub frame : String → String → OperationState × Option Cutover × Bool → List Operation → Frame
frame s key newest os = record { settings = s; node_id = key; newest = some newest; others = os }

pending_without :
    (ops : List Operation) (st : OperationState) (j : Option Cutover) (b : Bool)
    → mark ops ≡ some (st, j, b)
    → ((st ≡ running) × (j ≡ none)) ⊎ ((st ≡ failed) ⊎ (st ≡ succeeded))
    → pending ops ≡ pending (older ops)
unfolding mark older interrupted cut_off_all cut_off runs is_interrupted wants_attention
pending_without [] st j b e h = refl
pending_without (op ∷ ops) st j b e h = ground arith

pending_journal :
    (ops : List Operation) (c : Cutover)
    → mark ops ≡ some (running, some c, false)
    → pending ops ≡ some c
unfolding mark older interrupted cut_off_all cut_off runs is_interrupted wants_attention
pending_journal [] c e = ground arith
pending_journal (op ∷ ops) c e =
    let state_is : op.state ≡ running = ground arith in
    let cutover_is : op.cutover ≡ some c = ground arith in
    let recovery_is : op.recovery ≡ false = ground arith in
    rw (state_is, cutover_is, recovery_is) refl

-- Once that journal is recorded as rolled back, the older operations count.
pending_recovered :
    (ops : List Operation) (c : Cutover)
    → mark ops ≡ some (running, some c, false)
    → interrupted (mark_recovered (cut_off_all ops)) ≡ pending (older ops)
unfolding mark older interrupted cut_off_all cut_off runs is_interrupted wants_attention
    mark_recovered
pending_recovered [] c e = ground arith
pending_recovered (op ∷ ops) c e =
    let state_is : op.state ≡ running = ground arith in
    let cutover_is : op.cutover ≡ some c = ground arith in
    let recovery_is : op.recovery ≡ false = ground arith in
    rw (state_is, cutover_is, recovery_is) refl

module _ (lib : HostLibrary) (a : Active) (s key : String) where
  -- A journal that leads back to the generation.
  unfoldable pub Journals : Cutover → Type 0
  Journals c =
      (c.from_generation ≡ a.generation)
      × (c.from_schema ≡ a.schema)
      × (c.from_volume ≡ a.volume)
      × (c.env_sha256 ≡ lib.digest a.volume s)

  -- The newest operation has no journal, or one that leads back.
  unfoldable pub Prepared : Option Cutover → Type 0
  unfolding Journals
  Prepared j = (j ≡ none) ⊎ ((c : Cutover) × (j ≡ some c) × Journals c)

  -- A restart finds the generation active, with nothing to do.
  unfoldable pub Settled : World → Type 0
  Settled w =
      (active w ≡ a) × (w.settings ≡ s) × (w.node.node_id ≡ key) × (pending w.history ≡ none)

  -- A restart finds the generation active, or one journal, which leads back to it.
  unfoldable pub Restorable : World → Type 0
  unfolding Journals
  Restorable w =
      (w.settings ≡ s)
      × (((active w ≡ a) × (pending w.history ≡ none))
          ⊎ ((c : Cutover) × (pending w.history ≡ some c)
              × Journals c
              × (interrupted (mark_recovered (cut_off_all w.history)) ≡ none)))

  pub Settled-Restorable : (w : World) → Settled w → Restorable w
  unfolding Settled Restorable
  Settled-Restorable w h = (h.1, inl (h.0, h.3))

  module _ (os : List Operation) where
    -- The generation is active, and the operation runs with this journal.
    unfoldable pub At : Option Cutover → World → Type 0
    At j w = kept w ≡ (a, frame s key (running, j, false) os)

    -- The operation runs with this journal.
    unfoldable pub Open : Option Cutover → World → Type 0
    Open j w = framed w ≡ frame s key (running, j, false) os

    pub At-Open : (j : Option Cutover) (w : World) → At j w → Open j w
    unfolding At Open kept
    At-Open j w h = ap (λ k. k.1) h

    pub At-active : (j : Option Cutover) (w : World) → At j w → active w ≡ a
    unfolding At kept
    At-active j w h = ap (λ k. k.0) h

    -- How an operation that has not come to its end leaves the state when it throws.
    unfoldable pub Unfinished : World → Type 0
    unfolding Prepared At
    Unfinished w = (j : Option Cutover) × Prepared j × At j w

    pub Open-Restorable :
        (c : Cutover) (w : World) → Journals c → pending os ≡ none → Open (some c) w → Restorable w
    unfolding Open Restorable framed
    Open-Restorable c w jo empty o = (
      ap (λ f. f.settings) o,
      inr (
        c,
        pending_journal w.history c (ap (λ f. f.newest) o),
        jo,
        pending_recovered w.history c (ap (λ f. f.newest) o)
            ∙ (ap (λ f. pending f.others) o ∙ empty),
      ),
    )

    pub ended-Settled :
        (st : OperationState) (j : Option Cutover) (w : World)
        → ((st ≡ running) × (j ≡ none)) ⊎ ((st ≡ failed) ⊎ (st ≡ succeeded))
        → pending os ≡ none
        → kept w ≡ (a, frame s key (st, j, false) os)
        → Settled w
    unfolding Settled kept framed
    ended-Settled st j w h empty e = (
      ap (λ k. k.0) e,
      ap (λ k. k.1.settings) e,
      ap (λ k. k.1.node_id) e,
      pending_without w.history st j false (ap (λ k. k.1.newest) e) h
          ∙ (ap (λ k. pending k.1.others) e ∙ empty),
    )

    pub At-Restorable :
        (j : Option Cutover) (w : World) → Prepared j → pending os ≡ none → At j w → Restorable w
    unfolding Prepared At Open
    At-Restorable j w (inl e) empty h =
        Settled-Restorable w (ended-Settled running j w (inl (refl, e)) empty h)
    At-Restorable j w (inr (c, e, jo)) empty h =
        Open-Restorable c w jo empty (subst (λ i. Open i w) e (At-Open j w h))

    -- A call that keeps everything, before the rest of the operation.
    pub kept-then :
        {A B : Type 0} {Q : B → World → Type 0} (j : Option Cutover) (m : M A) (f : A → M B)
        (w : World)
        → Preserves kept m
        → Prepared j
        → pending os ≡ none
        → At j w
        → ((x : A) (v : World) → At j v → Ends Q Unfinished Restorable (f x v))
        → Ends Q Unfinished Restorable ((m >>= f) w)
    unfolding At Unfinished
    kept-then j m f w p pr empty h k =
        Ends-bind (λ x. At j) m f w
          (Ends-weaken (m w) (Preserves-Ends kept m (a, frame s key (running, j, false) os) w p h)
            (λ x v e. e) (λ v e. (j, pr, e)) (λ v e. At-Restorable j v pr empty e))
          k
