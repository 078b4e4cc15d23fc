-- ===== src/Manager/Kept.antt =====
-- What the steps of the node manager keep (apps/manager/src/node-manager.ts): nearly all of them
-- leave the active generation, and what a restart reads of the operation records, as they were.
pub mod Steps
pub mod Quiet
use neuromem.Prelude.{
  ℕ, zero, suc, ◌+◌, String, Bool, true, false, ◌≡◌, refl, ◌∙◌, ap, inl, inr, Option, none, some,
  List, [], ◌∷◌, Bool-cases, if◌then◌else◌, arith,
}
use neuromem.Nodes.State.{NodePhase, NodeRecord}
use neuromem.Nodes.Operations.{OperationState}
use neuromem.Manager.World.{
  Cutover, Operation, World, Result, ok, thrown, crashed, M, bind_result, ◌>>=◌, ◌>>◌, return,
  throw, handled, catch, finally, attempt, write, answered, ask, call, observe, require, save,
  this_node, amend_node, set_phase, patch_first, amend, enter_phase, Report, BackupManifest,
}

-- What is read of the node: the generation, the schema and the volume.
pub record Active : Type 0 where
  pub generation : ℕ
  pub schema : String
  pub volume : String

unfoldable pub active : World → Active
active w = record {
  generation = w.node.generation;
  schema = w.node.schema_revision;
  volume = w.volume;
}

unfoldable pub mark : List Operation → Option (OperationState × Option Cutover × Bool)
mark [] = none
mark (op ∷ ops) = some (op.state, op.cutover, op.recovery)

unfoldable pub older : List Operation → List Operation
older [] = []
older (op ∷ ops) = ops

-- The part of the state that a cutover keeps: the rest of the `.env`, the id of the node, the older operations, and
-- the state, the journal and the recovery of the newest one.
pub record Frame : Type 0 where
  pub settings : String
  pub node_id : String
  pub newest : Option (OperationState × Option Cutover × Bool)
  pub others : List Operation

unfoldable pub framed : World → Frame
unfolding mark older
framed w = record {
  settings = w.settings;
  node_id = w.node.node_id;
  newest = mark w.history;
  others = older w.history;
}

unfoldable pub kept : World → Active × Frame
unfolding active framed
kept w = (active w, framed w)

-- All of the state that the operations of this model are about, less the phase.
unfoldable pub steady : World → Active × (String × String × Bool) × List Operation
unfolding active
steady w = (active w, (w.settings, w.node.node_id, w.has_env), w.history)

abbrev pub Preserves : {A B : Type 0} → (World → B) → M A → Type 0
Preserves v m = (w : World) → v (m w).1 ≡ v w

module _ {B : Type 0} (v : World → B) where
  bind_result-Preserves :
      {A C : Type 0} (r : Result A) (w : World) (f : A → M C)
      → ((a : A) → Preserves v (f a))
      → v (bind_result r w f).1 ≡ v w
  unfolding bind_result
  bind_result-Preserves (ok a) w f h = h a w
  bind_result-Preserves thrown w f h = refl
  bind_result-Preserves crashed w f h = refl

  handled-Preserves :
      {A : Type 0} (r : Result A) (w : World) (h : M A) → Preserves v h → v (handled r w h).1 ≡ v w
  unfolding handled
  handled-Preserves (ok a) w h p = refl
  handled-Preserves thrown w h p = p w
  handled-Preserves crashed w h p = refl

pub Preserves-bind :
    {A B C : Type 0} (v : World → B) (m : M A) (f : A → M C)
    → Preserves v m
    → ((a : A) → Preserves v (f a))
    → Preserves v (m >>= f)
unfolding ◌>>=◌
Preserves-bind v m f p q w = bind_result-Preserves v (m w).0 (m w).1 f q ∙ p w

pub Preserves-catch :
    {A B : Type 0} (v : World → B) (m h : M A)
    → Preserves v m
    → Preserves v h
    → Preserves v (catch m h)
unfolding catch
Preserves-catch v m h p q w = handled-Preserves v (m w).0 (m w).1 h q ∙ p w

pub Preserves-if :
    {A B : Type 0} (v : World → B) (b : Bool) (m n : M A)
    → Preserves v m
    → Preserves v n
    → Preserves v (if b then m else n)
Preserves-if v true m n p q = p
Preserves-if v false m n p q = q

pub Preserves-return : {A B : Type 0} (v : World → B) (a : A) → Preserves v (return a)
unfolding return
Preserves-return v a w = refl

pub Preserves-throw : {B : Type 0} (v : World → B) (A : Type 0) → Preserves v (throw {A = A})
unfolding throw
Preserves-throw v A w = refl

pub Preserves-write :
    {B : Type 0} (v : World → B) (f : World → World)
    → ((w : World) → v (record w { tick = w.tick + 1 }) ≡ v w)
    → ((w : World) → v (f (record w { tick = w.tick + 1 })) ≡ v w)
    → Preserves v (write f)
unfolding write
Preserves-write v f t h w = elim (Bool-cases (w.crashes w.tick)) [
  | inl e ↦ rw e (t w)
  | inr e ↦ rw e (h w)
]

answered-steady : (o : Option Report) (w : World) → steady (answered o w).1 ≡ steady w
unfolding answered
answered-steady none w = refl
answered-steady (some r) w = refl

pub ask-steady : Preserves steady ask
unfolding ask steady active
ask-steady w = elim (Bool-cases (w.crashes w.tick)) [
  | inl e ↦ rw e refl
  | inr e ↦ rw e (answered-steady (w.answers w.tick) (record w { tick = w.tick + 1 }))
]

pub call-steady : Preserves steady call
unfolding call
call-steady = search (Preserves-bind, Preserves-return, ask-steady)

pub steady-kept : {A : Type 0} (m : M A) → Preserves steady m → Preserves kept m
unfolding steady kept framed
steady-kept m p w =
    ap
      (λ v.
        (v.0, record { settings = v.1.0; node_id = v.1.1; newest = mark v.2; others = older v.2 }))
      (p w)
