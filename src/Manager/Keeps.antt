-- ===== src/Manager/Keeps.antt =====
-- What the steps of the node manager do not change (apps/manager/src/node-manager.ts): the
-- generation, the `.env` and the id of the node.
use neuromem.Prelude.{ℕ, ◌+◌, String, Bool, true, false, if◌then◌else◌, ◌∙◌, ◌≡◌, refl, ap, ◌∷◌}
use neuromem.Nodes.State.{NodePhase, NodeRecord}
use neuromem.Nodes.Operations.{OperationKind}
use neuromem.Manager.World.{
  BackupManifest, Operation, World, Result, ok, thrown, crashed, M, ◌>>=◌, bind_result, handled,
  catch, return, attempt, write, ask, call, require, this_node, amend_node, set_phase, begun, begin,
  amend, succeed, fail_operation, patch_first,
}
use neuromem.Manager.Status.{wait_for_ready}
use neuromem.Manager.Backups.{locate_backup, verify_located_backup}
use neuromem.Manager.Lifecycle.{call_if}
use neuromem.Manager.Kept.{active, steady, Preserves, Preserves-write, ask-steady, call-steady}
use neuromem.Manager.Kept.Steps.{
  require-steady, this_node-steady, wait_for_ready-steady, locate_backup-steady,
  verify_located_backup-steady,
}

-- The generation, the `.env` and the id of the node.
unfoldable pub identity : World → ℕ × Bool × String × String × String
identity w = (w.node.generation, w.has_env, w.volume, w.settings, w.node.node_id)

-- What the call leaves of a node that has its `.env`.
unfoldable pub Keeps : {A : Type 0} → M A → Type 0
Keeps m = (w : World) → w.has_env ≡ true → identity (m w).1 ≡ identity w

identity-Keeps : {A : Type 0} (m : M A) → Preserves identity m → Keeps m
unfolding Keeps
identity-Keeps m p w h = p w

still_there : (v w : World) → identity v ≡ identity w → w.has_env ≡ true → v.has_env ≡ true
unfolding identity
still_there v w e h = ap (λ x. x.1) e ∙ h

bind_result-Keeps :
    {A B : Type 0} (r : Result A) (v : World) (f : A → M B)
    → ((a : A) → Keeps (f a))
    → v.has_env ≡ true
    → identity (bind_result r v f).1 ≡ identity v
unfolding bind_result Keeps
bind_result-Keeps (ok a) v f q h = q a v h
bind_result-Keeps thrown v f q h = refl
bind_result-Keeps crashed v f q h = refl

pub Keeps-bind :
    {A B : Type 0} (m : M A) (f : A → M B) → Keeps m → ((a : A) → Keeps (f a)) → Keeps (m >>= f)
unfolding ◌>>=◌ Keeps
Keeps-bind m f p q w h =
    bind_result-Keeps (m w).0 (m w).1 f q (still_there (m w).1 w (p w h) h) ∙ p w h

handled-Keeps :
    {A : Type 0} (r : Result A) (v : World) (k : M A)
    → Keeps k
    → v.has_env ≡ true
    → identity (handled r v k).1 ≡ identity v
unfolding handled Keeps
handled-Keeps (ok a) v k q h = refl
handled-Keeps thrown v k q h = q v h
handled-Keeps crashed v k q h = refl

pub Keeps-catch : {A : Type 0} (m k : M A) → Keeps m → Keeps k → Keeps (catch m k)
unfolding catch Keeps
Keeps-catch m k p q w h =
    handled-Keeps (m w).0 (m w).1 k q (still_there (m w).1 w (p w h) h) ∙ p w h

pub Keeps-if : {A : Type 0} (b : Bool) (m n : M A) → Keeps m → Keeps n → Keeps (if b then m else n)
Keeps-if true m n p q = p
Keeps-if false m n p q = q

pub Keeps-return : {A : Type 0} (a : A) → Keeps (return a)
unfolding Keeps return
Keeps-return a w h = refl

pub steady-Keeps : {A : Type 0} (m : M A) → Preserves steady m → Keeps m
unfolding identity steady active Keeps
steady-Keeps m p w h = ap (λ v. (v.0.generation, v.1.2, v.0.volume, v.1.0, v.1.1)) (p w)

pub write-Keeps :
    (f : World → World) → ((w : World) → identity (f w) ≡ identity w) → Keeps (write f)
unfolding identity
write-Keeps f h =
    identity-Keeps (write f)
      (Preserves-write identity f (λ w. refl) (λ w. h (record w { tick = w.tick + 1 })))

pub call-Keeps : Keeps call
call-Keeps = steady-Keeps call call-steady

pub ask-Keeps : Keeps ask
ask-Keeps = steady-Keeps ask ask-steady

pub require-Keeps : (b : Bool) → Keeps (require b)
require-Keeps b = steady-Keeps (require b) (require-steady b)

pub amend_node-Keeps :
    (f : NodeRecord → NodeRecord)
    → ((n : NodeRecord) → (f n).generation ≡ n.generation)
    → ((n : NodeRecord) → (f n).node_id ≡ n.node_id)
    → Keeps (amend_node f)
unfolding amend_node identity
amend_node-Keeps f g k =
    write-Keeps (λ w. record w { node = f w.node })
      (λ w. λ i. (g w.node i, w.has_env, w.volume, w.settings, k w.node i))

pub set_phase-Keeps : (p : NodePhase) → Keeps (set_phase p)
unfolding set_phase
set_phase-Keeps p = amend_node-Keeps (λ n. record n { phase = p }) (λ n. refl) (λ n. refl)

pub begin-Keeps : (kind : OperationKind) (phase : String) → Keeps (begin kind phase)
unfolding begin identity
begin-Keeps kind phase =
    write-Keeps (λ w. record w { history = begun kind phase ∷ w.history }) (λ w. refl)

pub amend-Keeps : (f : Operation → Operation) → Keeps (amend f)
unfolding amend identity
amend-Keeps f = write-Keeps (λ w. record w { history = patch_first f w.history }) (λ w. refl)

pub succeed-Keeps : (phase : String) → Keeps (succeed phase)
unfolding succeed
succeed-Keeps phase = amend-Keeps _

pub fail_operation-Keeps : Keeps fail_operation
unfolding fail_operation
fail_operation-Keeps = amend-Keeps _

pub call_if-Keeps : (b : Bool) → Keeps (call_if b)
unfolding call_if
call_if-Keeps b = search (Keeps-if, Keeps-return, call-Keeps)

pub attempt-Keeps : (m : M (Unit {0})) → Keeps m → Keeps (attempt m)
unfolding attempt
attempt-Keeps m p = search (Keeps-catch, Keeps-return, p)

pub wait_for_ready-Keeps : Keeps wait_for_ready
wait_for_ready-Keeps = steady-Keeps wait_for_ready wait_for_ready-steady

pub locate_backup-Keeps : (n : NodeRecord) (id : String) → Keeps (locate_backup n id)
locate_backup-Keeps n id = steady-Keeps (locate_backup n id) (locate_backup-steady n id)

pub verify_located_backup-Keeps : (m : BackupManifest) → Keeps (verify_located_backup m)
verify_located_backup-Keeps m =
    steady-Keeps (verify_located_backup m) (verify_located_backup-steady m)

pub this_node-Keeps : Keeps this_node
this_node-Keeps = steady-Keeps this_node this_node-steady
