-- ===== src/Manager/Atomic.antt =====
-- A restore is atomic (apps/manager/src/node-manager.ts): the proof, from the cutover outwards.
use neuromem.Prelude.{
  ℕ, ◌+◌, String, false, ◌≡◌, refl, sym, ◌∙◌, ap, subst, inr, Option, none, some, List,
}
use neuromem.Nodes.State.{DesiredState, NodePhase, NodeRecord}
use neuromem.Nodes.Operations.{running}
use neuromem.Manager.World.{
  Cutover, Operation, World, HostLibrary, M, ◌>>=◌, ◌>>◌, attempt, call, throw, set_phase, return,
  amend_node,
}
use neuromem.Manager.Status.{NodeStatus}
use neuromem.Manager.Generations.{
  this_env, read_env, write_volume, enter_generation, bring_up, switch, rolled_back_phase,
  roll_back, cutover,
}
use neuromem.Manager.Kept.{
  Active, Frame, active, framed, kept, Preserves, Preserves-bind, Preserves-catch, Preserves-return,
}
use neuromem.Manager.Kept.Quiet.{
  call-kept, attempt-kept, require-kept, set_phase-kept, wait_for_ready-kept,
}
use neuromem.Manager.Ends.{
  Ends-if, Ends, Holds, Ends-bind, Ends-catch, Ends-weaken, Preserves-Ends, write-Ends,
}
use neuromem.Manager.Journal.{
  frame, pending, Journals, Prepared, Restorable, At, Open, At-Open, Unfinished, Open-Restorable,
  kept-then,
}

pub bring_up-kept : Preserves kept bring_up
unfolding bring_up
bring_up-kept =
    search (
      Preserves-bind, Preserves-return, call-kept, wait_for_ready-kept, require-kept,
      set_phase-kept,
    )

rolled_back_phase-kept : Preserves kept rolled_back_phase
unfolding rolled_back_phase
rolled_back_phase-kept =
    search (Preserves-catch, Preserves-bind, Preserves-return, wait_for_ready-kept)

abbrev entered : ℕ → String → World → World
entered g schema w = record w {
  node = record w.node {
    generation = g;
    schema_revision = schema;
    desired_state = DesiredState.running;
    phase = NodePhase.starting;
  };
}

-- The two writes that make a generation active, and the rest of the call.
change-then :
    {A : Type 0} {Q : A → World → Type 0} {E C : World → Type 0} (f : Frame) (g : ℕ)
    (schema volume : String) (m : M A) (w : World)
    → framed w ≡ f
    → ((v : World) → framed v ≡ f → C v)
    → ((v : World)
        → kept v ≡ (record { generation = g; schema = schema; volume = volume }, f)
        → Ends Q E C (m v))
    → Ends Q E C ((do write_volume volume; enter_generation g schema; m) w)
unfolding write_volume enter_generation amend_node framed kept active
change-then f g schema volume m w e c k =
    Ends-bind (λ x v. (framed v ≡ f) × (v.volume ≡ volume)) (write_volume volume)
      (λ x. enter_generation g schema >> m) w
      (write-Ends (λ v. record v { volume = volume }) w (c _ e) (e, refl))
      (λ x v h.
        Ends-bind (λ y u. kept u ≡ (record { generation = g; schema = schema; volume = volume }, f))
          (enter_generation g schema) (λ y. m) v
          (write-Ends (entered g schema) v (c (record v { tick = v.tick + 1 }) h.0)
            (λ i. (record { generation = g; schema = schema; volume = h.1 i }, h.0 i)))
          (λ y u. k u))

call-framed : Preserves framed call
unfolding kept
call-framed w = ap (λ k. k.1) (call-kept w)

-- A call whose error is caught.
attempt-Ends :
    {P E C : World → Type 0} (m : M (Unit {0})) (w : World)
    → Ends (λ x. P) P P (m w)
    → ((v : World) → P v → C v)
    → Ends (λ x. P) E C (attempt m w)
unfolding attempt return Holds
attempt-Ends {P} m w h c =
    Ends-catch P m (return tt) w (Ends-weaken (m w) h (λ x v e. e) (λ v e. e) c)
      (λ v e. record { holds = e })

module _ (lib : HostLibrary) (a : Active) (s key : String) (os : List Operation)
    (empty : pending os ≡ none) where
  -- The `.env` is read as it is.
  pub read_env-then :
      {A : Type 0} {Q : A → World → Type 0} (j : Option Cutover) (f : String × String → M A)
      (w : World)
      → Prepared lib a s key j
      → At lib a s key os j w
      → ((v : World)
          → At lib a s key os j v
          → Ends Q (Unfinished lib a s key os) (Restorable lib a s key) (f (a.volume, s) v))
      → Ends Q (Unfinished lib a s key os) (Restorable lib a s key) ((read_env >>= f) w)
  unfolding read_env this_env Holds At kept return throw Unfinished
  read_env-then {Q} j f w pr h k =
      Ends-bind (λ env v. (env ≡ (a.volume, s)) × At lib a s key os j v) read_env f w
        (kept-then lib a s key os j call (λ x. this_env) w call-kept pr empty h
          (λ x v l.
            Ends-if v.has_env (return (v.volume, v.settings)) throw v
              (λ e. record { holds = (λ i. ((l i).0.volume, (l i).1.settings), l) })
              (λ e. record { holds = (j, pr, l) })))
        (λ env v l.
          subst (λ e. Ends Q (Unfinished lib a s key os) (Restorable lib a s key) (f e v)) (sym l.0)
            (k v l.1))

module _ (lib : HostLibrary) (a : Active) (s key : String) (os : List Operation)
    (empty : pending os ≡ none) where
  module _ (c : Cutover) (jo : Journals lib a s key c) where
    switch-Ends :
        (g : ℕ) (schema volume : String) (w : World)
        → Open lib a s key os (some c) w
        → Ends
            (λ x v. kept v ≡ (
              record { generation = g; schema = schema; volume = volume },
              frame s key (running, some c, false) os,
            ))
            (Open lib a s key os (some c))
            (Restorable lib a s key)
            (switch volume g schema w)
    unfolding switch Open kept
    switch-Ends g schema volume w o =
        change-then (frame s key (running, some c, false) os) g schema volume bring_up w o
          (λ v. Open-Restorable lib a s key os c v jo empty)
          (λ v h.
            Ends-weaken (bring_up v) (Preserves-Ends kept bring_up _ v bring_up-kept h) (λ x u e. e)
              (λ u e. ap (λ k. k.1) e)
              (λ u e. Open-Restorable lib a s key os c u jo empty (ap (λ k. k.1) e)))

    prepared : Prepared lib a s key (some c)
    unfolding Prepared
    prepared = inr (c, refl, jo)

    settle_back-Ends :
        {Q : NodeStatus → World → Type 0} (w : World)
        → At lib a s key os (some c) w
        → Ends Q
            (Unfinished lib a s key os)
            (Restorable lib a s key)
            ((do attempt call; p ← rolled_back_phase; set_phase p; throw {A = NodeStatus}) w)
    unfolding Unfinished throw Holds
    settle_back-Ends w h =
        let j : Option Cutover = some c in
        kept-then lib a s key os j (attempt call) _ w (attempt-kept call call-kept) prepared empty h
          (λ x u k.
            kept-then lib a s key os j rolled_back_phase _ u rolled_back_phase-kept prepared empty k
              (λ p t l.
                kept-then lib a s key os j (set_phase p) _ t (set_phase-kept p) prepared empty l
                  (λ y r q. record { holds = (j, prepared, q) })))

    roll_back-Ends :
        {Q : NodeStatus → World → Type 0} (n : NodeRecord) (w : World)
        → n.generation ≡ a.generation
        → n.schema_revision ≡ a.schema
        → Open lib a s key os (some c) w
        → Ends Q (Unfinished lib a s key os) (Restorable lib a s key) (roll_back n a.volume w)
    unfolding roll_back Open At kept
    roll_back-Ends {Q} n w e f o =
        let j : Option Cutover = some c in
        Ends-bind (λ x. Open lib a s key os j) (attempt call) _ w
          (attempt-Ends call w
            (Preserves-Ends framed call (frame s key (running, j, false) os) w call-framed o)
            (λ v h. Open-Restorable lib a s key os c v jo empty h))
          (λ x v h.
            change-then (frame s key (running, j, false) os) n.generation n.schema_revision a.volume
              (do attempt call; p ← rolled_back_phase; set_phase p; throw) v h
              (λ u. Open-Restorable lib a s key os c u jo empty)
              (λ u k. settle_back-Ends u (
                k ∙ (λ i. (
                  record { generation = e i; schema = f i; volume = a.volume },
                  frame s key (running, j, false) os,
                )))))

    pub cutover-Ends :
        (n : NodeRecord) (volume : String) (g : ℕ) (schema : String) (w : World)
        → n.generation ≡ a.generation
        → n.schema_revision ≡ a.schema
        → At lib a s key os (some c) w
        → Ends
            (λ x v. kept v ≡ (
              record { generation = g; schema = schema; volume = volume },
              frame s key (running, some c, false) os,
            ))
            (Unfinished lib a s key os)
            (Restorable lib a s key)
            (cutover n volume g schema w)
    unfolding cutover
    cutover-Ends n volume g schema w e f h =
        let j : Option Cutover = some c in
        read_env-then lib a s key os empty j _ w prepared h (λ u k.
          kept-then lib a s key os j call _ u call-kept prepared empty k (λ x t l.
            Ends-catch (Open lib a s key os j) (switch volume g schema) (roll_back n a.volume) t
              (switch-Ends g schema volume t (At-Open lib a s key os j t l))
              (λ v o. roll_back-Ends n v e f o)))
