-- ===== src/Manager/Replacement.antt =====
-- The journal and the replacement of a generation (apps/manager/src/node-manager.ts): the proof that
-- every way out leaves the new generation, the old one, or a journal that leads back to it.
use neuromem.Prelude.{
  ℕ, ◌+◌, String, Bool, false, ◌≡◌, refl, ◌∙◌, ap, inl, inr, ◌⊎◌, Option, none, some, List, [], ◌∷◌,
  arith,
}
use neuromem.Nodes.State.{NodeRecord}
use neuromem.Nodes.Operations.{OperationState, running, failed, succeeded}
use neuromem.Manager.World.{
  Cutover, Operation, World, HostLibrary, ◌>>=◌, ◌>>◌, call, throw, return, patch_first, amend,
  succeed, fail_operation, BackupManifest,
}
use neuromem.Manager.Staging.{VerificationMode, volume_name, next_unused_generation, stage_database}
use neuromem.Manager.Generations.{
  journal, journal_cutover, cutover, found_generation, revision_or, replace_generation,
  resume_existing_generation, abandon,
}
use neuromem.Manager.Kept.{
  Active, active, mark, framed, kept, Preserves, Preserves-bind, Preserves-catch, Preserves-if,
}
use neuromem.Manager.Kept.Quiet.{
  call-kept, attempt-kept, set_phase-kept, wait_for_ready-kept, patch_first-older,
  next_unused_generation-kept, stage_database-kept,
}
use neuromem.Manager.Ends.{Ends, Ends-bind, Ends-weaken, write-Ends}
use neuromem.Manager.Journal.{
  frame, pending, Journals, Prepared, Restorable, At, Open, Unfinished, Open-Restorable,
  At-Restorable, kept-then,
}
use neuromem.Manager.Atomic.{read_env-then, cutover-Ends}

found_generation-kept : (o : Option ℕ) → Preserves kept (found_generation o)
unfolding found_generation return throw
found_generation-kept none w = refl
found_generation-kept (some g) w = refl

resume_existing_generation-kept : (n : NodeRecord) → Preserves kept (resume_existing_generation n)
unfolding resume_existing_generation
resume_existing_generation-kept n = search (
  Preserves-if, Preserves-bind, Preserves-catch, attempt-kept, call-kept, wait_for_ready-kept,
  set_phase-kept,
)

journal-mark :
    (c : Cutover) (ops : List Operation) (st : OperationState) (j : Option Cutover) (b : Bool)
    → mark ops ≡ some (st, j, b)
    → mark (patch_first (λ op. record op { phase = "cutover_prepared"; cutover = some c }) ops)
      ≡ some (st, some c, b)
unfolding mark patch_first
journal-mark c [] st j b e = ground arith
journal-mark c (op ∷ ops) st j b e = ground arith

pub end-mark :
    (phase : String) (ops : List Operation) (st : OperationState) (j : Option Cutover) (b : Bool)
    → mark ops ≡ some (st, j, b)
    → (mark (patch_first (λ op. record op { state = failed; phase = phase }) ops)
        ≡ some (failed, j, b))
      × (mark
            (patch_first (λ op. record op { state = succeeded; phase = phase; cutover = none }) ops)
          ≡ some (succeeded, none, b))
unfolding mark patch_first
end-mark phase [] st j b e = ground arith
end-mark phase (op ∷ ops) st j b e = ground arith

module _ (lib : HostLibrary) (a : Active) (s key : String) (os : List Operation) where
  -- The operation has failed, with the generation as it was.
  unfoldable pub Failed : World → Type 0
  unfolding kept
  Failed w = (j : Option Cutover) × (kept w ≡ (a, frame s key (failed, j, false) os))

  -- It has failed, or it has succeeded with a new generation.
  unfoldable pub Ended : NodeRecord → World → Type 0
  unfolding kept Failed
  Ended n w =
      Failed w
      ⊎ ((g : ℕ) × (schema : String) × (kept w ≡ (
        record { generation = g; schema = schema; volume = volume_name lib n g },
        frame s key (succeeded, none, false) os,
      )))

module _ (lib : HostLibrary) (a : Active) (s key : String) (os : List Operation)
    (empty : pending os ≡ none) where
  new_journal : NodeRecord → ℕ → String → String → Cutover
  new_journal n g volume schema = record {
    from_generation = n.generation;
    from_volume = a.volume;
    from_schema = n.schema_revision;
    to_generation = g;
    to_volume = volume;
    to_schema = schema;
    env_sha256 = lib.digest a.volume s;
  }

  journal-Ends :
      (n : NodeRecord) (g : ℕ) (volume schema : String) (w : World)
      → At lib a s key os none w
      → Ends
          (λ x. At lib a s key os (some (new_journal n g volume schema)))
          (Unfinished lib a s key os)
          (Restorable lib a s key)
          (journal lib n g volume schema (a.volume, s) w)
  unfolding journal new_journal amend At Prepared kept framed active
  journal-Ends n g volume schema w h =
      let c = new_journal n g volume schema in
      write-Ends
        (λ v. record v {
          history =
              patch_first (λ op. record op { phase = "cutover_prepared"; cutover = some c })
                v.history;
        })
        w (At-Restorable lib a s key os none (record w { tick = w.tick + 1 }) (inl refl) empty h)
        (λ i. (
          (h i).0,
          record {
            settings = (h i).1.settings;
            node_id = (h i).1.node_id;
            newest = journal-mark c w.history running none false (ap (λ k. k.1.newest) h) i;
            others =
                (patch_first-older
                      (λ op. record op { phase = "cutover_prepared"; cutover = some c }) w.history
                    ∙ ap (λ k. k.1.others) h)
                  i;
          },
        ))

  journal_cutover-Ends :
      (n : NodeRecord) (g : ℕ) (volume schema : String) (w : World)
      → At lib a s key os none w
      → Ends
          (λ x. At lib a s key os (some (new_journal n g volume schema)))
          (Unfinished lib a s key os)
          (Restorable lib a s key)
          (journal_cutover lib n g volume schema w)
  unfolding journal_cutover Prepared
  journal_cutover-Ends n g volume schema w h =
      kept-then lib a s key os none call _ w call-kept (inl refl) empty h (λ x v k.
        read_env-then lib a s key os empty none (journal lib n g volume schema) v (inl refl) k
          (journal-Ends n g volume schema))

  succeed-Ends :
      (n : NodeRecord) (g : ℕ) (schema : String) (c : Cutover) (w : World)
      → Journals lib a s key c
      → kept w ≡ (
        record { generation = g; schema = schema; volume = volume_name lib n g },
        frame s key (running, some c, false) os,
      )
      → Ends
          (λ x. Ended lib a s key os n)
          (Unfinished lib a s key os)
          (Restorable lib a s key)
          (succeed "verified" w)
  unfolding succeed amend Ended kept framed active Open
  succeed-Ends n g schema c w jo h =
      write-Ends
        (λ v. record v {
          history =
              patch_first
                (λ op. record op { state = succeeded; phase = "verified"; cutover = none })
                v.history;
        })
        w
        (Open-Restorable lib a s key os c (record w { tick = w.tick + 1 }) jo empty
          (ap (λ k. k.1) h))
        (inr (
          g,
          schema,
          λ i. (
            (h i).0,
            record {
              settings = (h i).1.settings;
              node_id = (h i).1.node_id;
              newest =
                  (end-mark "verified" w.history running (some c) false (ap (λ k. k.1.newest) h)).1
                    i;
              others =
                  (patch_first-older
                        (λ op. record op { state = succeeded; phase = "verified"; cutover = none })
                        w.history
                      ∙ ap (λ k. k.1.others) h)
                    i;
            },
          ),
        ))

  new_journal-Journals :
      (n : NodeRecord) (g : ℕ) (volume schema : String)
      → n.generation ≡ a.generation
      → n.schema_revision ≡ a.schema
      → Journals lib a s key (new_journal n g volume schema)
  unfolding Journals new_journal
  new_journal-Journals n g volume schema e f = (e, f, refl, refl)

  switched-Ends :
      (n : NodeRecord) (g : ℕ) (schema : String) (w : World)
      → n.generation ≡ a.generation
      → n.schema_revision ≡ a.schema
      → At lib a s key os none w
      → Ends
          (λ x. Ended lib a s key os n)
          (Unfinished lib a s key os)
          (Restorable lib a s key)
          ((do
            journal_cutover lib n g (volume_name lib n g) schema
            b ← cutover n (volume_name lib n g) g schema
            succeed "verified")
            w)
  switched-Ends n g schema w e f h =
      let c = new_journal n g (volume_name lib n g) schema in
      let jo : Journals lib a s key c = new_journal-Journals n g (volume_name lib n g) schema e f in
      Ends-bind (λ x. At lib a s key os (some c))
        (journal_cutover lib n g (volume_name lib n g) schema) _ w
        (journal_cutover-Ends n g (volume_name lib n g) schema w h)
        (λ x v k.
          Ends-bind
            (λ y u. kept u ≡ (
              record { generation = g; schema = schema; volume = volume_name lib n g },
              frame s key (running, some c, false) os,
            ))
            (cutover n (volume_name lib n g) g schema) (λ y. succeed "verified") v
            (cutover-Ends lib a s key os empty c jo n (volume_name lib n g) g schema v e f k)
            (λ y u l. succeed-Ends n g schema c u jo l))

  pub replace_generation-Ends :
      (n : NodeRecord) (m : BackupManifest) (mode : VerificationMode) (target : String) (w : World)
      → n.generation ≡ a.generation
      → n.schema_revision ≡ a.schema
      → At lib a s key os none w
      → Ends
          (λ x. Ended lib a s key os n)
          (Unfinished lib a s key os)
          (Restorable lib a s key)
          (replace_generation lib n m mode target w)
  unfolding replace_generation Prepared
  replace_generation-Ends n m mode target w e f h =
      kept-then lib a s key os none (next_unused_generation lib n) _ w
        (next_unused_generation-kept lib n) (inl refl) empty h
        (λ o v k.
          kept-then lib a s key os none (found_generation o) _ v (found_generation-kept o)
            (inl refl) empty k
            (λ g u l.
              kept-then lib a s key os none (stage_database (volume_name lib n g) m mode target) _ u
                (stage_database-kept (volume_name lib n g) m mode target) (inl refl) empty l
                (λ r t q. switched-Ends n g (revision_or r target) t e f q)))

  pub fail_operation-Ends :
      (j : Option Cutover) (w : World)
      → Prepared lib a s key j
      → At lib a s key os j w
      → Ends
          (λ x. Failed lib a s key os)
          (Unfinished lib a s key os)
          (Restorable lib a s key)
          (fail_operation w)
  unfolding fail_operation amend Failed kept framed active At
  fail_operation-Ends j w pr h =
      write-Ends
        (λ v. record v {
          history = patch_first (λ op. record op { state = failed; phase = "failed" }) v.history;
        })
        w (At-Restorable lib a s key os j (record w { tick = w.tick + 1 }) pr empty h)
        (
          j,
          λ i. (
            (h i).0,
            record {
              settings = (h i).1.settings;
              node_id = (h i).1.node_id;
              newest = (end-mark "failed" w.history running j false (ap (λ k. k.1.newest) h)).0 i;
              others =
                  (patch_first-older (λ op. record op { state = failed; phase = "failed" })
                        w.history
                      ∙ ap (λ k. k.1.others) h)
                    i;
            },
          ),
        )

  -- The `catch` of the operations that change the generation.
  pub abandon-Ends :
      (n latest : NodeRecord) (w : World)
      → Unfinished lib a s key os w
      → Ends
          (λ x. Ended lib a s key os n)
          (Unfinished lib a s key os)
          (Restorable lib a s key)
          (abandon latest w)
  unfolding abandon Unfinished Ended
  abandon-Ends n latest w (j, pr, h) =
      kept-then lib a s key os j (resume_existing_generation latest) _ w
        (resume_existing_generation-kept latest) pr empty h
        (λ x v k.
          Ends-weaken (fail_operation v) (fail_operation-Ends j v pr k) (λ y u f. inl f) (λ u e. e)
            (λ u e. e))
