-- ===== src/Manager/Unused.antt =====
-- The search for an unused generation (apps/manager/src/node-manager.ts, `nextUnusedGeneration`):
-- there are finitely many volumes, so it comes to an end.
use text.Mathlib.TextLemmas.{append_cancel_left}
use neuromem.Prelude.{
  ℕ, zero, suc, ◌⊎◌, Bool, ◌&&◌, ◌+◌, ◌≤◌, ◌<◌, String, true, false, ◌≡◌, refl, subst, inl, inr,
  Option, none, some, List, [], ◌∷◌, length, includes, Distinct, length-le_of_subset, Bool-cases,
  str_eq, str_eq_iff, arith,
}
use neuromem.Nodes.State.{NodeRecord}
use neuromem.Manager.World.{World, HostLibrary, Report, answered, ◌>>=◌, ask, return, bind_result}
use neuromem.Manager.Staging.{
  volume_name, has_volume, volume_exists, volume_count, unused_from, next_unused_generation,
}
use neuromem.Manager.Ends.{Ends, Holds, Ends-bind, Ends-if, Ends-weaken}

-- Two numbers with the same text are the same.
abbrev pub PrintsApart : HostLibrary → Type 0
PrintsApart lib = (a b : ℕ) → lib.print a ≡ lib.print b → a ≡ b

-- The last call was answered by a Docker that did not work.
abbrev pub LastFailed : (ℕ → Option Report) → World → Type 0
LastFailed answers u =
    (t : ℕ) × (r : Report) × (t + 1 ≡ u.tick) × (answers t ≡ some r) × (r.flag ≡ false)

-- What volumeExists tells of a volume.
unfoldable Verdict : (ℕ → Option Report) → List String → String → Bool → World → Type 0
Verdict answers vols v true u = includes vols v ≡ true
Verdict answers vols v false u = (includes vols v ≡ false) ⊎ LastFailed answers u

abbrev Told : (ℕ → Option Report) → List String → String → Bool → World → Type 0
Told answers vols v taken u =
    (u.volumes ≡ vols) × (u.answers ≡ answers) × Verdict answers vols v taken u

told :
    (answers : ℕ → Option Report) (vols : List String) (v : String) (u : World) (t : ℕ) (r : Report)
    → t + 1 ≡ u.tick
    → answers t ≡ some r
    → (flag there : Bool) → r.flag ≡ flag
    → includes vols v ≡ there
    → Verdict answers vols v (flag && there) u
unfolding Verdict
told answers vols v u t r e a true true f i = i
told answers vols v u t r e a true false f i = inl i
told answers vols v u t r e a false there f i = inr (t, r, e, a, f)

answered_volume :
    (v : String) (w : World) (o : Option Report)
    → w.answers w.tick ≡ o
    → Ends
        (Told w.answers w.volumes v)
        (λ u. Unit)
        (λ u. Unit)
        ((answered o >>= λ r. has_volume v >>= λ there. return (r.flag && there))
          (record w { tick = w.tick + 1 }))
unfolding answered ◌>>=◌ bind_result has_volume return Holds
answered_volume v w none a = record { holds = tt }
answered_volume v w (some r) a = record {
  holds = (
    refl,
    refl,
    told w.answers w.volumes v (record w { tick = w.tick + 1 }) w.tick r refl a r.flag
        (includes w.volumes v) refl refl,
  );
}

volume_exists-Ends :
    (v : String) (w : World)
    → Ends (Told w.answers w.volumes v) (λ u. Unit) (λ u. Unit) (volume_exists v w)
unfolding volume_exists ask ◌>>=◌ bind_result Holds
volume_exists-Ends v w = elim (Bool-cases (w.crashes w.tick)) [
  | inl dies ↦ rw dies (record { holds = tt })
  | inr lives ↦ rw lives (answered_volume v w (w.answers w.tick) refl)
]

module _ (lib : HostLibrary) (n : NodeRecord) where
  -- The names of so many generations from this one on.
  names : ℕ → ℕ → List String
  names zero g = []
  names (suc k) g = volume_name lib n g ∷ names k (g + 1)

  length-names : (k g : ℕ) → length (names k g) ≡ k
  unfolding names
  length-names zero g = refl
  length-names (suc k) g = omega (arith, length-names k (g + 1))

  volume_name_injective :
      PrintsApart lib → (a b : ℕ) → volume_name lib n a ≡ volume_name lib n b → a ≡ b
  unfolding volume_name
  volume_name_injective apart a b e = apart a b (
      append_cancel_left "-pg-g" (lib.print a) (lib.print b) (
        append_cancel_left (lib.lower (lib.without_dashes n.node_id)) _ _
          (append_cancel_left "neuromem-" _ _ e)))

  names_later :
      PrintsApart lib → (a k g : ℕ) → a < g → includes (names k g) (volume_name lib n a) ≡ false
  unfolding names includes
  names_later apart a zero g h = refl
  names_later apart a (suc k) g h = ground (
    arith,
    names_later apart a k (g + 1) (omega arith),
    str_eq_iff (volume_name lib n g) (volume_name lib n a),
    volume_name_injective apart g a,
  )

  Distinct-names : PrintsApart lib → (k g : ℕ) → Distinct (names k g)
  unfolding names
  Distinct-names apart zero g = tt
  Distinct-names apart (suc k) g =
      (names_later apart g k (g + 1) (omega arith), Distinct-names apart k (g + 1))

  -- Either all names were taken, or the first that is not is found.
  unfoldable Answer : (ℕ → Option Report) → List String → ℕ → ℕ → Option ℕ → World → Type 0
  Answer answers vols fuel g none u =
      (y : String) → includes (names fuel g) y ≡ true → includes vols y ≡ true
  Answer answers vols fuel g (some found) u =
      (g ≤ found) × ((includes vols (volume_name lib n found) ≡ false) ⊎ LastFailed answers u)

  later_Answer :
      (answers : ℕ → Option Report) (vols : List String) (fuel g : ℕ) (o : Option ℕ) (u : World)
      → includes vols (volume_name lib n g) ≡ true
      → Answer answers vols fuel (g + 1) o u
      → Answer answers vols (suc fuel) g o u
  unfolding Answer names includes
  later_Answer answers vols fuel g none u t h = λ y i.
      elim (Bool-cases (str_eq (volume_name lib n g) y)) [
        | inl e ↦ subst (λ z. includes vols z ≡ true) ((str_eq_iff (volume_name lib n g) y).0 e) t
        | inr e ↦ h y (ground arith)
      ]
  later_Answer answers vols fuel g (some found) u t h = (omega (arith, h.0), h.1)

  unused_from-Ends :
      (answers : ℕ → Option Report) (vols : List String) (fuel g : ℕ) (w : World)
      → w.volumes ≡ vols
      → w.answers ≡ answers
      → Ends (Answer answers vols fuel g) (λ u. Unit) (λ u. Unit) (unused_from lib fuel n g w)
  unfolding unused_from Answer names includes Holds return Verdict
  unused_from-Ends answers vols zero g w e a = record { holds = λ y i. ground arith }
  unused_from-Ends answers vols (suc fuel) g w e a =
      Ends-bind (Told answers vols (volume_name lib n g)) (volume_exists (volume_name lib n g)) _ w
        (subst
          (λ s.
            Ends (Told s vols (volume_name lib n g)) (λ u. Unit) (λ u. Unit)
              (volume_exists (volume_name lib n g) w))
          a
          (subst
            (λ l.
              Ends (Told w.answers l (volume_name lib n g)) (λ u. Unit) (λ u. Unit)
                (volume_exists (volume_name lib n g) w))
            e (volume_exists-Ends (volume_name lib n g) w)))
        (λ taken u h.
          Ends-if taken (unused_from lib fuel n (g + 1)) (return (some g)) u
            (λ t.
              Ends-weaken (unused_from lib fuel n (g + 1) u)
                (unused_from-Ends answers vols fuel (g + 1) u h.0 h.1)
                (λ o v b.
                  later_Answer answers vols fuel g o v
                    (subst (λ c. Verdict answers vols (volume_name lib n g) c u) t h.2) b)
                (λ v b. b) (λ v b. b))
            (λ t. record {
              holds =
                  (omega arith, subst (λ c. Verdict answers vols (volume_name lib n g) c u) t h.2);
            }))

found :
    (lib : HostLibrary) (n : NodeRecord) (w : World)
    → PrintsApart lib
    → (o : Option ℕ) (u : World)
    → Answer lib n w.answers w.volumes (suc (length w.volumes)) (n.generation + 1) o u
    → (g : ℕ) × (o ≡ some g)
      × (n.generation < g)
      × ((includes w.volumes (volume_name lib n g) ≡ false) ⊎ LastFailed w.answers u)
unfolding Answer
found lib n w apart none u a =
    let fuel = suc (length w.volumes) in
    let all_taken : length (names lib n fuel (n.generation + 1)) ≤ length w.volumes =
      length-le_of_subset (names lib n fuel (n.generation + 1)) w.volumes
        (Distinct-names lib n apart fuel (n.generation + 1)) a in
    ground (arith, all_taken, length-names lib n fuel (n.generation + 1))
found lib n w apart (some g) u a = (g, refl, omega (arith, a.0), a.1)

-- nextUnusedGeneration comes to an end: whatever volumes there are and whatever Docker answers, it
-- never runs out of the rounds that it is given, one more than there are volumes. When it returns,
-- the generation is above the node's, and no volume has its name or Docker did not work in the last
-- inspection, the one of that name. It takes that two numbers with the same text are the same.
pub next_unused_generation-Ends :
    (lib : HostLibrary) (n : NodeRecord) (w : World)
    → PrintsApart lib
    → Ends
        (λ o u.
          (g : ℕ) × (o ≡ some g)
          × (n.generation < g)
          × ((includes w.volumes (volume_name lib n g) ≡ false) ⊎ LastFailed w.answers u))
        (λ u. Unit)
        (λ u. Unit)
        (next_unused_generation lib n w)
unfolding next_unused_generation volume_count ◌>>=◌ bind_result Answer
next_unused_generation-Ends lib n w apart =
    let fuel = suc (length w.volumes) in
    Ends-weaken (unused_from lib fuel n (n.generation + 1) w)
      (unused_from-Ends lib n w.answers w.volumes fuel (n.generation + 1) w refl refl)
      (λ o u a. found lib n w apart o u a) (λ u a. a) (λ u a. a)
