-- ===== src/Manager/Ends.antt =====
-- How a call of the node manager ends (apps/manager/src/node-manager.ts): the rules for what holds
-- when it returns, when it throws and when the process dies in it.
use neuromem.Prelude.{◌+◌, Bool, true, false, ◌≡◌, refl, ◌∙◌, inl, inr, Bool-cases, if◌then◌else◌}
use neuromem.Manager.World.{
  World, Result, ok, thrown, crashed, M, bind_result, ◌>>=◌, return, throw, handled, catch, write,
  require,
}
use neuromem.Manager.Kept.{Preserves}

unfoldable pub Holds :
    {A : Type 0}
    → (A → World → Type 0)
    → (World → Type 0)
    → (World → Type 0)
    → Result A × World
    → Type 0
Holds Q E C (ok a, w) = Q a w
Holds Q E C (thrown, w) = E w
Holds Q E C (crashed, w) = C w

pub record Ends {A : Type 0} (Q : A → World → Type 0) (E C : World → Type 0) (r : Result A × World)
    : Type 0 where
  pub holds : Holds Q E C r

module _ {A : Type 0} {Q : A → World → Type 0} {E C : World → Type 0} where
  bind_result-Ends :
      {B : Type 0} {P : B → World → Type 0} (r : Result B) (w : World) (f : B → M A)
      → Ends P E C (r, w)
      → ((b : B) (v : World) → P b v → Ends Q E C (f b v))
      → Ends Q E C (bind_result r w f)
  unfolding bind_result Holds
  bind_result-Ends (ok b) w f e k = k b w e.holds
  bind_result-Ends thrown w f e k = record { holds = e.holds }
  bind_result-Ends crashed w f e k = record { holds = e.holds }

  pub Ends-bind :
      {B : Type 0} (P : B → World → Type 0) (m : M B) (f : B → M A) (w : World)
      → Ends P E C (m w)
      → ((b : B) (v : World) → P b v → Ends Q E C (f b v))
      → Ends Q E C ((m >>= f) w)
  unfolding ◌>>=◌
  Ends-bind P m f w e k = bind_result-Ends (m w).0 (m w).1 f e k

  handled-Ends :
      {T : World → Type 0} (r : Result A) (w : World) (h : M A)
      → Ends Q T C (r, w)
      → ((v : World) → T v → Ends Q E C (h v))
      → Ends Q E C (handled r w h)
  unfolding handled Holds
  handled-Ends (ok a) w h e k = record { holds = e.holds }
  handled-Ends thrown w h e k = k w e.holds
  handled-Ends crashed w h e k = record { holds = e.holds }

  pub Ends-catch :
      (T : World → Type 0) (m h : M A) (w : World)
      → Ends Q T C (m w)
      → ((v : World) → T v → Ends Q E C (h v))
      → Ends Q E C (catch m h w)
  unfolding catch
  Ends-catch T m h w e k = handled-Ends (m w).0 (m w).1 h e k

  pub Ends-if :
      (b : Bool) (m n : M A) (w : World)
      → (b ≡ true → Ends Q E C (m w))
      → (b ≡ false → Ends Q E C (n w))
      → Ends Q E C ((if b then m else n) w)
  Ends-if true m n w p q = p refl
  Ends-if false m n w p q = q refl

weaken :
    {A : Type 0} {P Q : A → World → Type 0} {D E B C : World → Type 0} (r : Result A) (w : World)
    → Ends P D B (r, w)
    → ((a : A) (v : World) → P a v → Q a v)
    → ((v : World) → D v → E v)
    → ((v : World) → B v → C v)
    → Ends Q E C (r, w)
unfolding Holds
weaken (ok a) w h f g k = record { holds = f a w h.holds }
weaken thrown w h f g k = record { holds = g w h.holds }
weaken crashed w h f g k = record { holds = k w h.holds }

pub Ends-weaken :
    {A : Type 0} {P Q : A → World → Type 0} {D E B C : World → Type 0} (r : Result A × World)
    → Ends P D B r
    → ((a : A) (v : World) → P a v → Q a v)
    → ((v : World) → D v → E v)
    → ((v : World) → B v → C v)
    → Ends Q E C r
Ends-weaken r h f g k = weaken r.0 r.1 h f g k

same_everywhere :
    {A : Type 0} (P : World → Type 0) (r : Result A) (w : World) → P w → Ends (λ a. P) P P (r, w)
unfolding Holds
same_everywhere P (ok a) w p = record { holds = p }
same_everywhere P thrown w p = record { holds = p }
same_everywhere P crashed w p = record { holds = p }

-- A call that preserves a part of the state.
pub Preserves-Ends :
    {A B : Type 0} (v : World → B) (m : M A) (b : B) (w : World)
    → Preserves v m
    → v w ≡ b
    → Ends (λ a u. v u ≡ b) (λ u. v u ≡ b) (λ u. v u ≡ b) (m w)
Preserves-Ends v m b w p e = same_everywhere (λ u. v u ≡ b) (m w).0 (m w).1 (p w ∙ e)

pub write-Ends :
    {P E C : World → Type 0} (f : World → World) (w : World)
    → C (record w { tick = w.tick + 1 })
    → P (f (record w { tick = w.tick + 1 }))
    → Ends (λ u. P) E C (write f w)
unfolding write Holds
write-Ends f w c p = elim (Bool-cases (w.crashes w.tick)) [
  | inl e ↦ rw e record { holds = c }
  | inr e ↦ rw e record { holds = p }
]

pub require-Ends :
    {P E C : World → Type 0} (b : Bool) (w : World)
    → (b ≡ true → P w)
    → E w
    → Ends (λ u. P) E C (require b w)
unfolding require return throw Holds
require-Ends true w p e = record { holds = p refl }
require-Ends false w p e = record { holds = e }
