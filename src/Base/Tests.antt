-- ===== src/Base/Tests.antt =====
-- Boolean tests on the native numbers, the conditional, and checks over a finite range.
use Prim.Native.Nat.{ℕ, zero, suc, ◌<◌, compare, Ordering}
use mathlib.Core.Path.{◌≡◌, refl}
use mathlib.Core.Logic.{◌↔◌, ◌⊎◌, inl, inr}
use mathlib.Core.Bool.{Bool, true, false, ◌&&◌}
use mathlib.Core.List.{List, [], ◌∷◌}
use native.Mathlib.Omega.{arith}

abbrev pub ltb : ℕ → ℕ → Bool
ltb a b = elim (compare a b) [ Ordering.lt ↦ true | _ ↦ false ]

abbrev pub leb : ℕ → ℕ → Bool
leb a b = elim (compare a b) [ Ordering.gt ↦ false | _ ↦ true ]

infix 50 ◌==◌
abbrev pub ◌==◌ : ℕ → ℕ → Bool
a == b = elim (compare a b) [ Ordering.eq ↦ true | _ ↦ false ]

infix 1 if◌then◌else◌
abbrev pub if◌then◌else◌ {ℓ} : {A : Type ℓ} → Bool → A → A → A
if true then x else y = x
if false then x else y = y

pub ==_iff : (a b : ℕ) → ((a == b) ≡ true) ↔ (a ≡ b)
==_iff a b = ground arith

pub Bool-cases : (b : Bool) → (b ≡ true) ⊎ (b ≡ false)
Bool-cases true = inl refl
Bool-cases false = inr refl

-- A test that every number below a bound passes, checked by evaluation.
unfoldable pub every_below : ℕ → (ℕ → Bool) → Bool
every_below zero test = true
every_below (suc bound) test = every_below bound test && test bound

pub every_below_at :
    (test : ℕ → Bool) (bound i : ℕ) → i < bound → every_below bound test ≡ true → test i ≡ true
unfolding every_below
every_below_at test zero i lt passed = absurd (omega arith)
every_below_at test (suc bound) i lt passed = ground (arith, every_below_at test bound i)

-- Two functions that agree at every number below a bound.
pub agree_below :
    (n : ℕ) (f g : ℕ → ℕ) (x : ℕ) → every_below n (λ k. f k == g k) ≡ true → x < n → f x ≡ g x
agree_below n f g x h lt = (==_iff _ _).0 (every_below_at _ n x lt h)

pub agree_below₂ :
    (n m : ℕ) (f g : ℕ → ℕ → ℕ) (x y : ℕ)
    → every_below n (λ k. every_below m (λ j. f k j == g k j)) ≡ true
    → x < n
    → y < m
    → f x y ≡ g x y
agree_below₂ n m f g x y h lx ly = agree_below m (f x) (g x) y (every_below_at _ n x lx h) ly

abbrev pub length {ℓ} : {A : Type ℓ} → List A → ℕ
length [] = 0
length (x ∷ xs) = suc (length xs)
