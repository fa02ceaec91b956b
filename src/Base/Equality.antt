-- ===== src/Base/Equality.antt =====
-- Types with a Boolean equality test, the keys of the maps.
use Prim.Native.Nat.{ℕ}
use mathlib.Core.Path.{◌≡◌, refl}
use mathlib.Core.Logic.{◌↔◌}
use mathlib.Core.Bool.{Bool, true, false, ◌||◌, ◌&&◌}
use mathlib.Core.List.{List, [], ◌∷◌, ◌++◌}
use native.Mathlib.Omega.{arith}
use skall.Base.Lists.{keep}
use skall.Base.Tests.{nat_eq, nat_eq_iff}

pub record HasEquals {ℓ} (A : Type ℓ) : Type ℓ where
  pub equals : A → A → Bool
  pub equals_iff : (a b : A) → (equals a b ≡ true) ↔ (a ≡ b)

infix 50 ◌==◌
abbrev pub ◌==◌ {ℓ} : {A : Type ℓ} ⦃e : HasEquals A⦄ → A → A → Bool
◌==◌ ⦃e⦄ = e.equals

instance abbrev pub ℕ-eq : HasEquals ℕ
ℕ-eq = record { equals = nat_eq; equals_iff = nat_eq_iff }

module _ {ℓ} {A : Type ℓ} ⦃e : HasEquals A⦄ where
  pub eq_refl : (a : A) → (a == a) ≡ true
  eq_refl a = (e.equals_iff a a).1 refl

  pub eq_iff : (a b : A) → ((a == b) ≡ true) ↔ (a ≡ b)
  eq_iff a b = e.equals_iff a b

  -- Membership as a Boolean test.
  abbrev pub contains : A → List A → Bool
  contains a [] = false
  contains a (x ∷ xs) = x == a || contains a xs

  pub contains-keep :
      (p : A → Bool) (a : A) (xs : List A) → contains a (keep p xs) ≡ (contains a xs && p a)
  contains-keep p a [] = refl
  contains-keep p a (x ∷ xs) = ground (arith, contains-keep p a xs, e.equals_iff x a)

  -- No element stands twice in the list.
  abbrev pub IsDistinct : List A → Type 0
  IsDistinct [] = Unit
  IsDistinct (x ∷ xs) = (contains x xs ≡ false) × IsDistinct xs

  pub contains-append_one :
      (a x : A) (xs : List A) → contains a (xs ++ x ∷ []) ≡ (contains a xs || x == a)
  contains-append_one a x [] = ground arith
  contains-append_one a x (y ∷ xs) = ground (arith, contains-append_one a x xs)

  pub IsDistinct-append :
      (a : A) (xs : List A) → IsDistinct xs → contains a xs ≡ false → IsDistinct (xs ++ a ∷ [])
  IsDistinct-append a [] d n = (refl, tt)
  IsDistinct-append a (x ∷ xs) d n = (
    ground (arith, contains-append_one x a xs, d.0, e.equals_iff a x, e.equals_iff x a, n),
    IsDistinct-append a xs d.1 (ground (arith, n)),
  )
