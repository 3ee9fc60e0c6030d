-- ===== src/Prelude/Lists.antt =====
-- Boolean searches over lists.
use mathlib.Core.Path.{◌≡◌}
use mathlib.Core.Logic.{inl, inr}
use mathlib.Core.Bool.{Bool, true, false, ◌&&◌, ◌||◌}
use mathlib.Core.Option.{Option, none, some}
use mathlib.Core.List.{List, [], ◌∷◌}
use native.Mathlib.Omega.{arith}
use pubky_marketplace_servic.Prelude.Tests.{Key, ◌==◌, if◌then◌else◌, Bool-cases}

module _ {ℓ} {A : Type ℓ} where
  -- `iter().any` and `iter().all`.
  abbrev pub any : (A → Bool) → List A → Bool
  any p [] = false
  any p (x ∷ xs) = p x || any p xs

  abbrev pub all : (A → Bool) → List A → Bool
  all p [] = true
  all p (x ∷ xs) = p x && all p xs

  abbrev pub find : (A → Bool) → List A → Option A
  find p [] = none
  find p (x ∷ xs) = if p x then some x else find p xs

  -- A search that succeeds on a list whose members all pass a second test.
  pub any-all :
      (p q : A → Bool) (xs : List A)
      → any p xs ≡ true
      → all q xs ≡ true
      → (x : A) × (p x ≡ true) × (q x ≡ true)
  any-all p q [] h k = absurd (ground arith)
  any-all p q (x ∷ xs) h k = elim (Bool-cases (p x)) [
    | inl e ↦ (x, e, ground arith)
    | inr e ↦ any-all p q xs (ground arith) (ground arith)
  ]

  pub any_weaken :
      (p q : A → Bool) (xs : List A)
      → ((x : A) → p x ≡ true → q x ≡ true)
      → any p xs ≡ true
      → any q xs ≡ true
  any_weaken p q [] w h = h
  any_weaken p q (x ∷ xs) w h = ground (arith, w x, any_weaken p q xs w)

-- `contains`.
abbrev pub contains {ℓ} : {A : Type ℓ} ⦃e : Key A⦄ → List A → A → Bool
contains [] a = false
contains (x ∷ xs) a = x == a || contains xs a
