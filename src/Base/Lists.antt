-- ===== src/Base/Lists.antt =====
-- Lists of documents: the first match, the matches, and updates of the first or of every match.
use Prim.Native.Nat.{ℕ, zero, suc}
use mathlib.Core.Bool.{Bool, false, ◌||◌}
use mathlib.Core.Option.{Option, none, some}
use mathlib.Core.List.{List, [], ◌∷◌}
use fastapi_newyear.Base.Tests.{if◌then◌else◌}

module _ {ℓ} {A : Type ℓ} where
  abbrev pub length : List A → ℕ
  length [] = 0
  length (x ∷ xs) = suc (length xs)

  abbrev pub take : ℕ → List A → List A
  take zero xs = []
  take (suc n) [] = []
  take (suc n) (x ∷ xs) = x ∷ take n xs

  abbrev pub drop : ℕ → List A → List A
  drop zero xs = xs
  drop (suc n) [] = []
  drop (suc n) (x ∷ xs) = drop n xs

  -- The first element that passes a test.
  unfoldable pub first : (A → Bool) → List A → Option A
  first p [] = none
  first p (x ∷ xs) = if p x then some x else first p xs

  -- All that pass, in order.
  unfoldable pub matching : (A → Bool) → List A → List A
  matching p [] = []
  matching p (x ∷ xs) = let rest = matching p xs in if p x then x ∷ rest else rest

  -- Some element passes.
  unfoldable pub has : (A → Bool) → List A → Bool
  has p [] = false
  has p (x ∷ xs) = p x || has p xs

  unfoldable pub update_first : (A → Bool) → (A → A) → List A → List A
  update_first p f [] = []
  update_first p f (x ∷ xs) = if p x then f x ∷ xs else x ∷ update_first p f xs

  unfoldable pub update_all : (A → Bool) → (A → A) → List A → List A
  update_all p f [] = []
  update_all p f (x ∷ xs) = (if p x then f x else x) ∷ update_all p f xs

-- Every element has a property.
abbrev pub All {ℓ κ} : {A : Type ℓ} → (A → Type κ) → List A → Type κ
All P [] = Unit
All P (x ∷ xs) = P x × All P xs
