-- ===== src/Base/Indexes.antt =====
-- The keys of a collection stay apart in an update that a unique index has let through.
use mathlib.Core.Path.{◌≡◌, refl}
use mathlib.Core.Bool.{Bool, false, ◌&&◌, not}
use mathlib.Core.Logic.{inl, inr}
use mathlib.Core.Option.{none, some}
use mathlib.Core.List.{List, [], ◌∷◌}
use native.Mathlib.Omega.{arith}
use fastapi_newyear.Base.Tests.{Bool-cases}
use fastapi_newyear.Base.Lists.{first, has, update_first}
use fastapi_newyear.Base.Documents.{has-first_hit}
use fastapi_newyear.Base.Unique.{IsUnique, has-update_first_new, has_rest}

module _ {ℓ} {D : Type ℓ} where
  pub update_first-none :
      (p : D → Bool) (f : D → D) (c : List D) → first p c ≡ none → update_first p f c ≡ c
  unfolding first update_first
  update_first-none p f [] h = refl
  update_first-none p f (x ∷ c) h = ground (arith, update_first-none p f c)

  has_absent :
      (p q : D → Bool) (c : List D) (d : D) → has q c ≡ false → first p c ≡ some d → q d ≡ false
  has_absent p q c d free e = elim (Bool-cases (q d)) [
    | inr miss ↦ miss
    | inl hit ↦ ground (arith, has-first_hit p q c d e hit)
  ]

  -- No document, but those with the old keys, has a key of the changed document.
  pub IsUnique-update_first_free :
      (u : D → D → Bool) (p : D → Bool) (f : D → D)
      → ((a b : D) → u a b ≡ u b a)
      → (c : List D) (d : D) → IsUnique u c
      → first p c ≡ some d
      → has (λ e. u (f d) e && not (u d e)) c ≡ false
      → IsUnique u (update_first p f c)
  unfolding first has update_first
  IsUnique-update_first_free u p f same [] d h e new = tt
  IsUnique-update_first_free u p f same (x ∷ c) d h e new = elim (Bool-cases (p x)) [
    | inl hit ↦
        let at : x ≡ d = ground arith in
        let rest : has (λ j. u (f d) j && not (u d j)) c ≡ false = ground arith in
        let others : has (u d) c ≡ false = rw (← at) h.0 in
        let free : has (u (f x)) c ≡ false = rw at (has_rest (u (f d)) (u d) c rest others) in
        rw hit (free, h.1)
    | inr miss ↦
        let e' : first p c ≡ some d = ground arith in
        let rest : has (λ j. u (f d) j && not (u d j)) c ≡ false = ground arith in
        let old : u x d ≡ false = has_absent p (u x) c d h.0 e' in
        let apart : u x (f d) ≡ false = ground (arith, same x (f d), same x d) in
        rw miss (
          has-update_first_new (u x) p f c d h.0 apart e',
          IsUnique-update_first_free u p f same c d h.1 e' rest,
        )
  ]
