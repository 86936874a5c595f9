-- ===== src/Base/Documents.antt =====
-- Lemmas on finding and updating the documents of a list.
use mathlib.Core.Path.{subst, ◌≡◌, refl, sym, ◌∙◌}
use mathlib.Core.Bool.{Bool, true, false, not, ◌&&◌, ◌||◌}
use mathlib.Core.Logic.{inl, inr}
use mathlib.Core.Option.{none, some}
use mathlib.Core.List.{List, [], ◌∷◌, ◌++◌}
use native.Mathlib.Omega.{arith}
use fastapi_newyear.Base.Tests.{Bool-cases}
use fastapi_newyear.Base.Lists.{first, matching, has, update_first, update_all, All}

module _ {ℓ} {D : Type ℓ} where
  pub first-hit : (p : D → Bool) (x : D) (c : List D) → p x ≡ true → first p (x ∷ c) ≡ some x
  unfolding first
  first-hit p x c h = rw h

  pub first-miss : (p : D → Bool) (x : D) (c : List D) → p x ≡ false → first p (x ∷ c) ≡ first p c
  unfolding first
  first-miss p x c h = rw h

  -- What is found passes the test, and is one of the documents.
  pub first_passes : (p : D → Bool) (c : List D) (d : D) → first p c ≡ some d → p d ≡ true
  unfolding first
  first_passes p [] d h = cc
  first_passes p (x ∷ c) d h = ground (arith, first_passes p c d)

  -- Tests that agree find the same.
  pub has_agree : (p q : D → Bool) → ((x : D) → p x ≡ q x) → (c : List D) → has p c ≡ has q c
  unfolding has
  has_agree p q same [] = refl
  has_agree p q same (x ∷ c) = ground (arith, same x, has_agree p q same c)

  pub has-first : (p : D → Bool) (c : List D) → has p c ≡ false → first p c ≡ none
  unfolding first has
  has-first p [] h = refl
  has-first p (x ∷ c) h = ground (arith, has-first p c)

  -- A document that was found is one of the collection's.
  pub has-first_hit :
      (p q : D → Bool) (c : List D) (d : D) → first p c ≡ some d → q d ≡ true → has q c ≡ true
  unfolding first has
  has-first_hit p q [] d h k = cc
  has-first_hit p q (x ∷ c) d h k = ground (arith, has-first_hit p q c d)

  pub first-append :
      (p : D → Bool) (c e : List D)
      → first p (c ++ e) ≡ elim (first p c) [ none ↦ first p e | some d ↦ some d ]
  unfolding first
  first-append p [] e = refl
  first-append p (x ∷ c) e = ground (arith, first-append p c e)

  pub has-append : (p : D → Bool) (c e : List D) → has p (c ++ e) ≡ (has p c || has p e)
  unfolding has
  has-append p [] e = refl
  has-append p (x ∷ c) e = ground (arith, has-append p c e)

  module _ (p q : D → Bool) (f : D → D) where
    -- After an update that takes every document that it changes out of a filter, the filter finds
    -- what it found among the others.
    pub first-update_all_out :
        ((d : D) → q d ≡ true → p (f d) ≡ false)
        → (c : List D) → first p (update_all q f c) ≡ first (λ d. p d && not (q d)) c
    unfolding first update_all
    first-update_all_out out [] = refl
    first-update_all_out out (x ∷ c) = ground (arith, out x, first-update_all_out out c)

    pub matching-update_all_out :
        ((d : D) → q d ≡ true → p (f d) ≡ false)
        → (c : List D) → matching p (update_all q f c) ≡ matching (λ d. p d && not (q d)) c
    unfolding matching update_all
    matching-update_all_out out [] = refl
    matching-update_all_out out (x ∷ c) = ground (arith, out x, matching-update_all_out out c)

    -- An update that a test does not see changes nothing for it.
    pub has-update_all :
        ((d : D) → p (f d) ≡ p d) → (c : List D) → has p (update_all q f c) ≡ has p c
    unfolding has update_all
    has-update_all same [] = refl
    has-update_all same (x ∷ c) = ground (arith, same x, has-update_all same c)

    pub has-update_first :
        ((d : D) → p (f d) ≡ p d) → (c : List D) → has p (update_first q f c) ≡ has p c
    unfolding has update_first
    has-update_first same [] = refl
    has-update_first same (x ∷ c) = ground (arith, same x, has-update_first same c)

  -- Tests that agree find the same.
  pub first_agree : (p q : D → Bool) → ((d : D) → p d ≡ q d) → (c : List D) → first p c ≡ first q c
  unfolding first
  first_agree p q same [] = refl
  first_agree p q same (x ∷ c) = ground (arith, same x, first_agree p q same c)

  -- No document passes a test that is false.
  pub matching_none : (p : D → Bool) → ((d : D) → p d ≡ false) → (c : List D) → matching p c ≡ []
  unfolding matching
  matching_none p out [] = refl
  matching_none p out (x ∷ c) = ground (arith, out x, matching_none p out c)

  -- What is found, and passes a second test too, is found by both tests together.
  pub first_among :
      (p q : D → Bool) (c : List D) (d : D)
      → first p c ≡ some d
      → q d ≡ true
      → first (λ x. p x && q x) c ≡ some d
  unfolding first
  first_among p q [] d h k = cc
  first_among p q (x ∷ c) d h k = ground (arith, first_among p q c d)

  -- What holds of every document holds of one that is found.
  pub first_All {κ} :
      (P : D → Type κ) (p : D → Bool) (c : List D) (d : D) → All P c → first p c ≡ some d → P d
  unfolding first
  first_All P p [] d h e = absurd (cc)
  first_All P p (x ∷ c) d h e = elim (Bool-cases (p x)) [
    | inl hit ↦ let same : x ≡ d = cc (first-hit p x c hit, e) in subst P same h.0
    | inr miss ↦ first_All P p c d h.1 (sym (first-miss p x c miss) ∙ e)
  ]

  -- A test that fails wherever `P` holds finds nothing among documents with `P`.
  pub first-none {κ} :
      (P : D → Type κ) (p : D → Bool) (c : List D)
      → All P c
      → ((d : D) → P d → p d ≡ false)
      → first p c ≡ none
  unfolding first
  first-none P p [] h out = refl
  first-none P p (x ∷ c) h out = rw (out x h.0) (first-none P p c h.1 out)

  pub has_mono :
      (p q : D → Bool)
      → ((d : D) → p d ≡ true → q d ≡ true)
      → (c : List D) → has p c ≡ true
      → has q c ≡ true
  unfolding has
  has_mono p q mono [] h = h
  has_mono p q mono (x ∷ c) h = ground (arith, mono x, has_mono p q mono c)

  pub first-append_none :
      (p : D → Bool) (c : List D) (x : D)
      → first p c ≡ none
      → p x ≡ false
      → first p (c ++ x ∷ []) ≡ none
  unfolding first
  first-append_none p c x h k = ground (arith, first-append p c (x ∷ []))
