-- ===== src/Base/Unique.antt =====
-- Collections in which no two documents share a key of a unique index.
use mathlib.Core.Path.{◌≡◌, refl, sym, ◌∙◌}
use mathlib.Core.Bool.{Bool, true, false, ◌&&◌, not, false≢true}
use mathlib.Core.Logic.{inl, inr}
use mathlib.Core.Option.{none, some}
use mathlib.Core.List.{List, [], ◌∷◌, ◌++◌}
use native.Mathlib.Omega.{arith}
use fastapi_newyear.Base.Tests.{Bool-cases}
use fastapi_newyear.Base.Lists.{first, has, update_first, update_all}
use fastapi_newyear.Base.Documents.{
  first_passes, has-append, has-update_all, has-update_first, has-first_hit, has_mono, has-first,
}

module _ {ℓ} {D : Type ℓ} where
  abbrev pub IsUnique : (D → D → Bool) → List D → Type 0
  IsUnique u [] = Unit
  IsUnique u (x ∷ c) = (has (u x) c ≡ false) × IsUnique u c

  module _ (u : D → D → Bool) (same : (a b : D) → u a b ≡ u b a) where
    -- An insert that is not refused keeps the keys apart.
    pub IsUnique-append :
        (c : List D) (d : D) → IsUnique u c → has (u d) c ≡ false → IsUnique u (c ++ d ∷ [])
    unfolding has
    IsUnique-append [] d h free = (refl, tt)
    IsUnique-append (x ∷ c) d h free = (
      ground (arith, has-append (u x) c (d ∷ []), same x d),
      IsUnique-append c d h.1 (ground arith),
    )

    -- So do updates that leave the keys alone.
    module _ (f : D → D) (keeps : (a b : D) → u (f a) b ≡ u a b) where
      keeps_right : (a b : D) → u a (f b) ≡ u a b
      keeps_right a b = same a (f b) ∙ keeps b a ∙ same b a

      has_moved : (x : D) (c : List D) → has (u x) c ≡ false → has (u (f x)) c ≡ false
      unfolding has
      has_moved x [] h = refl
      has_moved x (y ∷ c) h = ground (arith, keeps x y, has_moved x c)

      pub IsUnique-update_first :
          (q : D → Bool) (c : List D) → IsUnique u c → IsUnique u (update_first q f c)
      unfolding update_first
      IsUnique-update_first q [] h = tt
      IsUnique-update_first q (x ∷ c) h = elim (Bool-cases (q x)) [
        | inl hit ↦ rw hit (has_moved x c h.0, h.1)
        | inr miss ↦
            rw miss
              (has-update_first (u x) q f (keeps_right x) c ∙ h.0, IsUnique-update_first q c h.1)
      ]

      pub IsUnique-update_all :
          (q : D → Bool) (c : List D) → IsUnique u c → IsUnique u (update_all q f c)
      unfolding update_all
      IsUnique-update_all q [] h = tt
      IsUnique-update_all q (x ∷ c) h = elim (Bool-cases (q x)) [
        | inl hit ↦ rw hit (
          has-update_all (u (f x)) q f (keeps_right (f x)) c ∙ has_moved x c h.0,
          IsUnique-update_all q c h.1,
        )
        | inr miss ↦
            rw miss (has-update_all (u x) q f (keeps_right x) c ∙ h.0, IsUnique-update_all q c h.1)
      ]

  -- A document that passes neither `p` nor, where `p` and `q` name one document behind it, `q`.
  not_here :
      (u : D → D → Bool) (p q : D → Bool)
      → ((a b : D) → q a ≡ true → q b ≡ true → u a b ≡ true)
      → (c : List D) (x d : D) → has (u x) c ≡ false
      → first p c ≡ some d
      → q d ≡ true
      → q x ≡ false
  not_here u p q qu c x d free e k = elim (Bool-cases (q x)) [
    | inr miss ↦ miss
    | inl qx ↦ absurd (
        false≢true
          (sym free ∙ has_mono q (u x) (λ b qb. qu x b qx qb) c (has-first_hit p q c d e k)))
  ]

  -- `p` finds a document that `q` names; all that pass `p` share a key, and so do all that pass `q`.
  -- Then the update of that document by `f`, which takes it out of `p`, leaves nothing for `p` to find.
  pub first-update_first_out :
      (u : D → D → Bool) (p q : D → Bool) (f : D → D)
      → ((a b : D) → p a ≡ true → p b ≡ true → u a b ≡ true)
      → ((a b : D) → q a ≡ true → q b ≡ true → u a b ≡ true)
      → ((a : D) → p (f a) ≡ false)
      → (c : List D) (d : D) → IsUnique u c
      → first p c ≡ some d
      → q d ≡ true
      → first p (update_first q f c) ≡ none
  unfolding first update_first
  first-update_first_out u p q f pu qu out [] d h e k = refl
  first-update_first_out u p q f pu qu out (x ∷ c) d h e k = elim (Bool-cases (p x)) [
    | inl px ↦
        let same : x ≡ d = ground arith in
        let qx : q x ≡ true = cc in
        let rest : first p c ≡ none = only_one px in ground (arith, out x)
    | inr px ↦
        let e' : first p c ≡ some d = ground arith in
        ground (
          arith,
          not_here u p q qu c x d h.0 e' k,
          first-update_first_out u p q f pu qu out c d h.1,
        )
  ]
    where
      only_one : p x ≡ true → first p c ≡ none
      only_one px = has-first p c (elim (Bool-cases (has p c)) [
        | inr free ↦ free
        | inl taken ↦
            absurd (false≢true (sym h.0 ∙ has_mono p (u x) (λ b pb. pu x b px pb) c taken))
      ])

  -- An update that keeps it in `p` is what `p` finds after it.
  pub first-update_first_in :
      (u : D → D → Bool) (p q : D → Bool) (f : D → D)
      → ((a b : D) → q a ≡ true → q b ≡ true → u a b ≡ true)
      → ((a : D) → p (f a) ≡ p a)
      → (c : List D) (d : D) → IsUnique u c
      → first p c ≡ some d
      → q d ≡ true
      → first p (update_first q f c) ≡ some (f d)
  unfolding first update_first
  first-update_first_in u p q f qu keeps [] d h e k = cc
  first-update_first_in u p q f qu keeps (x ∷ c) d h e k = elim (Bool-cases (p x)) [
    | inl px ↦
        let same : x ≡ d = ground arith in let qx : q x ≡ true = cc in ground (arith, keeps x)
    | inr px ↦
        let e' : first p c ≡ some d = ground arith in
        ground
          (arith, not_here u p q qu c x d h.0 e' k, first-update_first_in u p q f qu keeps c d h.1)
  ]

  -- An update of the document that `q` names, to a key that no other document has, keeps the keys apart.
  pub has-update_first_new :
      (p q : D → Bool) (f : D → D) (c : List D) (d : D)
      → has p c ≡ false
      → p (f d) ≡ false
      → first q c ≡ some d
      → has p (update_first q f c) ≡ false
  unfolding has first update_first
  has-update_first_new p q f [] d h new e = refl
  has-update_first_new p q f (x ∷ c) d h new e = ground (arith, has-update_first_new p q f c d)

  pub has_rest :
      (p q : D → Bool) (c : List D)
      → has (λ j. p j && not (q j)) c ≡ false
      → has q c ≡ false
      → has p c ≡ false
  unfolding has
  has_rest p q [] h free = refl
  has_rest p q (x ∷ c) h free = ground (arith, has_rest p q c)

  none_named :
      (v : D → D → Bool) (q : D → Bool)
      → ((a b : D) → q a ≡ true → q b ≡ true → v a b ≡ true)
      → (c : List D) (x : D) → has (v x) c ≡ false
      → q x ≡ true
      → has q c ≡ false
  none_named v q qv c x free qx = elim (Bool-cases (has q c)) [
    | inr miss ↦ miss
    | inl hit ↦ absurd (false≢true (sym free ∙ has_mono q (v x) (λ b qb. qv x b qx qb) c hit))
  ]

  pub IsUnique-update_first_new :
      (u v : D → D → Bool) (q : D → Bool) (f : D → D)
      → ((a b : D) → u a b ≡ u b a)
      → ((a b : D) → q a ≡ true → q b ≡ true → v a b ≡ true)
      → (c : List D) (d : D) → IsUnique u c
      → IsUnique v c
      → first q c ≡ some d
      → has (λ j. u (f d) j && not (q j)) c ≡ false
      → IsUnique u (update_first q f c)
  unfolding has first update_first
  IsUnique-update_first_new u v q f same qv [] d h k e new = tt
  IsUnique-update_first_new u v q f same qv (x ∷ c) d h k e new = elim (Bool-cases (q x)) [
    | inl qx ↦
        let at : x ≡ d = ground arith in
        let rest : has (λ j. u (f d) j && not (q j)) c ≡ false = ground arith in
        let free : has (u (f x)) c ≡ false =
          has_rest (u (f x)) q c (rw at rest) (none_named v q qv c x k.0 qx) in
        rw qx (free, h.1)
    | inr qx ↦
        let e' : first q c ≡ some d = ground arith in
        let apart : u x (f d) ≡ false = ground (arith, same x (f d)) in
        let rest : has (λ j. u (f d) j && not (q j)) c ≡ false = ground arith in
        rw qx (
          has-update_first_new (u x) q f c d h.0 apart e',
          IsUnique-update_first_new u v q f same qv c d h.1 k.1 e' rest,
        )
  ]

  -- What is not found is not there.
  pub first-has : (p : D → Bool) (c : List D) → first p c ≡ none → has p c ≡ false
  unfolding first has
  first-has p [] h = refl
  first-has p (x ∷ c) h = ground (arith, first-has p c)

  pub has_less :
      (p q : D → Bool)
      → ((a : D) → p a ≡ true → q a ≡ true)
      → (c : List D) → has q c ≡ false
      → has p c ≡ false
  has_less p q le c free = elim (Bool-cases (has p c)) [
    | inr miss ↦ miss
    | inl hit ↦ absurd (false≢true (sym free ∙ has_mono p q le c hit))
  ]

  pub has_none : (p : D → Bool) → ((a : D) → p a ≡ false) → (c : List D) → has p c ≡ false
  unfolding has
  has_none p out [] = refl
  has_none p out (x ∷ c) = ground (arith, out x, has_none p out c)

  -- The document that `p` finds is the one that `q` finds, if `q` names it.
  pub first_named :
      (u : D → D → Bool) (p q : D → Bool)
      → ((a b : D) → q a ≡ true → q b ≡ true → u a b ≡ true)
      → (c : List D) (d : D) → IsUnique u c
      → first p c ≡ some d
      → q d ≡ true
      → first q c ≡ some d
  unfolding first
  first_named u p q qu [] d h e k = cc
  first_named u p q qu (x ∷ c) d h e k = elim (Bool-cases (p x)) [
    | inl px ↦ let same : x ≡ d = ground arith in let qx : q x ≡ true = cc in ground arith
    | inr px ↦
        let e' : first p c ≡ some d = ground arith in
        ground (arith, not_here u p q qu c x d h.0 e' k, first_named u p q qu c d h.1)
  ]

  -- `p` finds a document that `q` names; `p` and `p'` hold of nothing that `b` does not hold of, and the documents of
  -- `b` share a key. The update by `f` takes the document out of `b`, so `p'` finds nothing any more.
  pub first_spent :
      (u : D → D → Bool) (p p' b q : D → Bool) (f : D → D)
      → ((a : D) → p a ≡ true → b a ≡ true)
      → ((a : D) → p' a ≡ true → b a ≡ true)
      → ((a e : D) → b a ≡ true → b e ≡ true → u a e ≡ true)
      → ((a e : D) → q a ≡ true → q e ≡ true → u a e ≡ true)
      → ((a : D) → b (f a) ≡ false)
      → (c : List D) (d : D) → IsUnique u c
      → first p c ≡ some d
      → q d ≡ true
      → first p' (update_first q f c) ≡ none
  first_spent u p p' b q f pb pb' bu qu out c d unique e named =
      let found = first_named u p b bu c d unique e (pb d (first_passes p c d e)) in
      let gone = first-update_first_out u b q f bu qu out c d unique found named in
      let after = update_first q f c in
      has-first p' after (has_less p' b pb' after (first-has b after gone))
