-- ===== src/Env/Indexes.antt =====
-- What the unique indexes keep: the keys of a collection stay apart.
use fastapi_newyear.Base.{
  ◌≡◌, Bool, true, not, ◌&&◌, some, List, [], ◌∷◌, ◌++◌, arith, first, has, IsUnique,
  IsUnique-append, IsUnique-update_first_free, IsUnique-update_all, update_first-none, Option-cases,
  Bool-cases, inl, inr,
}
use fastapi_newyear.Env.Database.{Mongo}

module _ (mongo : Mongo) {D : Type 0} (u : D → D → Bool) (same : (a b : D) → u a b ≡ u b a) where
  pub IsUnique-insert_one :
      (d : D) (c c' : List D) → IsUnique u c → mongo.insert_one u d c ≡ some c' → IsUnique u c'
  IsUnique-insert_one d c c' h e = elim (Bool-cases (has (u d) c)) [
    | inl taken ↦ ground (arith, mongo.insert_one_lem u d c)
    | inr free ↦
        let stored : c' ≡ c ++ d ∷ [] = ground (arith, mongo.insert_one_lem u d c) in
        rw stored (IsUnique-append u same c d h free)
  ]

  pub IsUnique-update_one :
      (p : D → Bool) (f : D → D) (c c' : List D)
      → IsUnique u c
      → mongo.update_one u p f c ≡ some c'
      → IsUnique u c'
  IsUnique-update_one p f c c' h e =
      rw (mongo.update_one_writes u p f c c' e) (elim (Option-cases (first p c)) [
        | inl missing ↦ rw (update_first-none p f c missing) h
        | inr (d, found) ↦ elim (Bool-cases (has (λ j. u (f d) j && not (u d j)) c)) [
          | inl taken ↦ absurd (refused d taken found)
          | inr free ↦ IsUnique-update_first_free u p f same c d h found free
        ]
      ])
    where
      refused : (d : D) → has (λ j. u (f d) j && not (u d j)) c ≡ true → first p c ≡ some d → ⊥
      refused d taken found = ground (arith, mongo.update_one_refused u p f c d found taken)

  pub IsUnique-update_many :
      (p : D → Bool) (f : D → D) (c : List D)
      → ((a b : D) → u (f a) b ≡ u a b)
      → IsUnique u c
      → IsUnique u (mongo.update_many p f c)
  IsUnique-update_many p f c keeps h =
      rw (mongo.update_many_lem p f c) (IsUnique-update_all u same f keeps p c h)
