-- ===== src/Examples/Lists.antt =====
-- MongoDB's methods on lists.
use fastapi_newyear.Base.{
  take, drop, ℕ, ◌≤◌, ◌≡◌, refl, Bool, true, false, not, ◌&&◌, Option, none, some, List, [], ◌∷◌,
  ◌++◌, arith, All, length, first, matching, has, update_first, update_all, leb, if◌then◌else◌,
  Bool-cases, Option-cases, inl, inr,
}
use fastapi_newyear.Env.{Mongo, Descending}

module _ {D : Type 0} (key : D → ℕ) where
  unfoldable pub insert : D → List D → List D
  insert x [] = x ∷ []
  insert x (y ∷ c) = let rest = insert x c in if leb (key y) (key x) then x ∷ y ∷ c else y ∷ rest

  unfoldable pub sort : List D → List D
  sort [] = []
  sort (x ∷ c) = insert x (sort c)

  matching-insert :
      (p : D → Bool) (x : D) (c : List D)
      → length (matching p (insert x c)) ≡ length (matching p (x ∷ c))
  unfolding insert matching
  matching-insert p x [] = refl
  matching-insert p x (y ∷ c) = ground (arith, matching-insert p x c)

  pub matching-sort :
      (p : D → Bool) (c : List D) → length (matching p (sort c)) ≡ length (matching p c)
  unfolding sort matching
  matching-sort p [] = refl
  matching-sort p (x ∷ c) = ground (arith, matching-insert p x (sort c), matching-sort p c)

  All-insert :
      (n : ℕ) (x : D) (c : List D)
      → key x ≤ n
      → All (λ y. key y ≤ n) c
      → All (λ y. key y ≤ n) (insert x c)
  unfolding insert
  All-insert n x [] h hs = (h, tt)
  All-insert n x (y ∷ c) h hs = ground (arith, All-insert n x c h hs.1)

  All-mono : (m n : ℕ) (c : List D) → m ≤ n → All (λ y. key y ≤ m) c → All (λ y. key y ≤ n) c
  All-mono m n [] h hs = tt
  All-mono m n (y ∷ c) h hs = (omega arith, All-mono m n c h hs.1)

  Descending-insert : (x : D) (c : List D) → Descending key c → Descending key (insert x c)
  unfolding insert
  Descending-insert x [] h = (tt, tt)
  Descending-insert x (y ∷ c) h = elim (Bool-cases (leb (key y) (key x))) [
    | inl e ↦ rw e ((ground arith, All-mono (key y) (key x) c (ground arith) h.0), h)
    | inr e ↦ rw e (All-insert (key y) x c (ground arith) h.0, Descending-insert x c h.1)
  ]

  pub Descending-sort : (c : List D) → Descending key (sort c)
  unfolding sort
  Descending-sort [] = tt
  Descending-sort (x ∷ c) = Descending-insert x (sort c) (Descending-sort c)

abbrev insert_unique : {D : Type 0} → (D → D → Bool) → D → List D → Option (List D)
insert_unique u d c = if has (u d) c then none else some (c ++ d ∷ [])

-- Whether another document, without the old keys, has a key of the document that `f` makes of `o`.
taken : {D : Type 0} → (D → D → Bool) → (D → D) → List D → Option D → Bool
taken u f c none = false
taken u f c (some d) = has (λ e. u (f d) e && not (u d e)) c

unfoldable pub update_unique :
    {D : Type 0} → (D → D → Bool) → (D → Bool) → (D → D) → List D → Option (List D)
unfolding taken
update_unique u p f c = if taken u f c (first p c) then none else some (update_first p f c)

module _ {D : Type 0} (u : D → D → Bool) (p : D → Bool) (f : D → D) where
  keys_free :
      (d : D) (c : List D)
      → ((d e : D) → u (f d) e ≡ u d e)
      → has (λ e. u (f d) e && not (u d e)) c ≡ false
  unfolding has
  keys_free d [] keeps = refl
  keys_free d (x ∷ c) keeps = ground (arith, keeps d x, keys_free d c keeps)

  pub update_unique_lem :
      (c : List D)
      → ((d e : D) → u (f d) e ≡ u d e)
      → update_unique u p f c ≡ some (update_first p f c)
  unfolding update_unique taken
  update_unique_lem c keeps = elim (Option-cases (first p c)) [
    | inl missing ↦ ground arith
    | inr (d, found) ↦ ground (arith, keys_free d c keeps)
  ]

  pub update_unique_writes :
      (c c' : List D) → update_unique u p f c ≡ some c' → c' ≡ update_first p f c
  unfolding update_unique
  update_unique_writes c c' e = ground arith

  pub update_unique_refused :
      (c : List D) (d : D)
      → first p c ≡ some d
      → has (λ e. u (f d) e && not (u d e)) c ≡ true
      → update_unique u p f c ≡ none
  unfolding update_unique taken
  update_unique_refused c d found free = ground arith

abbrev pub lists : Mongo
lists = record {
  find_one = first;
  find = matching;
  count_documents = λ p c. length (matching p c);
  insert_one = insert_unique;
  update_one = update_unique;
  update_many = update_all;
  sort_descending = λ key c. sort key c;
  skip = drop;
  limit = take;
  skip_lem = λ n c. refl;
  limit_lem = λ n c pos. refl;
  find_one_lem = λ p c. refl;
  find_lem = λ p c. refl;
  count_documents_lem = λ p c. refl;
  insert_one_lem = λ u d c. refl;
  update_one_lem = λ u p f c h. update_unique_lem u p f c h;
  update_one_writes = λ u p f c c' e. update_unique_writes u p f c c' e;
  update_one_refused = λ u p f c d found free. update_unique_refused u p f c d found free;
  update_many_lem = λ p f c. refl;
  sort_descending_keeps = λ key p c. matching-sort key p c;
  sort_descending_sorted = λ key c. Descending-sort key c;
}
