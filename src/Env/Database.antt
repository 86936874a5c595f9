-- ===== src/Env/Database.antt =====
-- The methods of a pymongo collection. A collection is the list of its documents in natural order;
-- a filter is a test on a document, and the unique indexes are a test on two documents.
use fastapi_newyear.Base.{
  take, drop, ◌<◌, ℕ, ◌≤◌, ◌≡◌, Bool, true, not, ◌&&◌, Option, none, some, List, [], ◌∷◌, ◌++◌,
  first, matching, has, update_first, update_all, All, length, if◌then◌else◌,
}

abbrev pub Descending : {D : Type 0} → (D → ℕ) → List D → Type 0
Descending key [] = Unit
Descending key (x ∷ c) = All (λ y. key y ≤ key x) c × Descending key c

pub record Mongo : Type 1 where
  pub find_one : {D : Type 0} → (D → Bool) → List D → Option D
  pub find : {D : Type 0} → (D → Bool) → List D → List D
  pub count_documents : {D : Type 0} → (D → Bool) → List D → ℕ
  -- `none` is `DuplicateKeyError`.
  pub insert_one : {D : Type 0} → (D → D → Bool) → D → List D → Option (List D)
  pub update_one : {D : Type 0} → (D → D → Bool) → (D → Bool) → (D → D) → List D → Option (List D)
  pub update_many : {D : Type 0} → (D → Bool) → (D → D) → List D → List D
  -- A cursor's `sort(field, -1)`.
  pub sort_descending : {D : Type 0} → (D → ℕ) → List D → List D
  -- Its `skip` and `limit`.
  pub skip : {D : Type 0} → ℕ → List D → List D
  pub limit : {D : Type 0} → ℕ → List D → List D
  -- "Returns the first document according to the natural order."
  pub find_one_lem : {D : Type 0} (p : D → Bool) (c : List D) → find_one p c ≡ first p c
  pub find_lem : {D : Type 0} (p : D → Bool) (c : List D) → find p c ≡ matching p c
  pub count_documents_lem :
      {D : Type 0} (p : D → Bool) (c : List D) → count_documents p c ≡ length (matching p c)
  -- An insert is refused exactly when a unique index has its key, and adds the document.
  pub insert_one_lem :
      {D : Type 0} (u : D → D → Bool) (d : D) (c : List D)
      → insert_one u d c ≡ (if has (u d) c then none else some (c ++ d ∷ []))
  -- An update that leaves the keys of the unique indexes alone is not refused.
  pub update_one_lem :
      {D : Type 0} (u : D → D → Bool) (p : D → Bool) (f : D → D) (c : List D)
      → ((d e : D) → u (f d) e ≡ u d e)
      → update_one u p f c ≡ some (update_first p f c)
  -- One that is not refused changes the first document that matches.
  pub update_one_writes :
      {D : Type 0} (u : D → D → Bool) (p : D → Bool) (f : D → D) (c c' : List D)
      → update_one u p f c ≡ some c'
      → c' ≡ update_first p f c
  -- It is refused where another document, without the old keys, has a key of the changed one.
  pub update_one_refused :
      {D : Type 0} (u : D → D → Bool) (p : D → Bool) (f : D → D) (c : List D) (d : D)
      → first p c ≡ some d
      → has (λ e. u (f d) e && not (u d e)) c ≡ true
      → update_one u p f c ≡ none
  pub update_many_lem :
      {D : Type 0} (p : D → Bool) (f : D → D) (c : List D) → update_many p f c ≡ update_all p f c
  -- It keeps the documents, and puts later values first.
  pub sort_descending_keeps :
      {D : Type 0} (key : D → ℕ) (p : D → Bool) (c : List D)
      → length (matching p (sort_descending key c)) ≡ length (matching p c)
  pub sort_descending_sorted :
      {D : Type 0} (key : D → ℕ) (c : List D) → Descending key (sort_descending key c)
  pub skip_lem : {D : Type 0} (n : ℕ) (c : List D) → skip n c ≡ drop n c
  -- A limit of 0 is none.
  pub limit_lem : {D : Type 0} (n : ℕ) (c : List D) → 0 < n → limit n c ≡ take n c
