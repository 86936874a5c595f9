-- ===== src/Redis.antt =====
-- What the program keeps in Redis. A key is the list of the parts that `RedisCacheService.key` joins
-- by colons: only the last part of a key is ever free text, so no two lists print alike.
use fastapi_newyear.Base.{
  ℕ, Bool, true, false, ◌&&◌, ◌||◌, String, List, [], ◌∷◌, Option, Text, text_eq, ◌==◌, ◌≡◌, refl,
  ◌↔◌, arith, ap, text_eq_iff, if◌then◌else◌,
}
use fastapi_newyear.Models.Accounts.{UserPublicDto}
use fastapi_newyear.Models.Items.{ItemResponseDto, ItemListResponseDto}
use fastapi_newyear.Models.Files.{FileRecord}
use text.Mathlib.Text.{◌==◌ as str_eq}
use text.Mathlib.TextEquality.{eq_iff}

pub data Part : Type 0 where
  word : String → Part
  num : ℕ → Part
  free : Text → Part

abbrev pub Key : Type 0
Key = List Part

abbrev pub part_eq : Part → Part → Bool
part_eq (word a) (word b) = str_eq a b
part_eq (num a) (num b) = a == b
part_eq (free a) (free b) = text_eq a b
part_eq _ _ = false

abbrev pub key_eq : Key → Key → Bool
key_eq [] [] = true
key_eq (a ∷ k) (b ∷ j) = part_eq a b && key_eq k j
key_eq _ _ = false

-- A key is in a list of keys.
abbrev pub listed : Key → List Key → Bool
listed k [] = false
listed k (j ∷ ks) = if key_eq j k then true else listed k ks

-- A pattern of SCAN: a key with `*` among its parts, which stands for one part or more.
pub data Glob : Type 0 where
  part : Part → Glob
  star : Glob

abbrev pub Pattern : Type 0
Pattern = List Glob

-- A test holds of what is left of a key after its first part, or after more of its parts.
abbrev rest_passes : (Key → Bool) → Key → Bool
rest_passes f [] = false
rest_passes f (a ∷ k) = f k || rest_passes f k

abbrev pub glob_match : Pattern → Key → Bool
glob_match [] [] = true
glob_match [] (a ∷ k) = false
glob_match (part b ∷ p) [] = false
glob_match (part b ∷ p) (a ∷ k) = part_eq b a && glob_match p k
glob_match (star ∷ p) k = rest_passes (glob_match p) k

-- The values, after `json.dumps` and `json.loads`.
pub data Value : Type 0 where
  valid processed : Value
  profile : UserPublicDto → Value
  item : ItemResponseDto → Value
  items : ItemListResponseDto → Value
  file_meta : FileRecord → Value
  lock_id count : ℕ → Value

pub record Entry : Type 0 where
  pub key : Key
  pub value : Value
  pub deadline : Option ℕ

-- The entries of a server.
abbrev pub Dump : Type 0
Dump = List Entry

part_eq_iff : (a b : Part) → (part_eq a b ≡ true) ↔ (a ≡ b)
part_eq_iff (word a) (word b) = (λ h. ap word ((eq_iff a b).0 h), λ h. ground (arith, eq_iff a b))
part_eq_iff (num a) (num b) = (λ h. ground arith, λ h. ground arith)
part_eq_iff (free a) (free b) =
    (λ h. ap free ((text_eq_iff a b).0 h), λ h. ground (arith, text_eq_iff a b))
part_eq_iff (word a) (num b) = (λ h. cc, λ h. cc)
part_eq_iff (word a) (free b) = (λ h. cc, λ h. cc)
part_eq_iff (num a) (word b) = (λ h. cc, λ h. cc)
part_eq_iff (num a) (free b) = (λ h. cc, λ h. cc)
part_eq_iff (free a) (word b) = (λ h. cc, λ h. cc)
part_eq_iff (free a) (num b) = (λ h. cc, λ h. cc)

pub key_eq_refl : (k : Key) → key_eq k k ≡ true
key_eq_refl [] = refl
key_eq_refl (a ∷ k) = ground (arith, part_eq_iff a a, key_eq_refl k)

pub key_eq→eq : (k j : Key) → key_eq k j ≡ true → k ≡ j
key_eq→eq [] [] h = refl
key_eq→eq [] (b ∷ j) h = cc
key_eq→eq (a ∷ k) [] h = cc
key_eq→eq (a ∷ k) (b ∷ j) h = ground (arith, part_eq_iff a b, key_eq→eq k j)
