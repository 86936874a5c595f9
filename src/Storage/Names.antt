-- ===== src/Storage/Names.antt =====
-- `StorageService._object_key`: the suffix of a file name, as pathlib finds it.
use fastapi_newyear.Base.{
  ℕ, ◌≡◌, refl, Bool, true, false, ◌&&◌, ◌||◌, Option, none, some, List, [], ◌∷◌, ◌++◌, Text, codes,
  lower, length, leb, ◌==◌, if◌then◌else◌,
}
use fastapi_newyear.Env.{Env}

-- The parts between the slashes.
split_slashes : Text → List Text
split_slashes [] = [] ∷ []
split_slashes (c ∷ s) = put (split_slashes s)
  where
    put : List Text → List Text
    put [] = (c ∷ []) ∷ []
    put (t ∷ ts) = if c == b'/' then [] ∷ t ∷ ts else (c ∷ t) ∷ ts

-- `Path.name`: the last part, but for empty parts and `.`, which a path drops.
is_dropped : Text → Bool
is_dropped [] = true
is_dropped (c ∷ []) = c == b'.'
is_dropped _ = false

last_part : Text → List Text → Text
unfolding is_dropped
last_part found [] = found
last_part found (t ∷ ts) =
    let a = last_part found ts in let b = last_part t ts in if is_dropped t then a else b

-- What follows the last dot, with the dot.
last_suffix : Text → Option Text
last_suffix [] = none
last_suffix (c ∷ s) = elim (last_suffix s) [
  | some t ↦ some t
  | none ↦ if c == b'.' then some (c ∷ s) else none
]

-- `Path.suffix`: the dot is not the first character of the name, and not the last.
proper : Option Text → Text
proper none = []
proper (some []) = []
proper (some (c ∷ [])) = []
proper (some (c ∷ d ∷ s)) = c ∷ d ∷ s

suffix_of_name : Text → Text
unfolding last_suffix proper
suffix_of_name [] = []
suffix_of_name (c ∷ s) = proper (last_suffix s)

unfoldable pub suffix : Text → Text
unfolding last_part split_slashes suffix_of_name
suffix filename = suffix_of_name (last_part [] (split_slashes filename))

is_plain : ℕ → Bool
is_plain c = leb b'a' c && leb c b'z' || leb b'0' c && leb c b'9'

all_plain : Text → Bool
unfolding is_plain
all_plain [] = true
all_plain (c ∷ s) = is_plain c && all_plain s

-- `re.fullmatch(r"\.[a-z0-9]{1,10}", suffix)`.
suffix_match : Text → Bool
unfolding all_plain
suffix_match [] = false
suffix_match (c ∷ s) = c == b'.' && leb 1 (length s) && leb (length s) 10 && all_plain s

unfoldable pub plain_suffix : Text → Text
unfolding suffix_match suffix
plain_suffix filename = let s = lower (suffix filename) in if suffix_match s then s else []

module _ ⦃env : Env⦄ where
  unfoldable pub object_key : ℕ → ℕ → Text → Text
  object_key user_id file_id filename =
      codes "users/"
      ++ env.uuid_text user_id
      ++ codes "/files/"
      ++ env.uuid_text file_id
      ++ plain_suffix filename

suffix_tests :
    (plain_suffix (codes "photos/Winter.2026.PNG") ≡ codes ".png")
    × (plain_suffix (codes ".png") ≡ [])
    × (plain_suffix (codes "a.png/.") ≡ codes ".png")
    × (plain_suffix (codes "a.p_g") ≡ [])
unfolding plain_suffix suffix lower
suffix_tests = (refl, refl, refl, refl)
