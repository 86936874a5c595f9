-- ===== src/Examples/Keys.antt =====
-- Redis as a list of entries, the newest first.
use fastapi_newyear.Base.{
  ℕ, ◌+◌, ◌*◌, ◌≤◌, ◌≡◌, refl, sym, ◌∙◌, ◌≢◌, Bool, true, false, Option, none, some, List, [], ◌∷◌,
  arith, ltb, is_some, if◌then◌else◌, Bool-cases, inl, inr,
}
use fastapi_newyear.Redis.{
  Key, key_eq, key_eq→eq, key_eq_refl, listed, Pattern, glob_match, Value, count, Dump,
}
use fastapi_newyear.Env.{Redis}
use fastapi_newyear.Config.{second}

abbrev pub alive : ℕ → Option ℕ → Bool
alive t none = true
alive t (some d) = ltb t d

unfoldable pub get : ℕ → Key → Dump → Option Value
get t k [] = none
get t k (e ∷ s) =
    if key_eq e.key k then (if alive t e.deadline then some e.value else none) else get t k s

abbrev pub set : ℕ → Key → Value → ℕ → Dump → Dump
set now k v ttl s = record { key = k; value = v; deadline = some (now + ttl * second) } ∷ s

abbrev pub set_nx : ℕ → Key → Value → ℕ → Dump → Bool × Dump
set_nx now k v ttl s = if is_some (get now k s) then (false, s) else (true, set now k v ttl s)

unfoldable pub delete : Key → Dump → Dump
delete k [] = []
delete k (e ∷ s) = let rest = delete k s in if key_eq k e.key then rest else e ∷ rest

unfoldable pub scan : ℕ → Pattern → Dump → List Key
scan t p [] = []
scan t p (e ∷ s) = let rest = scan t p s in if glob_match p e.key then e.key ∷ rest else rest

abbrev pub next : Option Value → ℕ
next (some (count n)) = n + 1
next _ = 1

abbrev pub incr : ℕ → Key → Dump → ℕ × Dump
incr t k s =
    let n = next (get t k s) in (n, record { key = k; value = count n; deadline = none } ∷ s)

abbrev pub kept : ℕ → Key → ℕ → Option Value → Dump → Dump
kept now k ttl none s = s
kept now k ttl (some v) s = set now k v ttl s

abbrev pub expire : ℕ → Key → ℕ → Dump → Dump
expire now k ttl s = kept now k ttl (get now k s) s

pub get-set :
    (t now : ℕ) (k j : Key) (v : Value) (ttl : ℕ) (s : Dump)
    → get t j (set now k v ttl s)
      ≡ (if key_eq k j then (if ltb t (now + ttl * second) then some v else none) else get t j s)
unfolding get
get-set t now k j v ttl s = refl

key_eq_cases : (k j l : Key) → key_eq k j ≡ true → key_eq k l ≡ key_eq j l
key_eq_cases k j l e = rw (key_eq→eq k j e) refl

key_eq_sym : (k j : Key) → key_eq k j ≡ true → key_eq j k ≡ true
key_eq_sym k j e = rw (key_eq→eq k j e) (key_eq_refl j)

key_eq_meet : (k j l : Key) → key_eq k l ≡ true → key_eq j l ≡ true → key_eq k j ≡ true
key_eq_meet k j l e f = rw (key_eq→eq k l e ∙ sym (key_eq→eq j l f)) (key_eq_refl j)

pub get-delete :
    (t : ℕ) (k j : Key) (s : Dump) → get t j (delete k s) ≡ (if key_eq k j then none else get t j s)
unfolding get delete
get-delete t k j [] = ground arith
get-delete t k j (e ∷ s) =
    ground
      (arith, get-delete t k j s, key_eq_cases k e.key j, key_eq_sym k e.key, key_eq_meet k e.key j)

pub get_later : (t u : ℕ) (k : Key) (s : Dump) → t ≤ u → get t k s ≡ none → get u k s ≡ none
unfolding get
get_later t u k [] later h = refl
get_later t u k (e ∷ s) later h = ground (arith, get_later t u k s later)

pub scan_complete :
    (t : ℕ) (p : Pattern) (k : Key) (s : Dump)
    → get t k s ≢ none
    → glob_match p k ≡ true
    → listed k (scan t p s) ≡ true
unfolding get scan
scan_complete t p k [] h m = absurd (h refl)
scan_complete t p k (e ∷ s) h m = elim (Bool-cases (key_eq e.key k)) [
  | inl same ↦
      let hit : glob_match p e.key ≡ true = rw (key_eq→eq e.key k same) m in ground (arith, hit)
  | inr other ↦ ground (arith, scan_complete t p k s (rw other at h) m)
]

pub scan_sound :
    (t : ℕ) (p : Pattern) (k : Key) (s : Dump)
    → listed k (scan t p s) ≡ true
    → glob_match p k ≡ true
unfolding scan
scan_sound t p k [] h = absurd (cc)
scan_sound t p k (e ∷ s) h = elim (Bool-cases (glob_match p e.key)) [
  | inr miss ↦ scan_sound t p k s (rw miss at h)
  | inl hit ↦ elim (Bool-cases (key_eq e.key k)) [
    | inl same ↦ rw (key_eq→eq e.key k same) at hit
    | inr other ↦ scan_sound t p k s (rw other at (rw hit at h))
  ]
]

pub incr_first : (t : ℕ) (k : Key) (s : Dump) → get t k s ≡ none → (incr t k s).0 ≡ 1
incr_first t k s h = rw h

pub incr_next : (t n : ℕ) (k : Key) (s : Dump) → get t k s ≡ some (count n) → (incr t k s).0 ≡ n + 1
incr_next t n k s h = rw h

pub get-incr :
    (t : ℕ) (k j : Key) (s : Dump)
    → get t j (incr t k s).1 ≡ (if key_eq k j then some (count (incr t k s).0) else get t j s)
unfolding get
get-incr t k j s = refl

get-kept :
    (t now : ℕ) (k j : Key) (ttl : ℕ) (s : Dump) (o : Option Value)
    → now ≤ t
    → get now k s ≡ o
    → get t j (kept now k ttl o s) ≡ (
        if key_eq k j
        then (if ltb t (now + ttl * second) then get now j s else none)
        else get t j s)
unfolding get
get-kept t now k j ttl s none later h = elim (Bool-cases (key_eq k j)) [
  | inr other ↦ rw other
  | inl same ↦
      let gone : get now j s ≡ none = rw (key_eq→eq k j same) at h in
      ground (arith, same, gone, get_later now t j s later gone)
]
get-kept t now k j ttl s (some v) later h = elim (Bool-cases (key_eq k j)) [
  | inr other ↦ ground arith
  | inl same ↦
      let there : get now j s ≡ some v = rw (key_eq→eq k j same) at h in ground (arith, there)
]

pub get-expire :
    (t now : ℕ) (k j : Key) (ttl : ℕ) (s : Dump)
    → now ≤ t
    → get t j (expire now k ttl s) ≡ (
        if key_eq k j
        then (if ltb t (now + ttl * second) then get now j s else none)
        else get t j s)
get-expire t now k j ttl s later = get-kept t now k j ttl s (get now k s) later refl

abbrev pub entries : Redis
entries = record {
  get = get;
  set = set;
  set_nx = set_nx;
  delete = delete;
  scan = scan;
  incr = incr;
  expire = expire;
  get-set = get-set;
  set_nx_lem = λ now k v ttl s. refl;
  get_later = get_later;
  get-delete = get-delete;
  scan_complete = scan_complete;
  scan_sound = scan_sound;
  incr_first = incr_first;
  incr_next = incr_next;
  get-incr = get-incr;
  get-expire = get-expire;
}
