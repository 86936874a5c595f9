-- ===== src/Env/KeyStore.antt =====
-- The commands of Redis, on the entries of the server at a moment of its clock.
use fastapi_newyear.Base.{
  ℕ, ◌+◌, ◌*◌, ◌≤◌, ◌≡◌, ◌≢◌, Bool, true, false, is_some, Option, none, some, List, ltb,
  if◌then◌else◌,
}
use fastapi_newyear.Redis.{Key, key_eq, Pattern, glob_match, listed, Value, count, Dump}
use fastapi_newyear.Config.{second}

pub record Redis : Type 0 where
  pub get : ℕ → Key → Dump → Option Value
  -- SET key value EX ttl.
  pub set : ℕ → Key → Value → ℕ → Dump → Dump
  -- SET key value EX ttl NX: whether it has set the key.
  pub set_nx : ℕ → Key → Value → ℕ → Dump → Bool × Dump
  pub delete : Key → Dump → Dump
  -- The keys that a full SCAN with MATCH returns.
  pub scan : ℕ → Pattern → Dump → List Key
  -- INCR: the number after it.
  pub incr : ℕ → Key → Dump → ℕ × Dump
  pub expire : ℕ → Key → ℕ → Dump → Dump
  -- A key that was set is there until its time to live has passed, and no other key has changed.
  pub get-set :
      (t now : ℕ) (k j : Key) (v : Value) (ttl : ℕ) (s : Dump)
      → get t j (set now k v ttl s)
        ≡ (if key_eq k j then (if ltb t (now + ttl * second) then some v else none) else get t j s)
  pub set_nx_lem :
      (now : ℕ) (k : Key) (v : Value) (ttl : ℕ) (s : Dump)
      → set_nx now k v ttl s
        ≡ (if is_some (get now k s) then (false, s) else (true, set now k v ttl s))
  -- What has expired does not come back.
  pub get_later : (t u : ℕ) (k : Key) (s : Dump) → t ≤ u → get t k s ≡ none → get u k s ≡ none
  pub get-delete :
      (t : ℕ) (k j : Key) (s : Dump)
      → get t j (delete k s) ≡ (if key_eq k j then none else get t j s)
  -- "A full iteration always retrieves all the elements that were present."
  pub scan_complete :
      (t : ℕ) (p : Pattern) (k : Key) (s : Dump)
      → get t k s ≢ none
      → glob_match p k ≡ true
      → listed k (scan t p s) ≡ true
  pub scan_sound :
      (t : ℕ) (p : Pattern) (k : Key) (s : Dump)
      → listed k (scan t p s) ≡ true
      → glob_match p k ≡ true
  -- A counter starts from 0; the command keeps the other keys.
  pub incr_first : (t : ℕ) (k : Key) (s : Dump) → get t k s ≡ none → (incr t k s).0 ≡ 1
  pub incr_next :
      (t n : ℕ) (k : Key) (s : Dump) → get t k s ≡ some (count n) → (incr t k s).0 ≡ n + 1
  pub get-incr :
      (t : ℕ) (k j : Key) (s : Dump)
      → get t j (incr t k s).1 ≡ (if key_eq k j then some (count (incr t k s).0) else get t j s)
  pub get-expire :
      (t now : ℕ) (k j : Key) (ttl : ℕ) (s : Dump)
      → now ≤ t
      → get t j (expire now k ttl s) ≡ (
          if key_eq k j
          then (if ltb t (now + ttl * second) then get now j s else none)
          else get t j s)
