-- ===== src/Config/Durations.antt =====
-- The durations of the settings are whole minutes.
use fastapi_newyear.Base.{
  ℕ, ◌+◌, ◌-◌, ◌*◌, ◌%◌, ◌≡◌, ◌⊎◌, [], ◌∷◌, some, Text, lower, strip, arith, Option-cases, inl, inr,
}
use fastapi_newyear.Errors.{ok}
use fastapi_newyear.Config.{
  Settings, second, minute, unit_length, amount_unit, duration_match, parse_duration, access_ttl,
}

whole_unit :
    (c u : ℕ) → unit_length c ≡ some u → (u ≡ minute) ⊎ ((u ≡ 60 * minute) ⊎ (u ≡ 24 * 60 * minute))
unfolding unit_length
whole_unit c u h = ground arith

whole_times :
    (n u : ℕ) → ((u ≡ minute) ⊎ ((u ≡ 60 * minute) ⊎ (u ≡ 24 * 60 * minute))) → (n * u) % second ≡ 0
whole_times n u (inl e) = rw e (omega arith)
whole_times n u (inr (inl e)) = rw e (omega arith)
whole_times n u (inr (inr e)) = rw e (omega arith)

whole_amount : (n t : ℕ) (s : Text) → amount_unit n s ≡ some t → t % second ≡ 0
unfolding amount_unit
whole_amount n t [] h = ground arith
whole_amount n t (c ∷ []) h = elim (Option-cases (unit_length c)) [
  | inl none_such ↦ ground arith
  | inr (u, e) ↦
      let amount : n * u ≡ t = ground arith in rw (← amount) (whole_times n u (whole_unit c u e))
]
whole_amount n t (c ∷ d ∷ s) h = ground (arith, whole_amount (n * 10 + (c - b'0')) t (d ∷ s))

whole_match : (t : ℕ) (s : Text) → duration_match s ≡ some t → t % second ≡ 0
unfolding duration_match
whole_match t [] h = ground arith
whole_match t (c ∷ s) h = ground (arith, whole_amount (c - b'0') t s)

pub access_ttl_whole : (s : Settings) (t : ℕ) → access_ttl s ≡ ok t → t % second ≡ 0
unfolding access_ttl parse_duration
access_ttl_whole s t h = ground (arith, whole_match t (strip (lower s.jwt_access_expiration)))
