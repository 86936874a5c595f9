-- ===== src/Notifications/Consumer/Supervision.antt =====
-- `UserRegisteredConsumer._run`: the loop that restarts `rabbitmq.consume`.
use fastapi_newyear.Base.{
  ℕ, zero, suc, ◌+◌, ◌≤◌, ◌<◌, ◌≡◌, refl, ap, ◌∙◌, ◌⊎◌, inl, inr, Bool, true, false, List, [], ◌∷◌,
  ◌++◌, leb, arith, if◌then◌else◌, Bool-cases,
}

-- One round of the loop: whether `consume` raised, and whether the stop event was set when it ended.
pub record Round : Type 0 where
  pub raised : Bool
  pub stopping : Bool

-- The loop still runs after that many failures in a row, has stopped, or has ended the process.
pub data Loop : Type 0 where
  running : ℕ → Loop
  stopped exited : Loop

-- The rounds after one that has left that many failures.
unfoldable pub run_from : ℕ → ℕ → List Round → Loop
run_from max_failures failures [] = running failures
run_from max_failures failures (r ∷ rounds) =
    let fresh = run_from max_failures 0 rounds in
    let worse = run_from max_failures (failures + 1) rounds in
    if r.stopping
    then stopped
    else if r.raised
    then (if leb max_failures (failures + 1) then exited else worse)
    else fresh

-- That many rounds in a row that raise, before the loop is asked to stop.
abbrev pub crash : Round
crash = record { raised = true; stopping = false }

abbrev pub crashes : ℕ → List Round → List Round
crashes zero rounds = rounds
crashes (suc n) rounds = crash ∷ crashes n rounds

-- Rounds that leave the loop running lead to the count of failures that the next rounds start from.
run_from-append :
    (limit f n : ℕ) (before after : List Round)
    → run_from limit f before ≡ running n
    → run_from limit f (before ++ after) ≡ run_from limit n after
unfolding run_from
run_from-append limit f n [] after h = ground arith
run_from-append limit f n (r ∷ before) after h =
    ground
      (arith, run_from-append limit 0 n before after, run_from-append limit (f + 1) n before after)

exits_after :
    (limit k failures : ℕ) (rounds : List Round)
    → limit ≤ failures + suc k
    → run_from limit failures (crashes (suc k) rounds) ≡ exited
unfolding run_from
exits_after limit zero failures rounds h = ground arith
exits_after limit (suc k) failures rounds h =
    ground (arith, exits_after limit k (failures + 1) rounds)

-- The failures that were left go on for so many rounds that the limit is reached.
abbrev GoesOn : ℕ → List Round → Type 0
GoesOn k rounds = (after : List Round) × (rounds ≡ crashes k after)

-- The rounds hold a row of as many failures as the limit says, behind rounds that have left the loop
-- running without a failure.
abbrev pub HasRow : ℕ → ℕ → List Round → Type 0
HasRow limit f rounds =
    (before : List Round) × (after : List Round) × (rounds ≡ before ++ crashes limit after)
    × (run_from limit f before ≡ running 0)

is_crash : (r : Round) → r.raised ≡ true → r.stopping ≡ false → r ≡ crash
is_crash r raised running_on = ground arith

-- A failure completes the row, or the next rounds go on with one failure more.
after_failure :
    (p k f : ℕ) (r : Round) (rounds : List Round)
    → r.raised ≡ true
    → r.stopping ≡ false
    → suc p ≡ f + suc k
    → run_from (suc p) f (r ∷ rounds) ≡ exited
    → ((j : ℕ)
        → suc p ≡ (f + 1) + suc j
        → run_from (suc p) (f + 1) rounds ≡ exited
        → GoesOn (suc j) rounds ⊎ HasRow (suc p) (f + 1) rounds)
    → GoesOn (suc k) (r ∷ rounds) ⊎ HasRow (suc p) f (r ∷ rounds)
unfolding run_from
after_failure p zero f r rounds raised on left h next =
    inl (rounds, ap (λ x. x ∷ rounds) (is_crash r raised on))
after_failure p (suc k) f r rounds raised on left h next =
    elim (next k (omega arith) (ground arith)) [
      | inl (after, e) ↦
          inl (after, ap (λ x. x ∷ rounds) (is_crash r raised on) ∙ ap (λ rs. crash ∷ rs) e)
      | inr (before, after, e, quiet) ↦ inr (r ∷ before, after, ap (λ rs. r ∷ rs) e, ground arith)
    ]

exits_only :
    (p k f : ℕ) (rounds : List Round)
    → suc p ≡ f + suc k
    → run_from (suc p) f rounds ≡ exited
    → GoesOn (suc k) rounds ⊎ HasRow (suc p) f rounds
unfolding run_from
exits_only p k f [] left h = cc
exits_only p k f (r ∷ rounds) left h = elim (Bool-cases r.stopping) [
  | inl asked ↦ absurd (ground arith)
  | inr on ↦ elim (Bool-cases r.raised) [
    | inr fine ↦
        let first_round : run_from (suc p) f (r ∷ []) ≡ running 0 = ground arith in
        elim (exits_only p p 0 rounds (omega arith) (ground arith)) [
          | inl (after, e) ↦ inr (r ∷ [], after, ap (λ rs. r ∷ rs) e, first_round)
          | inr (before, after, e, quiet) ↦
              inr (r ∷ before, after, ap (λ rs. r ∷ rs) e, ground arith)
        ]
    | inl raised ↦
        after_failure p k f r rounds raised on left h
          (λ j more rest. exits_only p j (f + 1) rounds more rest)
  ]
]

-- The process ends after as many rounds in a row that raise as the limit says, if the rounds before them have left the
-- loop running, whatever count of failures they have left; and it ends only where the rounds hold such a row, behind rounds
-- that have left no failure. The limit is positive.
pub run_from_lem :
    (limit : ℕ)
    → 0 < limit
    → ((n : ℕ) (before after : List Round)
        → run_from limit 0 before ≡ running n
        → run_from limit 0 (before ++ crashes limit after) ≡ exited)
      × ((rounds : List Round) → run_from limit 0 rounds ≡ exited → HasRow limit 0 rounds)
unfolding run_from
run_from_lem zero pos = absurd (omega arith)
run_from_lem (suc p) pos = (
  λ n before after runs.
      run_from-append (suc p) 0 n before (crashes (suc p) after) runs
      ∙ exits_after (suc p) p n after (omega arith),
  λ rounds h. elim (exits_only p p 0 rounds (omega arith) h) [
    | inl (after, e) ↦ ([], after, e, refl)
    | inr row ↦ row
  ],
)
