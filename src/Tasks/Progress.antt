-- ===== src/Tasks/Progress.antt =====
-- `next_action` never leaves a healthy plan stuck, and what it proposes can be done.
use agenelf.Base.{
  ℕ, zero, suc, ◌<◌, ◌≡◌, ◌≢◌, refl, Bool, true, false, ◌||◌, none, some, List, [], ◌∷◌, arith,
  Option-cases, inl, inr, all, all-get, get_elem?, get_elem?-ne-none, get_elem?-lt, length,
}
use agenelf.Tasks.States.{is_success, is_terminal}
use agenelf.Tasks.Data.{Task, Step}
use agenelf.Tasks.Normalize.Order.{AllBelow}
use agenelf.Tasks.Transition.{all_succeeded}
use agenelf.Tasks.Steps.{is_done, dependencies_satisfied}
use agenelf.Tasks.Next.{wait, first_step, is_pending, is_ready, closing_action, action_of}
use agenelf.Tasks.Dependencies.{IsSound}

-- What a search that found nothing, or something, says of the steps.
pub first_step-none :
    (p : Step → Bool) (base : ℕ) (steps : List Step) (j : ℕ) {st : Step}
    → first_step p base steps ≡ none
    → get_elem? steps j ≡ some st
    → p st ≡ false
unfolding first_step
first_step-none p base [] j h at = ground arith
first_step-none p base (x ∷ xs) zero h at = ground arith
first_step-none p base (x ∷ xs) (suc j) {st = st} h at =
    ground (arith, first_step-none p (suc base) xs j {st = st})

-- Every step is pending, succeeded or skipped.
abbrev pub IsHealthy : List Step → Type 0
IsHealthy steps = all (λ st. is_pending st || is_success st.status) steps ≡ true

all-of_get :
    (p : Step → Bool) (steps : List Step)
    → ((j : ℕ) (st : Step) → get_elem? steps j ≡ some st → p st ≡ true)
    → all p steps ≡ true
all-of_get p [] h = refl
all-of_get p (x ∷ xs) h = ground (arith, h 0 x refl, all-of_get p xs (λ j st at. h (suc j) st at))

all_done :
    (steps : List Step) (j : ℕ) (ds : List ℕ)
    → ((k : ℕ) → k < j → is_done steps k ≡ true)
    → AllBelow j ds
    → all (is_done steps) ds ≡ true
all_done steps j [] h below = refl
all_done steps j (d ∷ ds) h below = ground (arith, h d below.0, all_done steps j ds h below.1)

-- If no step of a healthy sound plan is ready, then every step is done.
module _ (steps : List Step) (sound : IsSound steps) (healthy : IsHealthy steps)
    (idle : first_step (is_ready steps) 0 steps ≡ none) where
  done_below : (n k : ℕ) → k < n → k < length steps → is_done steps k ≡ true
  unfolding is_done is_ready dependencies_satisfied
  done_below zero k lt inside = elim lt [ ]
  done_below (suc n) k lt inside = elim (Option-cases (get_elem? steps k)) [
    | inl e ↦ absurd (get_elem?-ne-none steps k inside e)
    | inr (st, at) ↦
        let met =
          all_done steps k st.depends_on (λ m mk. done_below n m (omega arith) (omega arith))
            (sound.ordered k st at) in
        ground (
          arith,
          first_step-none (is_ready steps) 0 steps k idle at,
          all-get (λ x. is_pending x || is_success x.status) steps k healthy at,
        )
  ]

done_status :
    (steps : List Step) (j : ℕ) {st : Step}
    → get_elem? steps j ≡ some st
    → is_done steps j ≡ true
    → is_success st.status ≡ true
unfolding is_done
done_status steps j at h = ground arith

-- A task that has not ended, with a sound plan of which every step is pending, succeeded or
-- skipped, is never told to wait: a step can be executed, or the task can be closed.
pub action_of-ne-wait :
    (task : Task)
    → IsSound task.steps
    → IsHealthy task.steps
    → is_terminal task.status ≡ false
    → action_of task ≢ wait
unfolding action_of closing_action all_succeeded
action_of-ne-wait task sound healthy live h =
    elim (Option-cases (first_step (is_ready task.steps) 0 task.steps)) [
      | inr (i, ready) ↦ ground arith
      | inl idle ↦
          let done : all_succeeded task ≡ true =
            all-of_get (λ st. is_success st.status) task.steps
              (λ j st at. done_status task.steps j at (
                done_below task.steps sound healthy idle (suc j) j (omega arith)
                  (get_elem?-lt task.steps j at))) in
          ground arith
    ]
