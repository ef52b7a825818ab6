-- ===== src/Tasks/Creation.antt =====
-- What a successful `create` stores.
use agenelf.Base.{
  ℕ, ◌≡◌, sym, subst, ◌∙◌, ap, false, ◌&&◌, ◌||◌, none, some, Text, List, ◌++◌, codes, arith, strip,
  ok, Result-cases, Bool-cases, inl, inr, ◌⊎◌, is_empty, text_eq, text_eq_iff, length,
}
use agenelf.Storage.{collapsed_text, safe_string_list}
use agenelf.Tasks.States.{Priority}
use agenelf.Tasks.Data.{Task, Step, Definition, AuditLine, stored, Engine}
use agenelf.Tasks.Files.{get, find_file}
use agenelf.Tasks.Normalize.{normalize_steps}
use agenelf.Tasks.Normalize.Order.{normalize_steps-IsPlan}
use agenelf.Tasks.Create.{NewTask, create, build_task, priority_of, has_change}
use agenelf.Tasks.Inversion.{Written, commit-ok}
use agenelf.Tasks.Frame.{find_file-put_file, get-of_Found, get-ok}
use agenelf.Tasks.Dependencies.{IsSound, IsPlan-IsSound}

module _ (digest : Definition → Text) where
  pub record Created (s : Engine) (now : ℕ) (hex : Text) (new : NewTask) (result : Task)
      (s' : Engine) : Type 0 where
    pub priority : Priority
    pub steps : List Step
    pub planned : normalize_steps new.steps ≡ ok steps
    pub titled :
        (is_empty (collapsed_text new.title 300) || is_empty (collapsed_text new.owner_goal 2000))
        ≡ false
    pub accepted : is_empty (safe_string_list new.acceptance_criteria 20 1000) ≡ false
    pub evidenced : is_empty (safe_string_list new.evidence_plan 20 1000) ≡ false
    pub reversible : (has_change steps && is_empty (collapsed_text new.rollback_plan 2000)) ≡ false
    pub wrote : Written s now (build_task digest now hex new priority steps) result s'

  pub create-ok :
      (now : ℕ) (hex : Text) (new : NewTask) (s : Engine) {result : Task} {s' : Engine}
      → create digest now hex new s ≡ (ok result, s')
      → Created s now hex new result s'
  unfolding create
  create-ok now hex new s h = elim (Result-cases (priority_of new.priority)) [
    | inr (e, unknown) ↦ ground arith
    | inl (priority, known) ↦ elim (Result-cases (normalize_steps new.steps)) [
      | inr (e, refused) ↦ ground arith
      | inl (steps, planned) ↦ record {
        priority = priority;
        steps = steps;
        planned = planned;
        titled = ground arith;
        accepted = ground arith;
        evidenced = ground arith;
        reversible = ground arith;
        wrote =
            commit-ok now (build_task digest now hex new priority steps)
              (λ t. AuditLine.create t.id priority (length steps)) s (ground arith);
      }
    ]
  ]

  pub create-IsSound :
      (now : ℕ) (hex : Text) (new : NewTask) (s s' : Engine) (result : Task)
      → create digest now hex new s ≡ (ok result, s')
      → IsSound result.steps
  unfolding build_task
  create-IsSound now hex new s s' result h =
      let c = create-ok now hex new s h in
      subst IsSound (sym (ap (λ (t : Task). t.steps) c.wrote.touched))
        (IsPlan-IsSound c.steps (normalize_steps-IsPlan new.steps c.steps c.planned).0)

  -- A task that can be read after a `create` is the new one, or could be read before.
  pub get-create :
      (now : ℕ) (hex : Text) (new : NewTask) (s s' : Engine) (result : Task)
      → create digest now hex new s ≡ (ok result, s')
      → (other : Text) {t : Task} → (get other s').0 ≡ ok t
      → (t ≡ result) ⊎ ((get other s).0 ≡ ok t)
  unfolding build_task
  get-create now hex new s s' result h other {t = t} read =
      let w = (create-ok now hex new s h).wrote in
      let f = get-ok other s' read in
      let name = strip (codes "task-" ++ hex) in
      let found = sym (ap (find_file (strip other)) w.files) ∙ f.file in
      elim (Bool-cases (text_eq name (strip other))) [
        | inl one ↦
            let same : some (stored result) ≡ some (stored t) =
              rw (find_file-put_file, one) at found in
            inl (cc)
        | inr two ↦
            let before : find_file (strip other) s.files ≡ some (stored t) =
              rw (find_file-put_file, two) at found in
            inr (get-of_Found other s (record { named = f.named; legal = f.legal; file = before }))
      ]

  -- A task that can be read before a `create` under a fresh name stays as it is.
  pub create-keeps :
      (now : ℕ) (hex : Text) (new : NewTask) (s s' : Engine) (result : Task)
      → create digest now hex new s ≡ (ok result, s')
      → find_file (strip (codes "task-" ++ hex)) s.files ≡ none
      → (other : Text) {t : Task} → (get other s).0 ≡ ok t
      → (get other s').0 ≡ ok t
  unfolding build_task
  create-keeps now hex new s s' result h fresh other {t = t} read =
      let w = (create-ok now hex new s h).wrote in
      let f = get-ok other s read in
      let name = strip (codes "task-" ++ hex) in
      elim (Bool-cases (text_eq name (strip other))) [
        | inl one ↦
            let same : strip other ≡ name = sym ((text_eq_iff name (strip other)).0 one) in
            let clash : some (stored t) ≡ none =
              sym f.file ∙ ap (λ n. find_file n s.files) same ∙ fresh in
            cc
        | inr two ↦
            let after : find_file (strip other) s'.files ≡ some (stored t) =
              ap (find_file (strip other)) w.files ∙ rw (find_file-put_file, two) f.file in
            get-of_Found other s' (record { named = f.named; legal = f.legal; file = after })
      ]
