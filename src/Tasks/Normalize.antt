-- ===== src/Tasks/Normalize.antt =====
-- `TaskEngine._normalize_steps`: the checked plan of a new task.
pub mod Order
use agenelf.Base.{
  ℕ, suc, ◌+◌, ◌/◌, ◌%◌, Bool, true, false, not, ◌&&◌, ◌||◌, Option, none, some, Text, List, [],
  ◌∷◌, ◌++◌, codes, ℤ, pos, negsuc, ltb, leb, ◌==◌, length, if◌then◌else◌, is_empty, lower, strip,
  Result, ok, err, bind,
}
use agenelf.Storage.{collapsed_text}
use agenelf.Tasks.States.{Risk, StepState, parse_risk}
use agenelf.Tasks.Data.{
  Step, TaskError, no_steps, too_many_steps, step_not_object, step_without_title, step_risk_unknown,
  step_dependency_not_integer, step_dependency_not_earlier,
}

-- What `int(dependency)` makes of one item of `depends_on`.
pub data RawDependency : Type 0 where
  integer : ℤ → RawDependency
  not_integer : RawDependency

-- `data.get("depends_on", [])`: a list, an absent key (which reads as an empty list), or a value
-- of another type.
pub data RawDependencies : Type 0 where
  listed : List RawDependency → RawDependencies
  absent : RawDependencies
  not_list : RawDependencies

-- An object's fields, each as its `str(value or "")`; `risk` as the `str` of its value or default.
pub record RawFields : Type 0 where
  pub title : Text
  pub capability : Text
  pub operation : Text
  pub target : Text
  pub parameters_ref : Text
  pub risk : Text
  pub depends_on : RawDependencies

pub data RawStep : Type 0 where
  only_title : Text → RawStep
  object : RawFields → RawStep
  other : RawStep

-- `{"title": raw}`.
abbrev pub titled : Text → RawFields
titled raw = record {
  title = raw;
  capability = [];
  operation = [];
  target = [];
  parameters_ref = [];
  risk = codes "read";
  depends_on = absent;
}

unfoldable pub contains : List ℕ → ℕ → Bool
contains [] n = false
contains (m ∷ ms) n = m == n || contains ms n

-- One dependency of the step at `index`, against the step's earlier ones.
unfoldable pub check_dependency : ℕ → RawDependency → List ℕ → Result TaskError (List ℕ)
unfolding contains
check_dependency index not_integer found = err (step_dependency_not_integer index)
check_dependency index (integer (negsuc n)) found = err (step_dependency_not_earlier index)
check_dependency index (integer (pos n)) found =
    if leb index n
    then err (step_dependency_not_earlier index)
    else ok (if contains found n then found else found ++ n ∷ [])

unfoldable pub check_dependencies : ℕ → List RawDependency → List ℕ → Result TaskError (List ℕ)
unfolding check_dependency
check_dependencies index [] found = ok found
check_dependencies index (raw ∷ raws) found =
    bind (check_dependency index raw found) (λ found'. check_dependencies index raws found')

unfoldable pub dependencies : ℕ → RawDependencies → Result TaskError (List ℕ)
unfolding check_dependencies
dependencies index (listed raws) = check_dependencies index raws []
dependencies index absent = ok []
dependencies (suc previous) not_list = ok (previous ∷ [])
dependencies index not_list = ok []

-- `f"step-{index + 1:02d}"`: two digits, as no task has more than 50 steps.
unfoldable pub step_id : ℕ → Text
step_id number = codes "step-" ++ (48 + number / 10) ∷ (48 + number % 10) ∷ []

abbrev pub build_step : ℕ → RawFields → Text → Risk → List ℕ → Step
build_step index fields title risk depends_on = record {
  id = step_id (index + 1);
  title = title;
  capability = collapsed_text fields.capability 200;
  operation = collapsed_text fields.operation 200;
  target = collapsed_text fields.target 300;
  parameters_ref = collapsed_text fields.parameters_ref 500;
  risk = risk;
  depends_on = depends_on;
  status = StepState.pending;
  approval_request_id = none;
  started_at = none;
  finished_at = none;
  note = [];
  evidence_refs = [];
}

unfoldable pub normalize_fields : ℕ → RawFields → Result TaskError Step
normalize_fields index fields =
    let title = collapsed_text fields.title 500 in
    if is_empty title
    then err (step_without_title index)
    else elim (parse_risk (strip (lower fields.risk))) [
      | none ↦ err (step_risk_unknown index)
      | some risk ↦
          bind (dependencies index fields.depends_on)
            (λ depends_on. ok (build_step index fields title risk depends_on))
    ]

unfoldable pub normalize_step : ℕ → RawStep → Result TaskError Step
unfolding normalize_fields
normalize_step index (only_title raw) = normalize_fields index (titled raw)
normalize_step index (object fields) = normalize_fields index fields
normalize_step index other = err (step_not_object index)

-- The `for` loop, from the step at `index` on.
unfoldable pub normalize_from : ℕ → List RawStep → Result TaskError (List Step)
unfolding normalize_step
normalize_from index [] = ok []
normalize_from index (raw ∷ raws) =
    bind (normalize_step index raw)
      (λ step. bind (normalize_from (index + 1) raws) (λ steps. ok (step ∷ steps)))

unfoldable pub normalize_steps : List RawStep → Result TaskError (List Step)
unfolding normalize_from
normalize_steps [] = err no_steps
normalize_steps raws = if ltb 50 (length raws) then err too_many_steps else normalize_from 0 raws
