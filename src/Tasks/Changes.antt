-- ===== src/Tasks/Changes.antt =====
-- What an operation on a task changes in the files (app/core/task_engine.py).
use agenelf.Base.{
  ℕ, ◌+◌, ◌<◌, ◌≡◌, ◌≢◌, refl, subst, ◌∙◌, ap, true, false, Option, none, some, Text, arith, strip,
  ok, Bool-cases, inl, inr, ℤ, pos, is_empty, Result-cases, Option-cases, get_elem?, length,
  index_below,
}
use agenelf.Tasks.States.{TaskState, StepState, is_terminal}
use agenelf.Tasks.Data.{Task, Step, Engine}
use agenelf.Tasks.Files.{get, record_event}
use agenelf.Tasks.Evidence.{add_evidence, attach_reference, add_reference, append_evidence}
use agenelf.Tasks.Transition.{transition, enter}
use agenelf.Tasks.Steps.{StepUpdate, update_step, with_evidence, move_task, restore_step, settle}
use agenelf.Tasks.Inversion.{Written, transition-ok, add_evidence-ok, update_step-ok, UpdatedStep}
use agenelf.Tasks.Frame.{get-of_Found, Found, get-ok, get-Written, get-Written_ne}

-- The task under `task_id` went from `old` to `new`; every other `get` answers as before.
pub record Changed (s s' : Engine) (task_id : Text) (old new : Task) : Type 0 where
  pub found : Found s task_id old
  pub kept : Found s' task_id new
  pub others : (other : Text) → other ≢ task_id → (get other s').0 ≡ (get other s).0
  pub newer : old.revision < new.revision

pub Changed-Written :
    {s s' : Engine} {now : ℕ} {task_id : Text} {old next result : Task}
    → (get task_id s).0 ≡ ok old
    → next.id ≡ old.id
    → old.revision < next.revision
    → Written s now next result s'
    → Changed s s' task_id old result
Changed-Written {s} {s'} {now} {task_id} {old} {next} {result} read same newer w =
    let f = get-ok task_id s read in
    record {
      found = f;
      kept = get-Written now task_id next result s s' (same ∙ f.named) f.legal w;
      others =
          λ other ne. get-Written_ne now task_id other next result old s s' (same ∙ f.named) ne f w;
      newer = omega (arith, ap (λ (t : Task). t.revision) w.touched);
    }

pub Changed-trans :
    {s t u : Engine} {task_id : Text} {a b c : Task}
    → Changed s t task_id a b
    → Changed t u task_id b c
    → Changed s u task_id a c
Changed-trans f g = record {
  found = f.found;
  kept = g.kept;
  others = λ other ne. g.others other ne ∙ f.others other ne;
  newer = omega (arith, f.newer, g.newer);
}

pub status-enter :
    (to : TaskState) (now : ℕ) (reason : Text) (task : Task)
    → (enter to now reason task).status ≡ to
unfolding enter
status-enter TaskState.running now reason task = refl
status-enter _ now reason task = refl

pub enter-keeps :
    (to : TaskState) (now : ℕ) (reason : Text) (task : Task)
    → ((enter to now reason task).id ≡ task.id)
      × ((enter to now reason task).revision ≡ task.revision)
      × ((enter to now reason task).evidence ≡ task.evidence)
unfolding enter
enter-keeps TaskState.running now reason task = (refl, refl, refl)
enter-keeps _ now reason task = (refl, refl, refl)

pub transition-Changed :
    (now : ℕ) (task_id to_status reason : Text) (expected : Option ℕ) (s s' : Engine)
    (result : Task)
    → transition now task_id to_status reason expected s ≡ (ok result, s')
    → (old : Task) × Changed s s' task_id old result
unfolding record_event
transition-Changed now task_id to_status reason expected s s' result h =
    let t = transition-ok now task_id to_status reason expected s h in
    let (same, revision, evidence) = enter-keeps t.to now _ t.task in
    (t.task, Changed-Written t.found same (omega (arith, revision)) t.wrote)

add_reference-keeps :
    (reference : Text) (o : Option Step) (t : Task) (i : ℕ)
    → ((add_reference reference o t i).id ≡ t.id)
      × ((add_reference reference o t i).revision ≡ t.revision)
      × ((add_reference reference o t i).status ≡ t.status)
      × ((add_reference reference o t i).evidence ≡ t.evidence)
unfolding add_reference
add_reference-keeps reference none t i = (refl, refl, refl, refl)
add_reference-keeps reference (some step) t i = (refl, refl, refl, refl)

pub attach-keeps :
    (index : Option ℤ) (reference : Text) (t : Task) {u : Task}
    → attach_reference index reference t ≡ ok u
    → (u.id ≡ t.id) × (u.revision ≡ t.revision) × (u.status ≡ t.status) × (u.evidence ≡ t.evidence)
unfolding attach_reference
attach-keeps none reference t h = ground arith
attach-keeps (some index) reference t h = elim (Option-cases (index_below (length t.steps) index)) [
  | inl e ↦ ground arith
  | inr (i, e) ↦ ground (arith, add_reference-keeps reference (get_elem? t.steps i) t i)
]

pub add_evidence-Changed :
    (now : ℕ) (task_id kind reference summary : Text) (index : Option ℤ) (expected : Option ℕ)
    (s s' : Engine) (result : Task)
    → add_evidence now task_id kind reference summary index expected s ≡ (ok result, s')
    → (old : Task) × Changed s s' task_id old result
      × (result.status ≡ old.status)
      × (result.revision ≡ old.revision + 1)
unfolding record_event append_evidence
add_evidence-Changed now task_id kind reference summary index expected s s' result h =
    let a = add_evidence-ok now task_id kind reference summary index expected s h in
    let (same, revision, status, evidence) = attach-keeps index (strip reference) _ a.added in
    (
      a.task,
      Changed-Written a.found same (omega (arith, revision)) a.wrote,
      ap (λ (t : Task). t.status) a.wrote.touched ∙ status,
      omega (arith, revision, ap (λ (t : Task). t.revision) a.wrote.touched),
    )

pub settle-keeps :
    (to : StepState) (u : StepUpdate) (step : Step) (t : Task)
    → ((settle to u step t).id ≡ t.id)
      × ((settle to u step t).revision ≡ t.revision)
      × ((settle to u step t).steps ≡ t.steps)
      × ((settle to u step t).evidence ≡ t.evidence)
unfolding settle
settle-keeps StepState.failed u step t = (refl, refl, refl, refl)
settle-keeps to u step t = (ground arith, ground arith, ground arith, ground arith)

pub restore_step-keeps :
    (now : ℕ) (to : StepState) (u : StepUpdate) (i : ℕ) (o : Option Step) (t : Task)
    → ((restore_step now to u i o t).id ≡ t.id)
      × ((restore_step now to u i o t).revision ≡ t.revision)
unfolding restore_step
restore_step-keeps now to u i none t = (refl, refl)
restore_step-keeps now to u i (some step) t = (refl, refl)

-- The two ways through `with_evidence`: the step was moved in the task that was read, or the
-- evidence was added first and the step moved in what `add_evidence` returned.
pub data Moved (now : ℕ) (task_id : Text) (to : StepState) (u : StepUpdate) (i : ℕ) (step : Step)
    (task : Task) (s : Engine) (moved : Task) (t : Engine) : Type 0 where
  in_place :
      is_empty u.evidence_reference ≡ true
      → moved ≡ move_task now to u i step task
      → t ≡ s
      → Moved now task_id to u i step task s moved t
  after_evidence :
      (reread : Task)
      → is_empty u.evidence_reference ≡ false
      → add_evidence now task_id u.evidence_kind u.evidence_reference u.note
          (some (pos i))
          (some task.revision)
          s
        ≡ (ok reread, t)
      → moved ≡ restore_step now to u i (get_elem? reread.steps i) reread
      → Moved now task_id to u i step task s moved t

pub with_evidence-Moved :
    (now : ℕ) (task_id : Text) (to : StepState) (u : StepUpdate) (i : ℕ) (step : Step) (task : Task)
    (s : Engine) {moved : Task} {t : Engine}
    → with_evidence now task_id to u i step task s ≡ (ok moved, t)
    → Moved now task_id to u i step task s moved t
unfolding with_evidence
with_evidence-Moved now task_id to u i step task s {moved = moved} {t = t} h =
    let call =
      add_evidence now task_id u.evidence_kind u.evidence_reference u.note (some (pos i))
        (some task.revision) s in
    elim (Bool-cases (is_empty u.evidence_reference)) [
      | inl plain ↦ in_place plain (ground arith) (ground arith)
      | inr given ↦ elim (Result-cases call.0) [
        | inl (reread, added) ↦ after_evidence reread given (ground arith) (ground arith)
        | inr (e, refused) ↦ ground arith
      ]
    ]

pub update_step-Changed :
    (now : ℕ) (task_id : Text) (index : ℤ) (u : StepUpdate) (expected : Option ℕ) (s s' : Engine)
    (result : Task)
    → update_step now task_id index u expected s ≡ (ok result, s')
    → (old : Task) × Changed s s' task_id old result × (is_terminal old.status ≡ false)
unfolding record_event move_task
update_step-Changed now task_id index u expected s s' result h =
    let c = update_step-ok now task_id index u expected s h in
    let (id, revision, steps, evidence) = settle-keeps c.to u c.step c.moved in
    (c.task, through (with_evidence-Moved now task_id c.to u c.i c.step c.task s c.moves), c.live)
  where
    c : UpdatedStep s now task_id index u expected result s'
    c = update_step-ok now task_id index u expected s h

    through :
        Moved now task_id c.to u c.i c.step c.task s c.moved c.between
        → Changed s s' task_id c.task result
    through (in_place plain moved same) =
        let (id, revision, steps, evidence) = settle-keeps c.to u c.step c.moved in
        let read : (get task_id c.between).0 ≡ ok c.task = rw same c.found in
        let wrote = c.wrote in
        let unmoved : (c.moved.id ≡ c.task.id) × (c.moved.revision ≡ c.task.revision) =
          (rw moved refl, rw moved refl) in
        subst (λ t. Changed t s' task_id c.task result) same
          (Changed-Written read (id ∙ unmoved.0) (omega (arith, revision, unmoved.1)) c.wrote)
    through (after_evidence reread given added moved) =
        let (id, revision, steps, evidence) = settle-keeps c.to u c.step c.moved in
        let (old, first, status, one) =
          add_evidence-Changed now task_id u.evidence_kind u.evidence_reference u.note
            (some (pos c.i)) (some c.task.revision) s c.between reread added in
        let kept = restore_step-keeps now c.to u c.i (get_elem? reread.steps c.i) reread in
        let unmoved : (c.moved.id ≡ reread.id) × (c.moved.revision ≡ reread.revision) =
          (rw moved kept.0, rw moved kept.1) in
        let same : old ≡ c.task = ground (arith, get-of_Found task_id s first.found, c.found) in
        subst (λ t. Changed s s' task_id t result) same
          (Changed-trans first (
            Changed-Written (get-of_Found task_id c.between first.kept) (id ∙ unmoved.0)
              (omega (arith, revision, unmoved.1)) c.wrote))
