-- ===== src/Tasks/Inversion.antt =====
-- What a successful call of the task engine did: the facts that its guards established, the task
-- that it returned and the files that it left.
use agenelf.Base.{
  strip, Result-cases, inl, inr, ◌>>=◌, ◌>>◌, ℕ, ◌≡◌, true, false, ◌&&◌, Option, Text, [], arith, ℤ,
  ok, is_empty,
}
use agenelf.Storage.{collapsed_text}
use agenelf.Tasks.States.{TaskState, StepState, EvidenceKind, can_transition, is_terminal}
use agenelf.Tasks.Data.{
  Task, Step, Evidence, evidence_added, step_transition, task_entered, stored, AuditLine, Engine,
}
use agenelf.Tasks.Files.{
  get, write, note_audit, revision_differs, record_event, put_file, task_path,
}
use agenelf.Tasks.Evidence.{
  add_evidence, evidence_kind, attach_reference, append_evidence, trusted_evidence, evidence_index,
  is_reference,
}
use agenelf.Tasks.Transition.{transition, task_state, enter, needs_reason, check_completion}
use agenelf.Tasks.Steps.{
  StepUpdate, update_step, with_evidence, step_at, step_target, check_update, settle,
}
use agenelf.Tasks.Atomic.{get-state}

-- `result` is `next` with the new time, and it is in its file.
pub record Written (s : Engine) (now : ℕ) (next result : Task) (s' : Engine) : Type 0 where
  pub touched : result ≡ record next { updated_at = now }
  pub named : task_path next.id ≡ ok (strip next.id)
  pub files : s'.files ≡ put_file (strip next.id) (stored result) s.files

write-ok :
    (now : ℕ) (next : Task) (s : Engine) {result : Task}
    → (write now next s).0 ≡ ok result
    → Written s now next result (write now next s).1
unfolding write task_path
write-ok now next s h = ground arith

-- The end of every operation: write, then the line in the audit log.
pub commit-ok :
    (now : ℕ) (next : Task) (line : Task → AuditLine) (s : Engine) {result : Task} {s' : Engine}
    → (do written ← write now next; note_audit (line written); λ t. (ok written, t)) s
      ≡ (ok result, s')
    → Written s now next result s'
unfolding note_audit
commit-ok now next line s {result = result} h =
    ground (arith, write-ok now next s {result = result})

pub record Transitioned (s : Engine) (now : ℕ) (task_id to_status reason : Text)
    (expected : Option ℕ) (result : Task) (s' : Engine) : Type 0 where
  pub task : Task
  pub to : TaskState
  pub found : (get task_id s).0 ≡ ok task
  pub target : task_state to_status ≡ ok to
  pub current : revision_differs expected task ≡ false
  pub allowed : can_transition task.status to ≡ true
  pub reasoned : (needs_reason to && is_empty (collapsed_text reason 1500)) ≡ false
  pub complete : check_completion to task ≡ ok tt
  pub wrote :
      Written s now
        (record_event now
          (task_entered to)
          (collapsed_text reason 1500)
          (enter to now (collapsed_text reason 1500) task))
        result
        s'

pub transition-ok :
    (now : ℕ) (task_id to_status reason : Text) (expected : Option ℕ) (s : Engine) {result : Task}
    {s' : Engine}
    → transition now task_id to_status reason expected s ≡ (ok result, s')
    → Transitioned s now task_id to_status reason expected result s'
unfolding transition
transition-ok now task_id to_status reason expected s h =
    elim (Result-cases (task_state to_status)) [
      | inr (e, unknown) ↦ ground arith
      | inl (to, target) ↦ elim (Result-cases (get task_id s).0) [
        | inr (e, missing) ↦ ground arith
        | inl (task, found) ↦
            let safe_reason = collapsed_text reason 1500 in
            let next =
              record_event now (task_entered to) safe_reason (enter to now safe_reason task) in
            let line = AuditLine.transition task_id task.status to safe_reason in
            record {
              task = task;
              to = to;
              found = found;
              target = target;
              current = ground (arith, get-state task_id s);
              allowed = ground (arith, get-state task_id s);
              reasoned = ground (arith, get-state task_id s);
              complete = ground (arith, get-state task_id s);
              wrote = commit-ok now next (λ _. line) s (ground (arith, get-state task_id s));
            }
      ]
    ]

pub record AddedEvidence (s : Engine) (now : ℕ) (task_id kind reference summary : Text)
    (index : Option ℤ) (expected : Option ℕ) (result : Task) (s' : Engine) : Type 0 where
  pub task : Task
  pub attached : Task
  pub k : EvidenceKind
  pub found : (get task_id s).0 ≡ ok task
  pub known : evidence_kind kind ≡ ok k
  pub current : revision_differs expected task ≡ false
  pub formed : is_reference (strip reference) ≡ true
  pub added :
      attach_reference index (strip reference) (
        append_evidence
          (record {
            kind = k;
            reference = strip reference;
            summary = collapsed_text summary 1000;
            trusted = trusted_evidence k (strip reference);
            step_index = evidence_index index task;
            at = now;
          })
          task)
      ≡ ok attached
  pub wrote :
      Written s now (record_event now (evidence_added k (strip reference)) [] attached) result s'

abbrev item_of : ℕ → EvidenceKind → Text → Text → Option ℤ → Task → Evidence
item_of now k reference summary index task = record {
  kind = k;
  reference = strip reference;
  summary = collapsed_text summary 1000;
  trusted = trusted_evidence k (strip reference);
  step_index = evidence_index index task;
  at = now;
}

pub add_evidence-ok :
    (now : ℕ) (task_id kind reference summary : Text) (index : Option ℤ) (expected : Option ℕ)
    (s : Engine) {result : Task} {s' : Engine}
    → add_evidence now task_id kind reference summary index expected s ≡ (ok result, s')
    → AddedEvidence s now task_id kind reference summary index expected result s'
unfolding add_evidence
add_evidence-ok now task_id kind reference summary index expected s h =
    elim (Result-cases (evidence_kind kind)) [
      | inr (e, unknown) ↦ ground arith
      | inl (k, known) ↦ elim (Result-cases (get task_id s).0) [
        | inr (e, missing) ↦ ground arith
        | inl (task, found) ↦
            elim (Result-cases (
              attach_reference index (strip reference)
                (append_evidence (item_of now k reference summary index task) task))) [
                  | inr (e, outside) ↦ ground (arith, get-state task_id s)
                  | inl (attached, added) ↦ record {
                    task = task;
                    attached = attached;
                    k = k;
                    found = found;
                    known = known;
                    current = ground (arith, get-state task_id s);
                    formed = ground (arith, get-state task_id s);
                    added = added;
                    wrote =
                        commit-ok now
                          (record_event now (evidence_added k (strip reference)) [] attached)
                          (λ _. AuditLine.evidence task_id k (strip reference)) s
                          (ground (arith, get-state task_id s));
                  }
                ]
      ]
    ]

pub record UpdatedStep (s : Engine) (now : ℕ) (task_id : Text) (index : ℤ) (u : StepUpdate)
    (expected : Option ℕ) (result : Task) (s' : Engine) : Type 0 where
  pub task : Task
  pub i : ℕ
  pub step : Step
  pub to : StepState
  pub moved : Task
  pub between : Engine
  pub found : (get task_id s).0 ≡ ok task
  pub current : revision_differs expected task ≡ false
  pub live : is_terminal task.status ≡ false
  pub at : step_at task.steps index ≡ ok (i, step)
  pub target : step_target step.status u.to_status ≡ ok to
  pub allowed : check_update task.steps step to u ≡ ok tt
  pub moves : with_evidence now task_id to u i step task s ≡ (ok moved, between)
  pub wrote :
      Written between now
        (record_event now (step_transition i step.status to) [] (settle to u step moved))
        result
        s'

pub update_step-ok :
    (now : ℕ) (task_id : Text) (index : ℤ) (u : StepUpdate) (expected : Option ℕ) (s : Engine)
    {result : Task} {s' : Engine}
    → update_step now task_id index u expected s ≡ (ok result, s')
    → UpdatedStep s now task_id index u expected result s'
unfolding update_step
update_step-ok now task_id index u expected s h = elim (Result-cases (get task_id s).0) [
  | inr (e, missing) ↦ ground arith
  | inl (task, found) ↦ elim (Result-cases (step_at task.steps index)) [
    | inr (e, outside) ↦ ground (arith, get-state task_id s)
    | inl ((i, step), at) ↦ elim (Result-cases (step_target step.status u.to_status)) [
      | inr (e, illegal) ↦ ground (arith, get-state task_id s)
      | inl (to, target) ↦ elim (Result-cases (with_evidence now task_id to u i step task s).0) [
        | inr (e, refused) ↦ ground (arith, get-state task_id s)
        | inl (moved, moves) ↦ record {
          task = task;
          i = i;
          step = step;
          to = to;
          moved = moved;
          between = (with_evidence now task_id to u i step task s).1;
          found = found;
          current = ground (arith, get-state task_id s);
          live = ground (arith, get-state task_id s);
          at = at;
          target = target;
          allowed = ground (arith, get-state task_id s);
          moves = ground arith;
          wrote =
              commit-ok now
                (record_event now (step_transition i step.status to) [] (settle to u step moved))
                (λ _. AuditLine.step task_id i step.status to)
                (with_evidence now task_id to u i step task s).1
                (ground (arith, get-state task_id s));
        }
      ]
    ]
  ]
]
