-- ===== src/Tasks/StepErrors.antt =====
-- `update_step` writes twice when it is given evidence, and still writes nothing when it raises:
-- once the evidence is stored, the rest of the call cannot fail.
use agenelf.Base.{
  ℕ, ◌≡◌, ◌∙◌, ap, true, Option, some, Text, [], arith, strip, ok, Result-cases, inl, inr, ℤ, pos,
  get_elem?,
}
use agenelf.Tasks.States.{StepState}
use agenelf.Tasks.Data.{Task, Step, Engine, step_transition}
use agenelf.Tasks.Files.{get, write, note_audit, record_event, task_path, is_task_id}
use agenelf.Tasks.Steps.{
  StepUpdate, update_step, with_evidence, step_at, step_target, settle, move_task,
}
use agenelf.Tasks.Atomic.{IsAtomic, get-state, with_evidence-IsAtomic}
use agenelf.Tasks.Frame.{get-ok}
use agenelf.Tasks.Changes.{
  Moved, in_place, after_evidence, with_evidence-Moved, settle-keeps, restore_step-keeps,
  add_evidence-Changed,
}

write-total :
    (now : ℕ) (next : Task) (s : Engine)
    → is_task_id (strip next.id) ≡ true
    → (write now next s).0 ≡ ok (record next { updated_at = now })
unfolding write task_path
write-total now next s legal = rw legal

-- The moved task still has the identifier under which it was read.
moved-id :
    (now : ℕ) (task_id : Text) (to : StepState) (u : StepUpdate) (i : ℕ) (step : Step)
    (task moved : Task) (s t : Engine)
    → (get task_id s).0 ≡ ok task
    → with_evidence now task_id to u i step task s ≡ (ok moved, t)
    → moved.id ≡ task_id
unfolding move_task
moved-id now task_id to u i step task moved s t read h =
    through (with_evidence-Moved now task_id to u i step task s h)
  where
    through : Moved now task_id to u i step task s moved t → moved.id ≡ task_id
    through (in_place plain e same) = ap (λ (k : Task). k.id) e ∙ (get-ok task_id s read).named
    through (after_evidence reread given added e) =
        let (old, changed, status, revision) =
          add_evidence-Changed now task_id u.evidence_kind u.evidence_reference u.note
            (some (pos i)) (some task.revision) s t reread added in
        ap (λ (k : Task). k.id) e
        ∙ (restore_step-keeps now to u i (get_elem? reread.steps i) reread).0
        ∙ changed.kept.named

pub update_step-IsAtomic :
    (now : ℕ) (task_id : Text) (index : ℤ) (u : StepUpdate) (expected : Option ℕ)
    → IsAtomic (update_step now task_id index u expected)
unfolding update_step note_audit record_event
update_step-IsAtomic now task_id index u expected s e h = elim (Result-cases (get task_id s).0) [
  | inr (x, missing) ↦ ground (arith, get-state task_id s)
  | inl (task, found) ↦ elim (Result-cases (step_at task.steps index)) [
    | inr (x, outside) ↦ ground (arith, get-state task_id s)
    | inl ((i, step), at) ↦ elim (Result-cases (step_target step.status u.to_status)) [
      | inr (x, illegal) ↦ ground (arith, get-state task_id s)
      | inl (to, target) ↦ elim (Result-cases (with_evidence now task_id to u i step task s).0) [
        | inr (x, refused) ↦
            ground
              (arith, get-state task_id s, with_evidence-IsAtomic now task_id to u i step task s x)
        | inl (moved, moves) ↦
            let next =
              record_event now (step_transition i step.status to) [] (settle to u step moved) in
            let id =
              (settle-keeps to u step moved).0
              ∙ moved-id now task_id to u i step task moved s
                  (with_evidence now task_id to u i step task s).1 found (ground arith) in
            let legal : is_task_id (strip next.id) ≡ true = rw id (get-ok task_id s found).legal in
            ground (
              arith,
              get-state task_id s,
              write-total now next (with_evidence now task_id to u i step task s).1 legal,
            )
      ]
    ]
  ]
]
