-- ===== src/Tasks/Evidence.antt =====
-- `TaskEngine.add_evidence` of app/core/task_engine.py.
use agenelf.Base.{
  ℕ, Bool, false, not, ◌&&◌, ◌||◌, Option, none, some, Text, [], ◌∷◌, ◌++◌, codes, ◌==◌, leb, strip,
  lower, is_empty, after_prefix, matches_hex, all_chars, is_alnum, last_items, length, get_elem?,
  set, ℤ, index_below, Result, ok, err, Exec, lift, reject, ◌>>=◌, ◌>>◌,
}
use agenelf.Storage.{collapsed_text}
use agenelf.Tasks.States.{EvidenceKind, operation, validation, test, promotion, parse_evidence_kind}
use agenelf.Tasks.Data.{
  Task, Step, Evidence, evidence_added, TaskError, revision_conflict, evidence_kind_unknown,
  reference_malformed, step_index_out_of_range, AuditLine, Engine,
}
use agenelf.Tasks.Files.{get, write, note_audit, revision_differs, record_event}

-- `[A-Za-z0-9._-]`, and with `:` and `/`.
abbrev pub is_id_char : ℕ → Bool
is_id_char c = is_alnum c || c == b'.' || c == b'_' || c == b'-'

abbrev pub is_reference_char : ℕ → Bool
is_reference_char c = is_id_char c || c == b':' || c == b'/'

-- `_REFERENCE_RE.fullmatch`.
unfoldable pub is_reference : Text → Bool
is_reference [] = false
is_reference (c ∷ s) =
    is_alnum c && all_chars is_reference_char s && leb 2 (length s) && leb (length s) 500

abbrev pub some_chars : (ℕ → Bool) → Text → Bool
some_chars p s = not (is_empty s) && all_chars p s

-- `_trusted_evidence`.
unfoldable pub trusted_evidence : EvidenceKind → Text → Bool
trusted_evidence operation reference = after_prefix (codes "op-") (matches_hex 16) reference
trusted_evidence validation reference = after_prefix (codes "val-") (matches_hex 16) reference
trusted_evidence promotion reference =
    after_prefix (codes "evo-") (some_chars is_id_char) reference
    || after_prefix (codes "req-") (some_chars is_id_char) reference
trusted_evidence test reference =
    after_prefix (codes "data/") (some_chars is_reference_char) reference
    || after_prefix (codes "logs/") (some_chars is_reference_char) reference
    || after_prefix (codes "workspace/") (some_chars is_reference_char) reference
trusted_evidence _ reference = false

-- The checks of the two texts.
unfoldable pub evidence_kind : Text → Result TaskError EvidenceKind
evidence_kind kind = elim (parse_evidence_kind (lower (strip kind))) [
  | none ↦ err evidence_kind_unknown
  | some k ↦ ok k
]

unfoldable pub add_reference : Text → Option Step → Task → ℕ → Task
add_reference reference none task i = task
add_reference reference (some step) task i = record task {
  steps = set task.steps i (record step { evidence_refs = step.evidence_refs ++ reference ∷ [] });
}

-- `if step_index is not None`.
unfoldable pub attach_reference : Option ℤ → Text → Task → Result TaskError Task
unfolding add_reference
attach_reference none reference task = ok task
attach_reference (some index) reference task = elim (index_below (length task.steps) index) [
  | none ↦ err step_index_out_of_range
  | some i ↦ ok (add_reference reference (get_elem? task.steps i) task i)
]

-- The record's index, as far as it names a step; a record with another index is never written.
unfoldable pub evidence_index : Option ℤ → Task → Option ℕ
evidence_index none task = none
evidence_index (some index) task = index_below (length task.steps) index

unfoldable pub append_evidence : Evidence → Task → Task
append_evidence item task = record task { evidence = last_items 200 (task.evidence ++ item ∷ []) }

unfoldable pub add_evidence :
    (now : ℕ) (task_id kind reference summary : Text)
    → Option ℤ
    → Option ℕ
    → Exec Engine TaskError Task
add_evidence now task_id kind reference summary step_index expected_revision = do
  k ← lift (evidence_kind kind)
  let ref = strip reference
  reject (not (is_reference ref)) reference_malformed
  task ← get task_id
  reject (revision_differs expected_revision task) revision_conflict
  let item : Evidence = record {
    kind = k;
    reference = ref;
    summary = collapsed_text summary 1000;
    trusted = trusted_evidence k ref;
    step_index = evidence_index step_index task;
    at = now;
  }
  attached ← lift (attach_reference step_index ref (append_evidence item task))
  written ← write now (record_event now (evidence_added k ref) [] attached)
  note_audit (AuditLine.evidence task_id k ref)
  λ s. (ok written, s)
