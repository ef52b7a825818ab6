-- ===== src/Tasks/Normalize/Order.antt =====
-- A normalised plan can be run: every step depends on earlier steps only.
use agenelf.Base.{
  ℕ, zero, suc, ◌+◌, ◌≤◌, ◌<◌, ◌≡◌, List, [], ◌∷◌, ◌++◌, arith, length, ltb, pos, negsuc, ok,
  bind-eq-ok, Result-cases, Bool-cases, inl, inr,
}
use agenelf.Tasks.States.{StepState}
use agenelf.Tasks.Data.{Step}
use agenelf.Tasks.Normalize.{
  RawDependency, integer, not_integer, RawDependencies, listed, absent, not_list, RawFields,
  RawStep, only_title, object, other, titled, check_dependency, check_dependencies, dependencies,
  normalize_fields, normalize_step, normalize_from, normalize_steps,
}

-- All the numbers lie below `index`.
abbrev pub AllBelow : ℕ → List ℕ → Type 0
AllBelow index [] = Unit
AllBelow index (n ∷ ns) = (n < index) × AllBelow index ns

-- The steps, the first of which stands at `index`, are fresh and depend on earlier ones only.
abbrev pub IsPlan : ℕ → List Step → Type 0
IsPlan index [] = Unit
IsPlan index (s ∷ ss) =
    AllBelow index s.depends_on × (s.status ≡ StepState.pending) × IsPlan (suc index) ss

AllBelow-snoc :
    (index : ℕ) (ns : List ℕ) (n : ℕ)
    → AllBelow index ns
    → n < index
    → AllBelow index (ns ++ n ∷ [])
AllBelow-snoc index [] n h lt = (lt, tt)
AllBelow-snoc index (m ∷ ns) n h lt = (h.0, AllBelow-snoc index ns n h.1 lt)

check_dependency-AllBelow :
    (index : ℕ) (raw : RawDependency) (found : List ℕ) {ns : List ℕ}
    → AllBelow index found
    → check_dependency index raw found ≡ ok ns
    → AllBelow index ns
unfolding check_dependency
check_dependency-AllBelow index not_integer found h e = ground arith
check_dependency-AllBelow index (integer (negsuc n)) found h e = ground arith
check_dependency-AllBelow index (integer (pos n)) found h e =
    ground (arith, AllBelow-snoc index found n h)

check_dependencies-AllBelow :
    (index : ℕ) (raws : List RawDependency) (found : List ℕ) {ns : List ℕ}
    → AllBelow index found
    → check_dependencies index raws found ≡ ok ns
    → AllBelow index ns
unfolding check_dependencies
check_dependencies-AllBelow index [] found h e = ground arith
check_dependencies-AllBelow index (raw ∷ raws) found h e =
    let (next, first, others) = bind-eq-ok (check_dependency index raw found) _ e in
    check_dependencies-AllBelow index raws next (check_dependency-AllBelow index raw found h first)
      others

dependencies-AllBelow :
    (index : ℕ) (raws : RawDependencies) {ns : List ℕ}
    → dependencies index raws ≡ ok ns
    → AllBelow index ns
unfolding dependencies
dependencies-AllBelow index (listed raws) e = check_dependencies-AllBelow index raws [] tt e
dependencies-AllBelow index absent e = ground arith
dependencies-AllBelow zero not_list e = ground arith
dependencies-AllBelow (suc previous) not_list e = ground arith

-- What one accepted step looks like.
abbrev IsPlanned : ℕ → Step → Type 0
IsPlanned index s = AllBelow index s.depends_on × (s.status ≡ StepState.pending)

normalize_fields-IsPlanned :
    (index : ℕ) (fields : RawFields) {s : Step}
    → normalize_fields index fields ≡ ok s
    → IsPlanned index s
unfolding normalize_fields
normalize_fields-IsPlanned index fields e =
    elim (Result-cases (dependencies index fields.depends_on)) [
      | inl (ns, found) ↦ ground (arith, dependencies-AllBelow index fields.depends_on found)
      | inr (error, failed) ↦ ground arith
    ]

normalize_step-IsPlanned :
    (index : ℕ) (raw : RawStep) {s : Step} → normalize_step index raw ≡ ok s → IsPlanned index s
unfolding normalize_step
normalize_step-IsPlanned index (only_title raw) e = normalize_fields-IsPlanned index (titled raw) e
normalize_step-IsPlanned index (object fields) e = normalize_fields-IsPlanned index fields e
normalize_step-IsPlanned index other e = ground arith

normalize_from-IsPlan :
    (index : ℕ) (raws : List RawStep) {steps : List Step}
    → normalize_from index raws ≡ ok steps
    → IsPlan index steps × (length steps ≡ length raws)
unfolding normalize_from
normalize_from-IsPlan index [] e = ground arith
normalize_from-IsPlan index (raw ∷ raws) e =
    let (s, first, others) = bind-eq-ok (normalize_step index raw) _ e in
    let (ss, rest, built) = bind-eq-ok (normalize_from (index + 1) raws) _ others in
    ground
      (arith, normalize_step-IsPlanned index raw first, normalize_from-IsPlan (index + 1) raws rest)

-- An accepted plan has one to fifty steps, as many as were asked for; each is pending and depends
-- on steps before it only.
pub normalize_steps-IsPlan :
    (raws : List RawStep) (steps : List Step)
    → normalize_steps raws ≡ ok steps
    → IsPlan 0 steps × (length steps ≡ length raws) × (0 < length steps) × (length steps ≤ 50)
unfolding normalize_steps
normalize_steps-IsPlan [] steps e = ground arith
normalize_steps-IsPlan (raw ∷ raws) steps e = elim (Bool-cases (ltb 50 (length (raw ∷ raws)))) [
  | inl many ↦ ground arith
  | inr few ↦ ground (arith, normalize_from-IsPlan 0 (raw ∷ raws) {steps = steps} (rw few at e))
]
