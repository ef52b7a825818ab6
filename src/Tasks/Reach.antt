-- ===== src/Tasks/Reach.antt =====
-- Any sequence of calls of the task engine, by any clients, those included that one of their checks
-- refuses.
use agenelf.Base.{
  Exec, ℕ, ◌≡◌, sym, subst, ◌∙◌, ap, true, false, Option, none, Text, ◌++◌, codes, arith, strip,
  Result, ok, err, Bool-cases, inl, inr, text_eq, text_eq_iff, ℤ,
}
use agenelf.Tasks.States.{TaskState, is_terminal, can_transition}
use agenelf.Tasks.Data.{Task, Definition, TaskError, Engine}
use agenelf.Tasks.Files.{get, find_file, record_event}
use agenelf.Tasks.Create.{NewTask, create}
use agenelf.Tasks.Evidence.{add_evidence}
use agenelf.Tasks.Transition.{transition}
use agenelf.Tasks.Steps.{StepUpdate, update_step}
use agenelf.Tasks.Atomic.{IsAtomic, transition-IsAtomic, add_evidence-IsAtomic, create-IsAtomic}
use agenelf.Tasks.StepErrors.{update_step-IsAtomic}
use agenelf.Tasks.Frame.{get-of_Found}
use agenelf.Tasks.Inversion.{transition-ok}
use agenelf.Tasks.Changes.{
  status-enter, Changed, transition-Changed, add_evidence-Changed, update_step-Changed,
}
use agenelf.Tasks.Creation.{create-IsSound, get-create, create-keeps}
use agenelf.Tasks.Preserve.{transition-IsSound, add_evidence-IsSound}
use agenelf.Tasks.StepUpdates.{update_step-IsSound}
use agenelf.Tasks.Dependencies.{IsSound}

-- A call and what it made of the files. A new task gets a name that no file has: it is random.
pub data Call (digest : Definition → Text) (s s' : Engine) : Type 0 where
  creating :
      (now : ℕ) (hex : Text) (new : NewTask) (r : Result TaskError Task)
      → find_file (strip (codes "task-" ++ hex)) s.files ≡ none
      → create digest now hex new s ≡ (r, s')
      → Call digest s s'
  adding :
      (now : ℕ) (id kind reference summary : Text) (index : Option ℤ) (expected : Option ℕ)
      (r : Result TaskError Task)
      → add_evidence now id kind reference summary index expected s ≡ (r, s')
      → Call digest s s'
  moving :
      (now : ℕ) (id to_status reason : Text) (expected : Option ℕ) (r : Result TaskError Task)
      → transition now id to_status reason expected s ≡ (r, s')
      → Call digest s s'
  stepping :
      (now : ℕ) (id : Text) (index : ℤ) (u : StepUpdate) (expected : Option ℕ)
      (r : Result TaskError Task)
      → update_step now id index u expected s ≡ (r, s')
      → Call digest s s'

pub data Reach (digest : Definition → Text) (s : Engine) : Engine → Type 0 where
  here : Reach digest s s
  next : {t u : Engine} → Reach digest s t → Call digest t u → Reach digest s u

-- Every task that can be read has sound steps.
abbrev pub AllSound : Engine → Type 0
AllSound s = (id : Text) (task : Task) → (get id s).0 ≡ ok task → IsSound task.steps

abbrev Holds : (Task → Type 0) → Result TaskError Task → Type 0
Holds P (ok t) = P t
Holds P (err e) = Unit

clash : false ≡ true → ⊥
clash e = cc

Changed-AllSound :
    {s s' : Engine} {id : Text} {old new : Task}
    → Changed s s' id old new
    → IsSound new.steps
    → AllSound s
    → AllSound s'
Changed-AllSound {s} {s'} {id} {old} {new} c sound all other task read =
    elim (Bool-cases (text_eq other id)) [
      | inl one ↦
          let same : other ≡ id = (text_eq_iff other id).0 one in
          let e : ok new ≡ ok task =
            sym (get-of_Found id s' c.kept) ∙ ap (λ k. (get k s').0) (sym same) ∙ read in
          subst (Holds (λ t. IsSound t.steps)) e sound
      | inr two ↦
          all other task
            (sym (c.others other (λ e. clash (sym two ∙ (text_eq_iff other id).1 e))) ∙ read)
    ]

-- A failing call leaves the state as it was.
pub unchanged :
    {A : Type 0} (m : Exec Engine TaskError A) (s : Engine) {s' : Engine} {e : TaskError}
    → IsAtomic m
    → m s ≡ (err e, s')
    → s' ≡ s
unchanged m s {e = e} atomic h = sym (ap (λ p. p.1) h) ∙ atomic s e (ap (λ p. p.0) h)

Call-AllSound :
    {digest : Definition → Text} {s s' : Engine} → Call digest s s' → AllSound s → AllSound s'
Call-AllSound {digest} {s} (creating now hex new (err e) fresh h) all =
    subst AllSound
      (sym (unchanged (create digest now hex new) s (create-IsAtomic digest now hex new) h)) all
Call-AllSound {digest} {s} {s'} (creating now hex new (ok result) fresh h) all = λ other task read.
    elim (get-create digest now hex new s s' result h other read) [
      | inl e ↦
          subst (λ (t : Task). IsSound t.steps) (sym e)
            (create-IsSound digest now hex new s s' result h)
      | inr before ↦ all other task before
    ]
Call-AllSound {s = s} (adding now id kind reference summary index expected (err e) h) all =
    subst AllSound
      (sym (
        unchanged (add_evidence now id kind reference summary index expected) s
          (add_evidence-IsAtomic now id kind reference summary index expected) h))
      all
Call-AllSound {s = s} {s' = s'} (adding now id kind reference summary index expected (ok result) h)
      all =
    let (old, c, status, revision) =
      add_evidence-Changed now id kind reference summary index expected s s' result h in
    let read = get-of_Found id s c.found in
    Changed-AllSound c
      (add_evidence-IsSound now id kind reference summary index expected s s' old result h read
        (all id old read))
      all
Call-AllSound {s = s} (moving now id to_status reason expected (err e) h) all =
    subst AllSound
      (sym (
        unchanged (transition now id to_status reason expected) s
          (transition-IsAtomic now id to_status reason expected) h))
      all
Call-AllSound {s = s} {s' = s'} (moving now id to_status reason expected (ok result) h) all =
    let (old, c) = transition-Changed now id to_status reason expected s s' result h in
    let read = get-of_Found id s c.found in
    Changed-AllSound c
      (transition-IsSound now id to_status reason expected s s' old result h read (all id old read))
      all
Call-AllSound {s = s} (stepping now id index u expected (err e) h) all =
    subst AllSound
      (sym (
        unchanged (update_step now id index u expected) s
          (update_step-IsAtomic now id index u expected) h))
      all
Call-AllSound {s = s} {s' = s'} (stepping now id index u expected (ok result) h) all =
    let (old, c, live) = update_step-Changed now id index u expected s s' result h in
    let read = get-of_Found id s c.found in
    Changed-AllSound c
      (update_step-IsSound now id index u expected s s' result h old read (all id old read)) all

Reach-AllSound :
    {digest : Definition → Text} {s s' : Engine} → AllSound s → Reach digest s s' → AllSound s'
Reach-AllSound all here = all
Reach-AllSound all (next r c) = Call-AllSound c (Reach-AllSound all r)

-- In every state that calls can lead to from a sound one, such as the empty directory, every task
-- that can be read has a plan in which a step depends on earlier steps only, and no step of it is
-- running or succeeded before all the steps that it depends on have succeeded or were skipped.
pub Reach-IsSound :
    (digest : Definition → Text) (s s' : Engine)
    → AllSound s
    → Reach digest s s'
    → (id : Text) (task : Task) → (get id s').0 ≡ ok task
    → IsSound task.steps
Reach-IsSound digest s s' all r = Reach-AllSound all r

-- The task under `id` has the status `st`.
pub record Ended (id : Text) (st : TaskState) (s : Engine) : Type 0 where
  pub task : Task
  pub read : (get id s).0 ≡ ok task
  pub status : task.status ≡ st

final : (st to : TaskState) → is_terminal st ≡ true → can_transition st to ≡ true → ⊥
unfolding is_terminal can_transition
final TaskState.completed to t h = cc
final TaskState.cancelled to t h = cc
final _ to t h = cc

-- A change of one task that does not end the status of `id`.
Changed-Ended :
    {s s' : Engine} {id other : Text} {old new : Task} {st : TaskState}
    → Changed s s' other old new
    → (old.status ≡ st → new.status ≡ st)
    → Ended id st s
    → Ended id st s'
Changed-Ended {s} {s'} {id} {other} {old} {new} {st} c keeps e =
    elim (Bool-cases (text_eq id other)) [
      | inl one ↦
          let same : id ≡ other = (text_eq_iff id other).0 one in
          let both : ok e.task ≡ ok old =
            sym e.read ∙ ap (λ k. (get k s).0) same ∙ get-of_Found other s c.found in
          record {
            task = new;
            read = ap (λ k. (get k s').0) same ∙ get-of_Found other s' c.kept;
            status = keeps (subst (Holds (λ t. t.status ≡ st)) both e.status);
          }
      | inr two ↦ record {
        task = e.task;
        read = c.others id (λ q. clash (sym two ∙ (text_eq_iff id other).1 q)) ∙ e.read;
        status = e.status;
      }
    ]

pub status-transition :
    (now : ℕ) (id to_status reason : Text) (expected : Option ℕ) (s s' : Engine) (old result : Task)
    → transition now id to_status reason expected s ≡ (ok result, s')
    → (get id s).0 ≡ ok old
    → can_transition old.status result.status ≡ true
unfolding record_event
status-transition now id to_status reason expected s s' old result h read =
    let t = transition-ok now id to_status reason expected s h in
    let same : t.task ≡ old = ground (arith, t.found) in
    let entered : result.status ≡ t.to =
      ap (λ (k : Task). k.status) t.wrote.touched ∙ status-enter t.to now _ t.task in
    subst (λ (k : Task). can_transition k.status result.status ≡ true) same (rw entered t.allowed)

Call-Ended :
    {digest : Definition → Text} {s s' : Engine} {id : Text} {st : TaskState}
    → Call digest s s'
    → is_terminal st ≡ true
    → Ended id st s
    → Ended id st s'
Call-Ended {digest} {s} {id = id} {st = st} (creating now hex new (err e) fresh h) t d =
    subst (Ended id st)
      (sym (unchanged (create digest now hex new) s (create-IsAtomic digest now hex new) h)) d
Call-Ended {digest} {s} {s'} {id} {st} (creating now hex new (ok result) fresh h) t d = record {
  task = d.task;
  read = create-keeps digest now hex new s s' result h fresh id d.read;
  status = d.status;
}
Call-Ended {s = s} {id = id} {st = st}
      (adding now other kind reference summary index expected (err e) h) t d =
    subst (Ended id st)
      (sym (
        unchanged (add_evidence now other kind reference summary index expected) s
          (add_evidence-IsAtomic now other kind reference summary index expected) h))
      d
Call-Ended {s = s} {s' = s'} (adding now other kind reference summary index expected (ok result) h)
      t d =
    let (old, c, status, revision) =
      add_evidence-Changed now other kind reference summary index expected s s' result h in
    Changed-Ended c (λ e. status ∙ e) d
Call-Ended {s = s} {id = id} {st = st} (moving now other to_status reason expected (err e) h) t d =
    subst (Ended id st)
      (sym (
        unchanged (transition now other to_status reason expected) s
          (transition-IsAtomic now other to_status reason expected) h))
      d
Call-Ended {s = s} {s' = s'} {st = st} (moving now other to_status reason expected (ok result) h) t
      d =
    let (old, c) = transition-Changed now other to_status reason expected s s' result h in
    let legal =
      status-transition now other to_status reason expected s s' old result h
        (get-of_Found other s c.found) in
    Changed-Ended c (λ e. absurd (final st result.status t (rw e at legal))) d
Call-Ended {s = s} {id = id} {st = st} (stepping now other index u expected (err e) h) t d =
    subst (Ended id st)
      (sym (
        unchanged (update_step now other index u expected) s
          (update_step-IsAtomic now other index u expected) h))
      d
Call-Ended {s = s} {s' = s'} {st = st} (stepping now other index u expected (ok result) h) t d =
    let (old, c, live) = update_step-Changed now other index u expected s s' result h in
    Changed-Ended c (λ e. absurd (clash (sym live ∙ ap is_terminal e ∙ t))) d

-- A completed or cancelled task can always be read again and keeps its status, whatever calls
-- follow: evidence may still be added to it, but no call reopens it.
pub Reach-Ended :
    (digest : Definition → Text) (s s' : Engine) (id : Text) (st : TaskState)
    → is_terminal st ≡ true
    → Ended id st s
    → Reach digest s s'
    → Ended id st s'
Reach-Ended digest s s' id st t d here = d
Reach-Ended digest s s' id st t d (next r c) = Call-Ended c t (Reach-Ended digest s _ id st t d r)
