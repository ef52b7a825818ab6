-- ===== src/Tasks/Frame.antt =====
-- What a write does to the files: the task that was written is read back, and no other changes.
use agenelf.Base.{
  ℕ, ◌≡◌, ◌≢◌, refl, sym, ◌∙◌, ap, true, Option, none, some, Text, List, [], ◌∷◌, arith, text_eq,
  text_eq_iff, text_eq_refl, strip, ok, err, if◌then◌else◌, Bool-cases, inl, inr,
}
use agenelf.Tasks.Data.{
  Task, illegal_task_id, malformed_file, File, unreadable, malformed, stored, Engine,
}
use agenelf.Tasks.Files.{get, task_path, read_task, find_file, put_file, is_task_id}
use agenelf.Tasks.Inversion.{Written}

pub find_file-put_file :
    (k j : Text) (file : File) (files : List (Text × File))
    → find_file j (put_file k file files) ≡ (if text_eq k j then some file else find_file j files)
unfolding find_file put_file
find_file-put_file k j file [] = refl
find_file-put_file k j file ((i, old) ∷ files) =
    ground
      (arith, text_eq_iff k j, text_eq_iff i k, text_eq_iff i j, find_file-put_file k j file files)

-- What a successful `get` found.
pub record Found (s : Engine) (task_id : Text) (task : Task) : Type 0 where
  pub named : task.id ≡ task_id
  pub legal : is_task_id (strip task_id) ≡ true
  pub file : find_file (strip task_id) s.files ≡ some (stored task)

read_task-ok :
    (task_id : Text) (found : Option File) {task : Task}
    → read_task task_id found ≡ ok task
    → (found ≡ some (stored task)) × (task.id ≡ task_id)
unfolding read_task
read_task-ok task_id none h = ground arith
read_task-ok task_id (some unreadable) h = ground arith
read_task-ok task_id (some malformed) h = ground arith
read_task-ok task_id (some (stored t)) h = ground (arith, text_eq_iff t.id task_id)

pub get-ok :
    (task_id : Text) (s : Engine) {task : Task} → (get task_id s).0 ≡ ok task → Found s task_id task
unfolding get task_path
get-ok task_id s {task = task} h =
    let legal : is_task_id (strip task_id) ≡ true = ground arith in
    let read : read_task task_id (find_file (strip task_id) s.files) ≡ ok task = ground arith in
    let (file, named) = read_task-ok task_id (find_file (strip task_id) s.files) read in
    record { named = named; legal = legal; file = file }

pub get-of_Found :
    (task_id : Text) (s : Engine) {task : Task} → Found s task_id task → (get task_id s).0 ≡ ok task
unfolding get task_path read_task
get-of_Found task_id s {task = task} f = ground (arith, text_eq_iff task.id task_id)

-- A task that was written is what `get` reads next.
pub get-Written :
    (now : ℕ) (task_id : Text) (next result : Task) (s s' : Engine)
    → next.id ≡ task_id
    → is_task_id (strip task_id) ≡ true
    → Written s now next result s'
    → Found s' task_id result
get-Written now task_id next result s s' named legal w =
    let same : result.id ≡ next.id = ap (λ (t : Task). t.id) w.touched in
    record {
      named = same ∙ named;
      legal = legal;
      file =
          ap (find_file (strip task_id)) w.files
          ∙ find_file-put_file (strip next.id) (strip task_id) (stored result) s.files
          ∙ rw (named, text_eq_refl (strip task_id));
    }

-- `get` in one equation.
get-read :
    (task_id : Text) (s : Engine)
    → (get task_id s).0 ≡ (
        if is_task_id (strip task_id)
        then read_task task_id (find_file (strip task_id) s.files)
        else err illegal_task_id)
unfolding get task_path
get-read task_id s = ground arith

pub read_task_ne :
    (other : Text) (task : Task)
    → task.id ≢ other
    → read_task other (some (stored task)) ≡ err malformed_file
unfolding read_task
read_task_ne other task ne = ground (arith, text_eq_iff task.id other)

-- The task in another file is untouched, also if its name differs in white space only.
pub get-Written_ne :
    (now : ℕ) (task_id other : Text) (next result task : Task) (s s' : Engine)
    → next.id ≡ task_id
    → other ≢ task_id
    → Found s task_id task
    → Written s now next result s'
    → (get other s').0 ≡ (get other s).0
get-Written_ne now task_id other next result task s s' named ne f w =
    let same : result.id ≡ task_id = ap (λ (t : Task). t.id) w.touched ∙ named in
    let read : find_file (strip other) s'.files ≡ (
        if text_eq (strip task_id) (strip other)
        then some (stored result)
        else find_file (strip other) s.files) =
      ap (find_file (strip other)) w.files ∙ rw (find_file-put_file, named) in
    elim (Bool-cases (text_eq (strip task_id) (strip other))) [
      | inl one ↦
          let names : strip task_id ≡ strip other = (text_eq_iff _ _).0 one in
          let before : find_file (strip other) s.files ≡ some (stored task) = rw (← names) f.file in
          let after : find_file (strip other) s'.files ≡ some (stored result) = rw one at read in
          let old = read_task_ne other task (λ e. ne (sym e ∙ f.named)) in
          let new = read_task_ne other result (λ e. ne (sym e ∙ same)) in
          rw (get-read other s, get-read other s', before, after, old, new)
      | inr two ↦
          let after : find_file (strip other) s'.files ≡ find_file (strip other) s.files =
            rw two at read in
          rw (get-read other s, get-read other s', after)
    ]
