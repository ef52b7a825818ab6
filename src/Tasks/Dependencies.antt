-- ===== src/Tasks/Dependencies.antt =====
-- No step of a stored task is running or succeeded before the steps that it depends on are done.
use agenelf.Base.{
  ℕ, zero, suc, ◌+◌, ◌≡◌, refl, sym, subst, ◌∙◌, ap, true, some, List, [], ◌∷◌, map, arith,
  Bool-cases, Option-cases, inl, inr, ◌⊎◌, get_elem?, get_elem?-lt, get_elem?-set_self,
  get_elem?-set_ne, set, all, all-imp, ◌==◌, ==_iff,
}
use agenelf.Tasks.States.{StepState, is_success}
use agenelf.Tasks.Data.{Step}
use agenelf.Tasks.Normalize.Order.{AllBelow, IsPlan}
use agenelf.Tasks.Steps.{is_done, dependencies_satisfied, needs_dependencies}

-- The plan is ordered, and what was started had its dependencies done.
pub record IsSound (steps : List Step) : Type 0 where
  pub ordered : (j : ℕ) (st : Step) → get_elem? steps j ≡ some st → AllBelow j st.depends_on
  pub started :
      (j : ℕ) (st : Step)
      → get_elem? steps j ≡ some st
      → needs_dependencies st.status ≡ true
      → dependencies_satisfied steps st ≡ true

-- `new` may stand in the place of `old`: it has the same dependencies, it does not undo a
-- success, and if it is started then its dependencies are done.
pub record Replaces (steps : List Step) (old new : Step) : Type 0 where
  pub same : new.depends_on ≡ old.depends_on
  pub success : is_success old.status ≡ true → is_success new.status ≡ true
  pub ready : needs_dependencies new.status ≡ true → dependencies_satisfied steps old ≡ true

module _ (steps : List Step) (i : ℕ) {old new : Step} (at : get_elem? steps i ≡ some old)
    (r : Replaces steps old new) where
  is_done-set : (j : ℕ) → is_done steps j ≡ true → is_done (set steps i new) j ≡ true
  unfolding is_done
  is_done-set j h = elim (Bool-cases (i == j)) [
    | inl e ↦
        let e' = (==_iff i j).0 e in
        let here = get_elem?-set_self steps i new (get_elem?-lt steps i at) in
        ground (arith, r.success)
    | inr ne ↦
        ground (arith, get_elem?-set_ne steps {i = i} {j = j} new (λ e. cc ((==_iff i j).1 e)))
  ]

  pub satisfied-set :
      (st : Step)
      → dependencies_satisfied steps st ≡ true
      → dependencies_satisfied (set steps i new) st ≡ true
  unfolding dependencies_satisfied
  satisfied-set st h =
      all-imp (is_done steps) (is_done (set steps i new)) st.depends_on is_done-set h

  set-cases :
      (j : ℕ) {st : Step}
      → get_elem? (set steps i new) j ≡ some st
      → ((i ≡ j) × (st ≡ new)) ⊎ (get_elem? steps j ≡ some st)
  set-cases j h = elim (Bool-cases (i == j)) [
    | inl e ↦ inl (
      (==_iff i j).0 e,
      ground (arith, (==_iff i j).0 e, get_elem?-set_self steps i new (get_elem?-lt steps i at)),
    )
    | inr ne ↦
        inr (sym (get_elem?-set_ne steps {i = i} {j = j} new (λ e. cc ((==_iff i j).1 e))) ∙ h)
  ]

  pub set-IsSound : IsSound steps → IsSound (set steps i new)
  unfolding dependencies_satisfied
  set-IsSound sound = record {
    ordered = λ j st here. elim (set-cases j here) [
      | inl (e, is_new) ↦
          let below : AllBelow i new.depends_on = rw r.same (sound.ordered i old at) in
          subst (λ k. AllBelow k st.depends_on) e (rw is_new below)
      | inr before ↦ sound.ordered j st before
    ];
    started = λ j st here need. elim (set-cases j here) [
      | inl (e, is_new) ↦
          let done = satisfied-set old (r.ready (rw is_new at need)) in
          rw is_new (subst (λ d. all (is_done (set steps i new)) d ≡ true) (sym r.same) done)
      | inr before ↦ satisfied-set st (sound.started j st before need)
    ];
  }

get_elem?-map :
    (f : Step → Step) (xs : List Step) (j : ℕ) {y : Step}
    → get_elem? (map f xs) j ≡ some y
    → (x : Step) × (get_elem? xs j ≡ some x) × (y ≡ f x)
get_elem?-map f [] j h = ground arith
get_elem?-map f (x ∷ xs) zero {y = y} h = (x, refl, ground arith)
get_elem?-map f (x ∷ xs) (suc j) h = get_elem?-map f xs j h

get_elem?-map-some :
    (f : Step → Step) (xs : List Step) (j : ℕ) {x : Step}
    → get_elem? xs j ≡ some x
    → get_elem? (map f xs) j ≡ some (f x)
get_elem?-map-some f [] j h = ground arith
get_elem?-map-some f (x ∷ xs) zero h = ground arith
get_elem?-map-some f (x ∷ xs) (suc j) h = get_elem?-map-some f xs j h

-- A change of every step that keeps dependencies and successes and starts nothing.
pub record Demotes (f : Step → Step) : Type 0 where
  pub same : (st : Step) → (f st).depends_on ≡ st.depends_on
  pub success : (st : Step) → is_success st.status ≡ true → is_success (f st).status ≡ true
  pub starts :
      (st : Step) → needs_dependencies (f st).status ≡ true → needs_dependencies st.status ≡ true

module _ (f : Step → Step) (d : Demotes f) (steps : List Step) where
  is_done-map : (j : ℕ) → is_done steps j ≡ true → is_done (map f steps) j ≡ true
  unfolding is_done
  is_done-map j h = elim (Option-cases (get_elem? steps j)) [
    | inl e ↦ ground arith
    | inr (x, e) ↦ ground (arith, get_elem?-map-some f steps j e, d.success x)
  ]

  pub map-IsSound : IsSound steps → IsSound (map f steps)
  unfolding dependencies_satisfied
  map-IsSound sound = record {
    ordered = λ j st here.
        let (x, before, e) = get_elem?-map f steps j here in
        subst (AllBelow j) (sym (ap (λ (t : Step). t.depends_on) e ∙ d.same x))
          (sound.ordered j x before);
    started = λ j st here need.
        let (x, before, e) = get_elem?-map f steps j here in
        let old =
          sound.started j x before
            (d.starts x (subst (λ (t : Step). needs_dependencies t.status ≡ true) e need)) in
        let new = all-imp (is_done steps) (is_done (map f steps)) x.depends_on is_done-map old in
        subst (λ ds. all (is_done (map f steps)) ds ≡ true)
          (sym (ap (λ (t : Step). t.depends_on) e ∙ d.same x)) new;
  }

IsPlan-at :
    (base : ℕ) (steps : List Step) (j : ℕ) {st : Step}
    → IsPlan base steps
    → get_elem? steps j ≡ some st
    → AllBelow (base + j) st.depends_on × (st.status ≡ StepState.pending)
IsPlan-at base [] j p h = ground arith
IsPlan-at base (s ∷ ss) zero p h = let e : base + 0 ≡ base = omega arith in rw e (ground arith)
IsPlan-at base (s ∷ ss) (suc j) p h =
    let e : base + suc j ≡ suc base + j = omega arith in rw e (IsPlan-at (suc base) ss j p.2 h)

-- A fresh plan is sound.
pub IsPlan-IsSound : (steps : List Step) → IsPlan 0 steps → IsSound steps
unfolding needs_dependencies
IsPlan-IsSound steps p = record {
  ordered = λ j st here. let e : 0 + j ≡ j = omega arith in rw e at (IsPlan-at 0 steps j p here).0;
  started = λ j st here need. ground (arith, (IsPlan-at 0 steps j p here).1);
}
