-- ===== src/Revocation/Schedule.antt =====
-- Any number of runners and revocations of one request, in any order of their steps.
use agenelf.Base.{ℕ, zero, suc, ◌+◌, Bool, true, false, List, [], ◌∷◌}
use agenelf.Revocation.World.{World, Moment}
use agenelf.Revocation.Runner.{RunnerAt, runner_step}
use agenelf.Revocation.Owner.{OwnerAt, owner_step}

pub data Process : Type 0 where
  runner : RunnerAt → Process
  owner : OwnerAt → Process

unfoldable pub advance : Moment → Process → World → Process × World
unfolding runner_step owner_step
advance m (runner at) w = let (next, w') = runner_step m at w in (runner next, w')
advance m (owner at) w = let (next, w') = owner_step m at w in (owner next, w')

-- The process at this place makes its next step.
unfoldable pub move : ℕ → Moment → List Process → World → List Process × World
unfolding advance
move i m [] w = ([], w)
move zero m (p ∷ ps) w = let (p', w') = advance m p w in (p' ∷ ps, w')
move (suc i) m (p ∷ ps) w = let (ps', w') = move i m ps w in (p ∷ ps', w')

unfoldable pub run : List (ℕ × Moment) → List Process → World → List Process × World
unfolding move
run [] ps w = (ps, w)
run ((i, m) ∷ schedule) ps w = let (ps', w') = move i m ps w in run schedule ps' w'

-- Is a runner between its lock and its unlock?
unfoldable pub runner_holds : RunnerAt → Bool
runner_holds RunnerAt.closing = true
runner_holds RunnerAt.deciding = true
runner_holds RunnerAt.starting = true
runner_holds RunnerAt.failing = true
runner_holds (RunnerAt.writing status) = true
runner_holds (RunnerAt.unlocking answer) = true
runner_holds _ = false

unfoldable pub owner_holds : OwnerAt → Bool
owner_holds OwnerAt.rechecking = true
owner_holds OwnerAt.cancelling = true
owner_holds (OwnerAt.releasing answer) = true
owner_holds _ = false

unfoldable pub holds : Process → Bool
unfolding runner_holds owner_holds
holds (runner at) = runner_holds at
holds (owner at) = owner_holds at

abbrev pub as_number : Bool → ℕ
as_number true = 1
as_number false = 0

unfoldable pub holders : List Process → ℕ
unfolding holds
holders [] = 0
holders (p ∷ ps) = as_number (holds p) + holders ps
