-- ===== src/Tasks.antt =====
-- The governed workflow tasks of app/core/task_engine.py.
pub mod States
pub mod Data
pub mod Normalize
pub mod Files
pub mod Evidence
pub mod Transition
pub mod Steps
pub mod Next
pub mod Create
pub mod Atomic
pub mod Inversion
pub mod Frame
pub mod Changes
pub mod Dependencies
pub mod Preserve
pub mod StepUpdates
pub mod Creation
pub mod StepErrors
pub mod Reach
pub mod Guards
pub mod Stale
pub mod Progress
pub mod Approval
pub mod Tests
