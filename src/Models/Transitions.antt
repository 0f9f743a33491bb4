-- ===== src/Models/Transitions.antt =====
-- The life cycle of a task: which requests `ensure_transition` accepts, and where they lead.
use a2a_superhub.Prelude.{ℕ, ◌<◌, ◌≡◌, ◌↔◌, ◌⊎◌, some, ok, arith}
use a2a_superhub.Models.{TaskState, submitted, accepted, working, input_required, ensure_transition}

-- how far a task has come
abbrev pub rank : TaskState → ℕ
rank submitted = 0
rank accepted = 1
rank working = 2
rank input_required = 2
rank _ = 3

-- A request for a state is accepted exactly when the current state is not terminal and the request
-- goes forward: to a later stage, or from the working stage to the working stage.
pub ensure_transition_iff :
    (current requested : TaskState)
    → (ensure_transition current (some requested) ≡ ok tt)
      ↔ ((rank current < rank requested) ⊎ ((rank current ≡ 2) × (rank requested ≡ 2)))
unfolding ensure_transition
ensure_transition_iff submitted requested = ground arith
ensure_transition_iff accepted requested = ground arith
ensure_transition_iff working requested = ground arith
ensure_transition_iff input_required requested = ground arith
ensure_transition_iff _ requested = ground arith
