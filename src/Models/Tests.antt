-- ===== src/Models/Tests.antt =====
-- The transitions of the task states at concrete states.
use a2a_superhub.Prelude.{◌≡◌, ◌<◌, ◌⊎◌, ◌↔◌, some, ok}
use a2a_superhub.Models.{ensure_transition, working, completed}
use a2a_superhub.Models.Transitions.{rank, ensure_transition_iff}

ensure_transition_iff_example :
    (ensure_transition working (some completed) ≡ ok tt)
    ↔ ((rank working < rank completed) ⊎ ((rank working ≡ 2) × (rank completed ≡ 2)))
ensure_transition_iff_example = ensure_transition_iff working completed
