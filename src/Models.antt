-- ===== src/Models.antt =====
-- src/a2a_superhub/models.py: the task states and the transitions between them. The program keeps a
-- state as its text and checks the text with `ensure_state`; here `ensure_state` reads the text, and
-- what it has read is a `TaskState`. `ValueError` and the other exceptions of the coordination
-- plane are the constructors of `Exn`; a message's text is not kept.
pub mod Transitions
mod Tests
use a2a_superhub.Prelude.{
  String, Bool, true, false, not, ◌||◌, Option, none, some, List, [], ◌∷◌, ◌++◌, ◌==◌, find, Result,
  ok, err, if◌then◌else◌,
}
use a2a_superhub.Json.{Value, obj, Fields}

-- the exceptions that reach a caller of the store
pub data Exn : Type 0 where
  value_error key_error integrity_error interface_error overflow_error runtime_error : Exn

-- `TASK_STATES`
pub data TaskState : Type 0 where
  submitted accepted working input_required completed failed canceled rejected dead_lettered :
      TaskState

unfoldable pub state_text : TaskState → String
state_text submitted = "submitted"
state_text accepted = "accepted"
state_text working = "working"
state_text input_required = "input-required"
state_text completed = "completed"
state_text failed = "failed"
state_text canceled = "canceled"
state_text rejected = "rejected"
state_text dead_lettered = "dead-lettered"

-- `state in TERMINAL_STATES`
unfoldable pub is_terminal : TaskState → Bool
is_terminal submitted = false
is_terminal accepted = false
is_terminal working = false
is_terminal input_required = false
is_terminal _ = true

-- `state in TERMINAL_STATES`, for an event that may have no state
unfoldable pub ends : Option TaskState → Bool
unfolding is_terminal
ends none = false
ends (some state) = is_terminal state

abbrev is_working : TaskState → Bool
is_working working = true
is_working input_required = true
is_working _ = false

abbrev is_accepted : TaskState → Bool
is_accepted accepted = true
is_accepted _ = false

-- `requested in ALLOWED_TASK_TRANSITIONS.get(current, set())`
unfoldable pub is_allowed : TaskState → TaskState → Bool
unfolding is_terminal
is_allowed submitted requested =
    is_accepted requested || is_working requested || is_terminal requested
is_allowed accepted requested = is_working requested || is_terminal requested
is_allowed working requested = is_working requested || is_terminal requested
is_allowed input_required requested = is_working requested || is_terminal requested
is_allowed _ requested = false

unfoldable pub ensure_object : Value → Result Exn Fields
ensure_object (obj fields) = ok fields
ensure_object _ = err Exn.value_error

abbrev task_states : List TaskState
task_states =
    submitted ∷ accepted ∷ working ∷ input_required ∷ completed ∷ failed ∷ canceled ∷ rejected
    ∷ dead_lettered ∷ []

state_or_raise : Option TaskState → Result Exn TaskState
state_or_raise none = err Exn.value_error
state_or_raise (some state) = ok state

unfoldable pub ensure_state : String → Result Exn TaskState
unfolding state_text state_or_raise
ensure_state text = state_or_raise (find (λ state. state_text state == text) task_states)

-- the tests of `ensure_transition` on a state that is not terminal
allow : TaskState → Option TaskState → Result Exn (Unit {0})
unfolding is_allowed
allow current none = ok tt
allow current (some requested) =
    if not (is_allowed current requested) then err Exn.value_error else ok tt

-- the state that `requested` names has passed `ensure_state`
unfoldable pub ensure_transition : TaskState → Option TaskState → Result Exn (Unit {0})
unfolding is_terminal allow
ensure_transition current requested =
    if is_terminal current then err Exn.value_error else allow current requested
