-- ===== src/Store/Invariant/Growth.antt =====
-- The invariant of the tables, and that one more event with its outbox row keeps it.
use mathlib.Core.List.{append-nil}
use a2a_superhub.Prelude.{
  suc, String, ◌≡◌, refl, Bool, true, false, Option, none, some, List, [], ◌∷◌, ◌++◌, ◌==◌, ◌||◌,
  length, select, select-append, arith, if◌then◌else◌, inl, inr, Bool-cases, eq_iff, eq_refl, ◌∙◌,
  sym, length-append,
}
use a2a_superhub.Models.{TaskState, is_terminal}
use a2a_superhub.Store.Tables.{Store, Task, Event, OutboxRow, events_of, next_sequence, empty}
use a2a_superhub.Store.Tasks.{find_task}
use a2a_superhub.Store.Numbering.{IsNumbered, IsNumbered-add, next_sequence-eq}

abbrev pub later : Option TaskState → Option TaskState → Option TaskState
later old none = old
later old (some state) = some state

abbrev last_from : Option TaskState → List Event → Option TaskState
last_from old [] = old
last_from old (e ∷ es) = last_from (later old e.state) es

-- the state that the last event with a state has set
abbrev pub last_state : List Event → Option TaskState
last_state = last_from none

last_from-append :
    (old : Option TaskState) (es : List Event) (e : Event)
    → last_from old (es ++ e ∷ []) ≡ later (last_from old es) e.state
last_from-append old [] e = refl
last_from-append old (x ∷ xs) e = last_from-append (later old x.state) xs e

abbrev concerns : String → OutboxRow → Bool
concerns task_id row = row.task_id == task_id || row.operation_id.task_id == task_id

-- the outbox rows of a task
abbrev pub rows_for : String → List OutboxRow → List OutboxRow
rows_for task_id = select (concerns task_id)

-- One row for the last event of a task that has ended, and none before.
abbrev pub IsQueued : Bool → TaskState → List Event → List OutboxRow → Type 0
IsQueued true state es rows =
    (row : OutboxRow) × (rows ≡ row ∷ [])
    × (row.terminal_state ≡ state)
    × (row.event_sequence ≡ length es)
IsQueued false state es rows = rows ≡ []

abbrev pub IsSettled : Option Task → List Event → List OutboxRow → Type 0
IsSettled none es rows = rows ≡ []
IsSettled (some task) es rows =
    (last_state es ≡ some task.state) × IsQueued (is_terminal task.state) task.state es rows

pub record IsConsistent (s : Store) : Type 0 where
  pub numbered : (t : String) → IsNumbered 1 (events_of t s.events)
  pub settled :
      (t : String) → IsSettled (find_task t s.tasks) (events_of t s.events) (rows_for t s.outbox)

pub empty-IsConsistent : IsConsistent empty
unfolding find_task
empty-IsConsistent = record { numbered = λ t. tt; settled = λ t. refl }

-- the outbox row of an event
abbrev pub row_of : Event → TaskState → OutboxRow
row_of e state = record {
  operation_id = record { task_id = e.task_id; sequence = e.sequence };
  task_id = e.task_id;
  event_sequence = e.sequence;
  terminal_state = state;
  payload = e.payload;
  created_at = e.created_at;
  acknowledged_at = none;
}

abbrev pub rows_of : Event → Option TaskState → List OutboxRow
rows_of e none = []
rows_of e (some state) = if is_terminal state then row_of e state ∷ [] else []

rows_for-rows_of_ne :
    (t : String) (e : Event) (state : Option TaskState)
    → (e.task_id == t) ≡ false
    → rows_for t (rows_of e state) ≡ []
rows_for-rows_of_ne t e none h = refl
rows_for-rows_of_ne t e (some state) h = ground arith

rows_for-rows_of_self :
    (e : Event) (state : Option TaskState) → rows_for e.task_id (rows_of e state) ≡ rows_of e state
rows_for-rows_of_self e none = refl
rows_for-rows_of_self e (some state) = ground (arith, eq_refl e.task_id)

-- What an event must fit, on the rows of its own task: the task's row after the write.
abbrev pub Fits : Option TaskState → TaskState → Type 0
Fits none state = is_terminal state ≡ false
Fits (some new) state = new ≡ state

IsQueued-rows_of :
    (e : Event) (es : List Event) (new : Option TaskState) (state : TaskState)
    → Fits new state
    → e.sequence ≡ suc (length es)
    → IsQueued (is_terminal state) state (es ++ e ∷ []) (rows_of e new)
IsQueued-rows_of e es none state fits p = rw fits refl
IsQueued-rows_of e es (some new) state fits p = elim (Bool-cases (is_terminal state)) [
  | inl over ↦
      rw (fits, over)
        (row_of e state, refl, refl, p ∙ sym (omega (arith, length-append es (e ∷ []))))
  | inr open_ ↦ rw (fits, open_) refl
]

IsSettled-rows_of :
    (e : Event) (es : List Event) (task : Task)
    → Fits e.state task.state
    → later (last_state es) e.state ≡ some task.state
    → e.sequence ≡ suc (length es)
    → IsSettled (some task) (es ++ e ∷ []) (rows_of e e.state)
IsSettled-rows_of e es task fits last p =
    (last_from-append none es e ∙ last, IsQueued-rows_of e es e.state task.state fits p)

-- one more event with its outbox row, beside a change of the task's own row
abbrev pub grown : Store → List Task → Event → Store
grown s tasks e = record s {
  tasks = tasks;
  events = s.events ++ e ∷ [];
  outbox = s.outbox ++ rows_of e e.state;
}

module _ (s : Store) (consistent : IsConsistent s) (tasks : List Task) (e : Event)
    (task : Task) where
  IsSettled-other :
      (t : String)
      → (e.task_id == t) ≡ false
      → find_task t tasks ≡ find_task t s.tasks
      → IsSettled
          (find_task t tasks)
          (events_of t (s.events ++ e ∷ []))
          (rows_for t (s.outbox ++ rows_of e e.state))
  IsSettled-other t ne same =
      rw
        (
          same,
          select-append (λ x. x.task_id == t) s.events (e ∷ []),
          ne,
          append-nil,
          select-append (concerns t) s.outbox (rows_of e e.state),
          rows_for-rows_of_ne t e e.state ne,
          append-nil,
        )
        (consistent.settled t)

  IsSettled-self :
      rows_for e.task_id s.outbox ≡ []
      → find_task e.task_id tasks ≡ some task
      → Fits e.state task.state
      → later (last_state (events_of e.task_id s.events)) e.state ≡ some task.state
      → e.sequence ≡ next_sequence e.task_id s.events
      → IsSettled
          (find_task e.task_id tasks)
          (events_of e.task_id (s.events ++ e ∷ []))
          (rows_for e.task_id (s.outbox ++ rows_of e e.state))
  IsSettled-self quiet found fits last p =
      rw
        (
          found,
          select-append (λ x. x.task_id == e.task_id) s.events (e ∷ []),
          eq_refl e.task_id,
          select-append (concerns e.task_id) s.outbox (rows_of e e.state),
          quiet,
          rows_for-rows_of_self e e.state,
        )
        (IsSettled-rows_of e (events_of e.task_id s.events) task fits last
          (p ∙ next_sequence-eq e.task_id s.events (consistent.numbered e.task_id)))

  -- The event has the next number of a task that has no outbox row yet; `task` is the task's row
  -- after the write, and its state is that of the event, if the event has one.
  pub grown-IsConsistent :
      rows_for e.task_id s.outbox ≡ []
      → find_task e.task_id tasks ≡ some task
      → Fits e.state task.state
      → later (last_state (events_of e.task_id s.events)) e.state ≡ some task.state
      → e.sequence ≡ next_sequence e.task_id s.events
      → ((t : String) → (e.task_id == t) ≡ false → find_task t tasks ≡ find_task t s.tasks)
      → IsConsistent (grown s tasks e)
  grown-IsConsistent quiet found fits last p others = record {
    numbered = λ t. IsNumbered-add t s.events e consistent.numbered p;
    settled = λ t. elim (Bool-cases (e.task_id == t)) [
      | inl same ↦ rw (← (eq_iff e.task_id t).0 same) (IsSettled-self quiet found fits last p)
      | inr other ↦ IsSettled-other t other (others t other)
    ];
  }
