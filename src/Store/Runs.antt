-- ===== src/Store/Runs.antt =====
-- The store as its callers see it over time: any sequence of the methods that write, each of which
-- may raise, from the empty store.
use a2a_superhub.Store.Invariant.Writes.{append_event-IsConsistent}
use a2a_superhub.Store.Invariant.Creation.{create_task-IsConsistent}
use a2a_superhub.Store.Invariant.Growth.{
  IsQueued, empty-IsConsistent, rows_for, IsSettled, IsConsistent,
}
use a2a_superhub.Prelude.{
  String, ◌≡◌, refl, Bool, true, false, Option, none, some, List, [], ◌∷◌, arith,
}
use a2a_superhub.Json.{Value, obj}
use a2a_superhub.Models.{TaskState, is_terminal, ensure_object}
use a2a_superhub.Store.Tables.{Store, Task, Event, Env, OutboxRow, OperationId, events_of, empty}
use a2a_superhub.Store.Tasks.{find_task, create_task, append_event}
use a2a_superhub.Store.Agents.{register_agent}
use a2a_superhub.Store.Outbox.{acknowledge_terminal_outbox, acknowledge_rows}

pub data Call : Type 0 where
  creates : Env → Value → Call
  appends : Env → String → String → Value → Option String → Call
  registers : Env → Value → Call
  acknowledges : String → OperationId → Option String → Call

unfoldable pub perform : Call → Store → Store
perform (creates env request) s = (create_task env request s).1
perform (appends env t kind payload state) s = (append_event env t kind payload state s).1
perform (registers env card) s = (register_agent env card s).1
perform (acknowledges now id at) s = (acknowledge_terminal_outbox now id at s).1

unfoldable pub run : List Call → Store → Store
run [] s = s
run (call ∷ calls) s = run calls (perform call s)

-- the tables that an invariant of tasks speaks of
abbrev pub SameTables : Store → Store → Type 0
SameTables s s' = (s'.tasks ≡ s.tasks) × (s'.events ≡ s.events) × (s'.outbox ≡ s.outbox)

-- registering an agent touches only the registry
pub register_agent-SameTables :
    (env : Env) (card : Value) (s : Store) → SameTables s (register_agent env card s).1
unfolding register_agent ensure_object
register_agent-SameTables env (obj fields) s = ground arith
register_agent-SameTables env _ s = (refl, refl, refl)

rows_for-acknowledge_rows :
    (t : String) (id : OperationId) (at : String) (rows : List OutboxRow)
    → rows_for t (acknowledge_rows id at rows) ≡ acknowledge_rows id at (rows_for t rows)
unfolding acknowledge_rows
rows_for-acknowledge_rows t id at [] = refl
rows_for-acknowledge_rows t id at (x ∷ xs) = ground (arith, rows_for-acknowledge_rows t id at xs)

IsQueued-acknowledge_rows :
    (b : Bool) (state : TaskState) (es : List Event) (id : OperationId) (at : String)
    (rows : List OutboxRow)
    → IsQueued b state es rows
    → IsQueued b state es (acknowledge_rows id at rows)
unfolding acknowledge_rows
IsQueued-acknowledge_rows true state es id at rows (row, only, p, q) =
    rw only (_, refl, ground arith, ground arith)
IsQueued-acknowledge_rows false state es id at rows h = rw h

IsSettled-acknowledge_rows :
    (task : Option Task) (es : List Event) (id : OperationId) (at : String) (rows : List OutboxRow)
    → IsSettled task es rows
    → IsSettled task es (acknowledge_rows id at rows)
unfolding acknowledge_rows
IsSettled-acknowledge_rows none es id at rows h = rw h
IsSettled-acknowledge_rows (some task) es id at rows h =
    (h.0, IsQueued-acknowledge_rows (is_terminal task.state) task.state es id at rows h.1)

acknowledge-IsConsistent :
    (now : String) (id : OperationId) (at : Option String) (s : Store)
    → IsConsistent s
    → IsConsistent (acknowledge_terminal_outbox now id at s).1
unfolding acknowledge_terminal_outbox
acknowledge-IsConsistent now id at s c = record {
  numbered = c.numbered;
  settled = λ t. rw rows_for-acknowledge_rows (
      IsSettled-acknowledge_rows (find_task t s.tasks) (events_of t s.events) id _
        (rows_for t s.outbox) (c.settled t));
}

SameTables-IsConsistent : (s s' : Store) → SameTables s s' → IsConsistent s → IsConsistent s'
SameTables-IsConsistent s s' (p, q, r) c = record {
  numbered = λ t. rw q (c.numbered t);
  settled = λ t. rw (p, q, r) (c.settled t);
}

pub perform-IsConsistent :
    (call : Call) (s : Store) → IsConsistent s → IsConsistent (perform call s)
unfolding perform
perform-IsConsistent (creates env request) s c = create_task-IsConsistent env request s c
perform-IsConsistent (appends env t kind payload state) s c =
    append_event-IsConsistent env t kind payload s c state
perform-IsConsistent (registers env card) s c =
    SameTables-IsConsistent s _ (register_agent-SameTables env card s) c
perform-IsConsistent (acknowledges now id at) s c = acknowledge-IsConsistent now id at s c

IsConsistent-run : (calls : List Call) (s : Store) → IsConsistent s → IsConsistent (run calls s)
unfolding run
IsConsistent-run [] s c = c
IsConsistent-run (call ∷ calls) s c =
    IsConsistent-run calls (perform call s) (perform-IsConsistent call s c)

-- After any calls from the empty store, each of which may have raised at any point, the events of
-- every task are numbered 1, 2, 3, … in the order in which they were stored; the state of a task is
-- the last state in its log; a task whose state is terminal has exactly one outbox row, for its last
-- event and with its state, and any other task has none.
pub run-IsConsistent : (calls : List Call) → IsConsistent (run calls empty)
run-IsConsistent calls = IsConsistent-run calls empty empty-IsConsistent
