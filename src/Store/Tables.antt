-- ===== src/Store/Tables.antt =====
-- The tables of `HubStore.init`, in rowid order, and what a call takes from its surroundings: the
-- time, the fresh identifiers of `new_id`, `repr`, and where a failpoint raises.
use a2a_superhub.Prelude.{
  ℕ, suc, String, Bool, false, Option, List, [], ◌∷◌, ◌==◌, eqb, ◌&&◌, max, select, if◌then◌else◌,
  Result, ok, err, ltb,
}
use a2a_superhub.Json.{Value, null, str, obj, no_entries, entry, int_text, bool, int, real}
use a2a_superhub.Models.{Exn, TaskState, state_text}

-- a row of `tasks`, and the record of a task in the API; `idempotencyKey` is as the caller gave it
-- in the record that `create_task` returns, and its column text in a row
pub record Task : Type 0 where
  pub task_id : String
  pub conversation_id : String
  pub idempotency_key : Value
  pub from_agent : String
  pub to_agent : String
  pub intent : String
  pub state : TaskState
  pub payload : Value
  pub artifact_refs : Value
  pub permissions : Value
  pub limits : Value
  pub correlation : Value
  pub created_at : String
  pub updated_at : String

pub record Event : Type 0 where
  pub event_id : String
  pub task_id : String
  pub kind : String
  pub state : Option TaskState
  pub payload : Value
  pub sequence : ℕ
  pub created_at : String

-- the text `tasklog:<task_id>:<sequence>`, which its two parts determine
pub record OperationId : Type 0 where
  pub task_id : String
  pub sequence : ℕ

pub record OutboxRow : Type 0 where
  pub operation_id : OperationId
  pub task_id : String
  pub event_sequence : ℕ
  pub terminal_state : TaskState
  pub payload : Value
  pub created_at : String
  pub acknowledged_at : Option String

pub record Agent : Type 0 where
  pub agent_id : String
  pub card : Value
  pub created_at : String
  pub updated_at : String

pub record Store : Type 0 where
  pub agents : List Agent
  pub tasks : List Task
  pub events : List Event
  pub outbox : List OutboxRow

abbrev pub empty : Store
empty = record { agents = []; tasks = []; events = []; outbox = [] }

pub record Env : Type 0 where
  pub now : String
  pub new_task_id : String
  pub new_conversation_id : String
  pub new_event_id : String
  pub repr : Value → String
  -- what SQLite keeps in a TEXT column of a float, from the text that Python has for it
  pub float_column : String → Value
  -- whether the failpoint raises at a stage
  pub failpoint : String → Bool

-- The record of a task as JSON, in the order of the dict that `create_task` builds.
unfoldable pub task_value : Task → Value
unfolding state_text
task_value t = obj (
    entry "taskId" (str t.task_id) (
      entry "conversationId" (str t.conversation_id) (
        entry "idempotencyKey" t.idempotency_key (
          entry "fromAgent" (str t.from_agent) (
            entry "toAgent" (str t.to_agent) (
              entry "intent" (str t.intent) (
                entry "state" (str (state_text t.state)) (
                  entry "payload" t.payload (
                    entry "artifactRefs" t.artifact_refs (
                      entry "permissions" t.permissions (
                        entry "limits" t.limits (
                          entry "correlation" t.correlation (
                            entry "createdAt" (str t.created_at)
                              (entry "updatedAt" (str t.updated_at) no_entries))))))))))))))

-- what an integer is bound as: SQLite's have 64 bits
unfoldable pub bound_int : Bool → ℕ → Result Exn Value
unfolding int_text
bound_int negative n =
    if ltb (if negative then 9223372036854775808 else 9223372036854775807) n
    then err Exn.overflow_error
    else ok (str (int_text negative n))

-- What SQLite keeps of a Python value in a TEXT column: numbers become text, and a list or a dict
-- cannot be bound.
unfoldable pub column_text : Env → Value → Result Exn Value
unfolding bound_int
column_text env null = ok null
column_text env (bool b) = ok (str (if b then "1" else "0"))
column_text env (int negative n) = bound_int negative n
column_text env (real text) = ok (env.float_column text)
column_text env (str text) = ok (str text)
column_text env _ = err Exn.interface_error

-- `column = text`, which is never so of NULL
unfoldable pub column_is : Value → String → Bool
column_is (str text) key = text == key
column_is _ key = false

-- two non-NULL column values are equal (a UNIQUE column)
unfoldable pub same_column : Value → Value → Bool
unfolding column_is
same_column column (str text) = column_is column text
same_column column _ = false

unfoldable pub same_operation : OperationId → OperationId → Bool
same_operation a b = a.task_id == b.task_id && eqb a.sequence b.sequence

-- `SELECT … FROM events WHERE task_id = ?`
abbrev pub events_of : String → List Event → List Event
events_of task_id = select (λ e. e.task_id == task_id)

unfoldable pub max_sequence : List Event → ℕ
max_sequence [] = 0
max_sequence (e ∷ es) = max e.sequence (max_sequence es)

-- `SELECT COALESCE(MAX(sequence), 0) + 1 FROM events WHERE task_id = ?`
unfoldable pub next_sequence : String → List Event → ℕ
unfolding max_sequence
next_sequence task_id events = suc (max_sequence (events_of task_id events))
