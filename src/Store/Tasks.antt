-- ===== src/Store/Tasks.antt =====
-- The task methods of `HubStore`: create_task, get_task, get_task_by_idempotency, list_tasks,
-- append_event, list_events. A raise inside `connect` rolls the transaction back.
use a2a_superhub.Prelude.{
  String, Bool, true, false, Option, none, some, List, [], ◌∷◌, ◌++◌, ◌==◌, eqb, ◌&&◌, ◌||◌, find,
  any, leb, if◌then◌else◌, Result, ok, err, map_ok, Exec, ◌>>=◌, ◌>>◌, pure, lift, gets, modify,
  raise_if, transaction, raise, sort_by, ℕ, take, max, min, text_leb,
}
use a2a_superhub.Json.{
  Value, Fields, str, obj, arr, no_items, no_entries, entry, get, truthy, ◌or◌, to_str, strip,
}
use a2a_superhub.Models.{
  Exn, TaskState, ensure_object, ensure_state, ensure_transition, is_terminal,
}
use a2a_superhub.Store.Tables.{
  Store, Task, Event, OutboxRow, Env, task_value, column_text, column_is, same_column,
  same_operation, events_of, next_sequence,
}

unfoldable pub find_task : String → List Task → Option Task
find_task task_id = find (λ t. t.task_id == task_id)

unfoldable pub get_task : String → Store → Option Task
unfolding find_task
get_task task_id s = find_task task_id s.tasks

unfoldable pub get_task_by_idempotency : String → Store → Option Task
unfolding column_is
get_task_by_idempotency key s = find (λ t. column_is t.idempotency_key key) s.tasks

-- `INSERT INTO events`: the primary key, and the unique pair of task and sequence
unfoldable pub insert_event : Event → Exec Exn Store (Unit {0})
insert_event e s =
    if any
      (λ old.
        old.event_id == e.event_id || (old.task_id == e.task_id && eqb old.sequence e.sequence))
      s.events
    then (err Exn.integrity_error, s)
    else (ok tt, record s { events = s.events ++ e ∷ [] })

-- `INSERT INTO terminal_outbox … ON CONFLICT(operation_id) DO NOTHING`
unfoldable pub insert_outbox : OutboxRow → Exec Exn Store (Unit {0})
unfolding same_operation
insert_outbox row s =
    if any (λ old. same_operation old.operation_id row.operation_id) s.outbox
    then (ok tt, s)
    else if any (λ old. old.task_id == row.task_id && eqb old.event_sequence row.event_sequence)
        s.outbox
    then (err Exn.integrity_error, s)
    else (ok tt, record s { outbox = s.outbox ++ row ∷ [] })

-- the `if state in TERMINAL_STATES` of `_append_event_conn`
unfoldable pub record_terminal : Env → Event → Option TaskState → Exec Exn Store (Unit {0})
unfolding insert_outbox is_terminal
record_terminal env e none = pure tt
record_terminal env e (some state) =
    if is_terminal state
    then (do
      raise_if (env.failpoint "after_event_before_outbox") Exn.runtime_error
      insert_outbox (record {
        operation_id = record { task_id = e.task_id; sequence = e.sequence };
        task_id = e.task_id;
        event_sequence = e.sequence;
        terminal_state = state;
        payload = e.payload;
        created_at = e.created_at;
        acknowledged_at = none;
      }))
    else pure tt

-- `_append_event_conn`
unfoldable pub append_event_conn :
    Env → String → String → Option TaskState → Value → Exec Exn Store Event
append_event_conn env task_id kind state payload s =
    let e : Event = record {
      event_id = env.new_event_id;
      task_id = task_id;
      kind = kind;
      state = state;
      payload = payload;
      sequence = next_sequence task_id s.events;
      created_at = env.now;
    } in
    (do insert_event e; record_terminal env e state; pure e) s

-- `INSERT INTO tasks`: the primary key, and the unique idempotency key
unfoldable pub insert_task : Task → Exec Exn Store (Unit {0})
unfolding same_column
insert_task t s =
    if any (λ old. old.task_id == t.task_id || same_column old.idempotency_key t.idempotency_key)
      s.tasks
    then (err Exn.integrity_error, s)
    else (ok tt, record s { tasks = s.tasks ++ t ∷ [] })

default_permissions : Value
default_permissions =
    obj (entry "sideEffects" (str "default-deny") (entry "scopes" (arr no_items) no_entries))

-- `task.get("idempotencyKey") or task.get("idempotency_key")`
unfoldable pub request_key : Fields → Value
unfolding get ◌or◌
request_key task = get task "idempotencyKey" or get task "idempotency_key"

-- the record that `create_task` builds from the request, after the idempotent replay
unfoldable pub new_task : Env → Fields → Result Exn Task
unfolding get ◌or◌ to_str strip default_permissions
new_task env task =
    let key = request_key task in
    let from_agent =
      strip (to_str env.repr (get task "fromAgent" or get task "from_agent" or str "")) in
    let to_agent = strip (to_str env.repr (get task "toAgent" or get task "to_agent" or str "")) in
    if from_agent == "" || to_agent == ""
    then err Exn.value_error
    else map_ok
        (λ state. record {
          task_id =
              to_str env.repr (get task "taskId" or get task "task_id" or str env.new_task_id);
          conversation_id = to_str env.repr (
              get task "conversationId"
              or get task "conversation_id"
              or str env.new_conversation_id);
          idempotency_key = key;
          from_agent = from_agent;
          to_agent = to_agent;
          intent = strip (to_str env.repr (get task "intent" or str "agent.query"));
          state = state;
          payload = get task "payload" or obj no_entries;
          artifact_refs = get task "artifactRefs" or get task "artifact_refs" or arr no_items;
          permissions = get task "permissions" or default_permissions;
          limits = get task "limits" or obj no_entries;
          correlation = get task "correlation" or obj no_entries;
          created_at = env.now;
          updated_at = env.now;
        })
        (ensure_state (to_str env.repr (get task "state" or str "submitted")))

-- the transaction of `create_task`, which has no failpoint
unfoldable pub store_task : Env → Task → Exec Exn Store Event
unfolding insert_task column_text append_event_conn task_value
store_task env t = transaction (do
  key ← lift (column_text env t.idempotency_key)
  insert_task (record t { idempotency_key = key })
  append_event_conn (record env { failpoint = λ stage. false }) t.task_id "task.submitted"
      (some t.state) (obj (entry "task" (task_value t) no_entries)))

unfoldable pub create_new : Env → Fields → Exec Exn Store (Task × Bool)
unfolding new_task store_task
create_new env task = do t ← lift (new_task env task); _ ← store_task env t; pure (t, true)

-- `existing`, if the request has a key that is known
unfoldable pub replayed : Env → Fields → Store → Option Task
unfolding truthy to_str get_task_by_idempotency
replayed env task s =
    let key = request_key task in
    if truthy key then get_task_by_idempotency (to_str env.repr key) s else none

unfoldable pub create_or_replay : Env → Fields → Option Task → Exec Exn Store (Task × Bool)
unfolding create_new
create_or_replay env task (some existing) = pure (existing, false)
create_or_replay env task none = create_new env task

-- The result is the task, and whether this call has created it.
unfoldable pub create_task : Env → Value → Exec Exn Store (Task × Bool)
unfolding ensure_object replayed create_or_replay
create_task env task = do
  fields ← lift (ensure_object task)
  existing ← gets (replayed env fields)
  create_or_replay env fields existing

-- `UPDATE tasks SET state = ?, updated_at = ? WHERE task_id = ?`
unfoldable pub set_state : String → TaskState → String → List Task → List Task
set_state task_id state now [] = []
set_state task_id state now (t ∷ ts) =
    (if t.task_id == task_id then record t { state = state; updated_at = now } else t)
    ∷ set_state task_id state now ts

unfoldable pub update_state : Env → String → Option TaskState → Exec Exn Store (Unit {0})
unfolding set_state
update_state env task_id none = pure tt
update_state env task_id (some state) =
    modify (λ s. record s { tasks = set_state task_id state env.now s.tasks })

-- the transaction of `append_event`, on the row that was found
unfoldable pub append_to :
    Env → String → String → Value → Option TaskState → Option Task → Exec Exn Store Event
unfolding ensure_transition append_event_conn update_state
append_to env task_id kind payload state none = raise Exn.key_error
append_to env task_id kind payload state (some row) = do
  lift (ensure_transition row.state state)
  event ← append_event_conn env task_id kind state payload
  update_state env task_id state
  pure event

unfoldable pub optional_state : Option String → Result Exn (Option TaskState)
unfolding ensure_state
optional_state none = ok none
optional_state (some text) = map_ok some (ensure_state text)

-- The failpoint after the commit raises with the event already stored.
unfoldable pub append_event : Env → String → String → Value → Option String → Exec Exn Store Event
unfolding optional_state append_to get_task ◌or◌
append_event env task_id kind payload state = do
  state ← lift (optional_state state)
  event ← transaction (do
    row ← gets (get_task task_id)
    append_to env task_id kind (payload or obj no_entries) state row)
  raise_if (env.failpoint "after_commit_before_return") Exn.runtime_error
  pure event

-- `ORDER BY sequence`
unfoldable pub by_sequence : List Event → List Event
unfolding sort_by
by_sequence = sort_by (λ a b. leb a.sequence b.sequence)

unfoldable pub list_events : String → Store → List Event
unfolding by_sequence
list_events task_id s = by_sequence (events_of task_id s.events)

-- `limit` is at least 1 and at most 500; the newest first
unfoldable pub list_tasks : ℕ → Store → List Task
unfolding sort_by
list_tasks limit s =
    take (max 1 (min limit 500)) (sort_by (λ a b. text_leb b.created_at a.created_at) s.tasks)
