-- ===== src/Store/Tests.antt =====
-- The store at work on concrete requests.
use a2a_superhub.Store.Invariant.Events.{event_for}
use a2a_superhub.Store.Invariant.Creation.{Submitted, create_task_outcome}
use a2a_superhub.Store.Progress.{list_events_in_order, append_event_succeeds}
use a2a_superhub.Store.Invariant.Writes.{Raises, Stored, append_event_outcome, tasks_after}
use a2a_superhub.Store.Finality.{Keeps, ended_task_is_final}
use a2a_superhub.Store.Invariant.Growth.{IsConsistent, grown}
use a2a_superhub.Store.Runs.{Call, run, creates, perform, appends, run-IsConsistent}
use a2a_superhub.Models.{submitted, ensure_state, completed, is_terminal, ensure_transition}
use a2a_superhub.Store.Tables.{
  Env, Task, Store, empty, task_value, next_sequence, events_of, Event, OutboxRow,
}
use a2a_superhub.Store.Tasks.{
  create_task, append_event, get_task, append_to, append_event_conn, insert_event, record_terminal,
  request_key, list_events, find_task, replayed, optional_state,
}
use a2a_superhub.Prelude.{◌≡◌, refl, true, false, none, some, List, [], ◌∷◌, ok, map, ◌⊎◌}
use a2a_superhub.Json.{Fields, obj, str, entry, no_entries, null, arr, no_items, ◌or◌}

-- what a test by evaluation opens
program : Unit {0}
unfolding create_task request_key append_event get_task ensure_state append_to append_event_conn
    insert_event record_terminal next_sequence
program = tt

abbrev env : Env
env = record {
  now = "2026-01-01T00:00:00Z";
  new_task_id = "task_1";
  new_conversation_id = "conv_1";
  new_event_id = "evt_1";
  repr = λ v. "";
  float_column = str;
  failpoint = λ stage. false;
}

abbrev env_2 : Env
env_2 = record env { now = "2026-01-01T00:00:05Z"; new_task_id = "task_2"; new_event_id = "evt_2" }

abbrev request : Fields
request =
    entry "fromAgent" (str "agent.alpha")
      (entry "toAgent" (str " agent.beta ") (entry "idempotencyKey" (str "demo-001") no_entries))

abbrev first : Task
first = record {
  task_id = "task_1";
  conversation_id = "conv_1";
  idempotency_key = str "demo-001";
  from_agent = "agent.alpha";
  to_agent = "agent.beta";
  intent = "agent.query";
  state = submitted;
  payload = obj no_entries;
  artifact_refs = arr no_items;
  permissions =
      obj (entry "sideEffects" (str "default-deny") (entry "scopes" (arr no_items) no_entries));
  limits = obj no_entries;
  correlation = obj no_entries;
  created_at = "2026-01-01T00:00:00Z";
  updated_at = "2026-01-01T00:00:00Z";
}

abbrev after_first : Store
after_first = record {
  agents = [];
  tasks = first ∷ [];
  events =
      record {
        event_id = "evt_1";
        task_id = "task_1";
        kind = "task.submitted";
        state = some submitted;
        payload = obj (entry "task" (unfold task_value in task_value first) no_entries);
        sequence = 1;
        created_at = "2026-01-01T00:00:00Z";
      }
      ∷ [];
  outbox = [];
}

-- The task runs to its end, a failpoint rolls one call back, and two calls come too late.
abbrev calls : List Call
calls =
    creates env (obj request)
    ∷ appends env_2 "task_1" "task.progress" null none
    ∷ appends (record env { new_event_id = "evt_3"; failpoint = λ stage. true }) "task_1"
        "task.completed" null (some "completed")
    ∷ appends (record env { new_event_id = "evt_4" }) "task_1" "task.completed" null
        (some "completed")
    ∷ appends (record env { new_event_id = "evt_5" }) "task_1" "task.failed" null (some "failed")
    ∷ creates env_2 (obj request)
    ∷ []

abbrev finished : Task
finished = record first { state = completed }

abbrev after_calls : Store
after_calls = run calls empty

run_calls :
    (get_task "task_1" after_calls ≡ some finished)
    × (map (λ (e : Event). e.event_id) (list_events "task_1" after_calls)
        ≡ "evt_1" ∷ "evt_2" ∷ "evt_4" ∷ [])
    × (map (λ (row : OutboxRow). row.event_sequence) after_calls.outbox ≡ 3 ∷ [])
unfolding program run perform list_events
run_calls = (refl, refl, refl)

run-IsConsistent_example : IsConsistent after_calls
run-IsConsistent_example = run-IsConsistent calls

after_first-IsConsistent : IsConsistent after_first
unfolding program run perform
after_first-IsConsistent = run-IsConsistent (creates env (obj request) ∷ [])

ended_task_is_final_example : Keeps "task_1" after_calls (run calls after_calls)
unfolding program run perform find_task is_terminal
ended_task_is_final_example =
    ended_task_is_final "task_1" finished calls after_calls (run-IsConsistent calls) refl refl

-- the task runs to its end before the request is repeated
abbrev between : List Call
between =
    appends (record env { new_event_id = "evt_4" }) "task_1" "task.completed" null
      (some "completed")
    ∷ []

create_task_outcome_example :
    Raises after_first (create_task env_2 (obj request) after_first)
    ⊎ (((t : Task) × (replayed env_2 request after_first ≡ some t)
          × (create_task env_2 (obj request) after_first ≡ (ok (t, false), after_first)))
        ⊎ Submitted env_2 request after_first (create_task env_2 (obj request) after_first))
create_task_outcome_example = create_task_outcome env_2 request after_first after_first-IsConsistent

append_event_outcome_example :
    Raises after_first (append_event env_2 "task_1" "task.done" null (some "completed") after_first)
    ⊎ Stored env_2 "task_1" "task.done" null
        (some "completed")
        after_first
        (append_event env_2 "task_1" "task.done" null (some "completed") after_first)
append_event_outcome_example =
    append_event_outcome env_2 "task_1" "task.done" null after_first after_first-IsConsistent
      (some "completed")

append_event_succeeds_example :
    append_event env_2 "task_1" "task.done" null (some "completed") after_first ≡ (
      ok (
          event_for env_2 "task_1" "task.done"
            (some completed)
            (null or obj no_entries)
            after_first),
      grown after_first (tasks_after env_2 "task_1" (some completed) after_first.tasks) (
          event_for env_2 "task_1" "task.done"
            (some completed)
            (null or obj no_entries)
            after_first),
    )
unfolding program find_task ensure_transition optional_state
append_event_succeeds_example =
    append_event_succeeds env_2 "task_1" "task.done" null after_first after_first-IsConsistent
      (some completed) first refl refl refl (λ stage. refl) (some "completed") refl

list_events_in_order_example :
    list_events "task_1" after_calls ≡ events_of "task_1" after_calls.events
list_events_in_order_example = list_events_in_order "task_1" after_calls (run-IsConsistent calls)
