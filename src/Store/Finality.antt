-- ===== src/Store/Finality.antt =====
-- What later calls leave alone: a task that has ended.
use a2a_superhub.Store.Outbox.{acknowledge_terminal_outbox}
use a2a_superhub.Store.Invariant.Events.{event_for}
use a2a_superhub.Store.Invariant.Writes.{
  Stored, tasks_after, append_event_outcome, ensure_transition-open, tasks_after-others,
}
use a2a_superhub.Store.Invariant.Creation.{
  Created, first_event, find_task-append_ne, create_task_outcome,
}
use a2a_superhub.Store.Invariant.Growth.{grown, IsConsistent}
use a2a_superhub.Models.{is_terminal, Exn, ensure_object}
use a2a_superhub.Store.Tasks.{find_task, create_task, append_event}
use a2a_superhub.Store.Tables.{Store, Task, Event, events_of, Env}
use mathlib.Core.List.{append-nil}
use a2a_superhub.Prelude.{
  String, ◌≡◌, refl, inl, inr, true, false, Option, some, List, [], ◌∷◌, ◌++◌, ◌==◌, Result,
  select-append, ne→false, ◌∙◌, ap,
}
use a2a_superhub.Json.{Value, obj, ◌or◌, no_entries}
use a2a_superhub.Store.Runs.{
  Call, creates, appends, registers, acknowledges, perform, run, register_agent-SameTables,
  perform-IsConsistent,
}

-- the row and the log of a task are as they were
abbrev pub Keeps : String → Store → Store → Type 0
Keeps t s s' =
    (find_task t s'.tasks ≡ find_task t s.tasks) × (events_of t s'.events ≡ events_of t s.events)

grown-Keeps :
    (t : String) (s : Store) (tasks : List Task) (e : Event)
    → (e.task_id == t) ≡ false
    → find_task t tasks ≡ find_task t s.tasks
    → Keeps t s (grown s tasks e)
grown-Keeps t s tasks e other same =
    (same, rw (select-append (λ x. x.task_id == t) s.events (e ∷ []), other, append-nil) refl)

module _ (t : String) (row : Task) (ended : is_terminal row.state ≡ true) (s : Store)
    (c : IsConsistent s) (known : find_task t s.tasks ≡ some row) where
  Stored-other :
      (env : Env) (u kind : String) (payload : Value) (state : Option String)
      (result : Result Exn Event × Store)
      → Stored env u kind payload state s result
      → (u == t) ≡ false
  Stored-other env u kind payload state result done = ne→false u t (λ e. cc (
    known,
    done.known,
    ap (λ v. find_task v s.tasks) e,
    ensure_transition-open done.row done.new_state done.allowed,
    ended,
  ))

  Created-other :
      (env : Env) (task : Task) (s' : Store) → Created env task s s' → (task.task_id == t) ≡ false
  Created-other env task s' done =
      ne→false task.task_id t (λ e. cc (known, done.fresh, ap (λ v. find_task v s.tasks) e))

  Created-Keeps : (env : Env) (task : Task) (s' : Store) → Created env task s s' → Keeps t s s'
  Created-Keeps env task s' done =
      let other = Created-other env task s' done in
      let stored : Task = record task { idempotency_key = done.key } in
      rw done.store (
        grown-Keeps t s (s.tasks ++ stored ∷ []) (first_event env task s) other
          (find_task-append_ne t stored s.tasks other))

  Stored-Keeps :
      (env : Env) (u kind : String) (payload : Value) (state : Option String)
      (result : Result Exn Event × Store)
      → Stored env u kind payload state s result
      → Keeps t s result.1
  Stored-Keeps env u kind payload state result done =
      let other = Stored-other env u kind payload state result done in
      rw done.store (
        grown-Keeps t s (tasks_after env u done.new_state s.tasks)
          (event_for env u kind done.new_state (payload or obj no_entries) s) other
          (tasks_after-others env u t done.new_state s.tasks other))

  create_task-Keeps : (env : Env) (request : Value) → Keeps t s (create_task env request s).1
  unfolding create_task ensure_object
  create_task-Keeps env (obj fields) = elim (create_task_outcome env fields s c) [
    | inl (x, raised) ↦ rw raised (refl, refl)
    | inr (inl (_, _, replay)) ↦ rw replay (refl, refl)
    | inr (inr done) ↦ Created-Keeps env done.task _ done.created
  ]
  create_task-Keeps env _ = (refl, refl)

  append_event-Keeps :
      (env : Env) (u kind : String) (payload : Value) (state : Option String)
      → Keeps t s (append_event env u kind payload state s).1
  append_event-Keeps env u kind payload state =
      elim (append_event_outcome env u kind payload s c state) [
        | inl (x, raised) ↦ rw raised (refl, refl)
        | inr done ↦ Stored-Keeps env u kind payload state _ done
      ]

  perform-Keeps : (call : Call) → Keeps t s (perform call s)
  unfolding perform
  perform-Keeps (creates env request) = create_task-Keeps env request
  perform-Keeps (appends env u kind payload state) = append_event-Keeps env u kind payload state
  perform-Keeps (registers env card) =
      let (tasks, events, _) = register_agent-SameTables env card s in (rw tasks, rw events)
  perform-Keeps (acknowledges now id at) = unfold acknowledge_terminal_outbox in (refl, refl)

-- Once a task has ended, no calls change its row or its log, whatever they ask for and wherever
-- they raise.
pub ended_task_is_final :
    (t : String) (row : Task) (calls : List Call) (s : Store)
    → IsConsistent s
    → is_terminal row.state ≡ true
    → find_task t s.tasks ≡ some row
    → Keeps t s (run calls s)
unfolding run
ended_task_is_final t row [] s c ended known = (refl, refl)
ended_task_is_final t row (call ∷ calls) s c ended known =
    let (same, log) = perform-Keeps t row ended s c known call in
    let (same', log') =
      ended_task_is_final t row calls (perform call s) (perform-IsConsistent call s c) ended
        (same ∙ known) in
    (same' ∙ same, log' ∙ log)
