-- ===== src/Store/Invariant/Creation.antt =====
-- `create_task`: a replay changes nothing, and a new task starts its log with `task.submitted`.
use a2a_superhub.Prelude.{
  String, ◌≡◌, refl, ◌⊎◌, inl, inr, false, none, some, List, [], ◌∷◌, ◌++◌, ◌==◌, arith, Bool-cases,
  eq_refl, ok, err, any, Result-cases, ◌||◌, Result, Bool, Option-cases, true,
}
use a2a_superhub.Json.{Value, obj, no_entries, entry, Fields}
use a2a_superhub.Models.{integrity_error, ensure_object, Exn}
use a2a_superhub.Store.Tables.{Store, Task, Event, Env, column_text, task_value, same_column}
use a2a_superhub.Store.Tasks.{
  find_task, insert_task, store_task, create_task, create_new, replayed, new_task,
}
use a2a_superhub.Store.Invariant.Growth.{IsConsistent, rows_for, grown, grown-IsConsistent}
use a2a_superhub.Store.Invariant.Events.{event_for, append_event_conn-eq}
use a2a_superhub.Store.Invariant.Writes.{Raises}

absent :
    (t : Task) (ts : List Task)
    → any (λ old. old.task_id == t.task_id || same_column old.idempotency_key t.idempotency_key) ts
      ≡ false
    → find_task t.task_id ts ≡ none
unfolding find_task
absent t [] h = refl
absent t (x ∷ xs) h = ground (arith, absent t xs)

insert_task-eq :
    (t : Task) (s : Store)
    → (insert_task t s ≡ (err integrity_error, s))
      ⊎ ((insert_task t s ≡ (ok tt, record s { tasks = s.tasks ++ t ∷ [] }))
          × (find_task t.task_id s.tasks ≡ none))
unfolding insert_task
insert_task-eq t s =
    elim (Bool-cases (
      any (λ old. old.task_id == t.task_id || same_column old.idempotency_key t.idempotency_key)
        s.tasks)) [ inl taken ↦ inl (rw taken) | inr free ↦ inr (rw free, absent t s.tasks free) ]

find_task-append_self :
    (t : Task) (ts : List Task)
    → find_task t.task_id ts ≡ none
    → find_task t.task_id (ts ++ t ∷ []) ≡ some t
unfolding find_task
find_task-append_self t [] h = ground (arith, eq_refl t.task_id)
find_task-append_self t (x ∷ xs) h = ground (arith, find_task-append_self t xs)

pub find_task-append_ne :
    (u : String) (t : Task) (ts : List Task)
    → (t.task_id == u) ≡ false
    → find_task u (ts ++ t ∷ []) ≡ find_task u ts
unfolding find_task
find_task-append_ne u t [] h = ground arith
find_task-append_ne u t (x ∷ xs) h = ground (arith, find_task-append_ne u t xs)

-- the event that a new task starts with
abbrev pub first_event : Env → Task → Store → Event
first_event env t s =
    event_for env t.task_id "task.submitted" (some t.state)
      (obj (entry "task" (task_value t) no_entries)) s

-- What the transaction of `create_task` has done when it returns; `key` is the column's text.
pub record Created (env : Env) (t : Task) (s s' : Store) : Type 0 where
  pub key : Value
  pub bound : column_text env t.idempotency_key ≡ ok key
  pub fresh : find_task t.task_id s.tasks ≡ none
  pub store :
      s' ≡ grown s (s.tasks ++ record t { idempotency_key = key } ∷ []) (first_event env t s)

no_rows :
    (s : Store) (t : String)
    → IsConsistent s
    → find_task t s.tasks ≡ none
    → rows_for t s.outbox ≡ []
no_rows s t c unknown = rw unknown at (c.settled t)

store_task-eq :
    (env : Env) (t : Task) (s : Store)
    → IsConsistent s
    → Raises s (store_task env t s)
      ⊎ ((s' : Store) × (store_task env t s ≡ (ok (first_event env t s), s')) × Created env t s s')
unfolding store_task
store_task-eq env t s c = elim (Result-cases (column_text env t.idempotency_key)) [
  | inl (x, refused) ↦ inl (x, rw refused)
  | inr (key, bound) ↦
      let row : Task = record t { idempotency_key = key } in
      elim (insert_task-eq row s) [
        | inl taken ↦ inl (integrity_error, rw (bound, taken))
        | inr (added, fresh) ↦
            let s1 : Store = record s { tasks = s.tasks ++ row ∷ [] } in
            elim (append_event_conn-eq (record env { failpoint = λ stage. false }) t.task_id
              "task.submitted" (some t.state) (obj (entry "task" (task_value t) no_entries)) s1
              (no_rows s t.task_id c fresh)) [
                | inl (x, s', raised) ↦ inl (x, rw (bound, added, raised))
                | inr written ↦ inr (
                  grown s (s.tasks ++ row ∷ []) (first_event env t s),
                  rw (bound, added, written),
                  record { key = key; bound = bound; fresh = fresh; store = refl },
                )
              ]
      ]
]

pub Created-IsConsistent :
    (env : Env) (t : Task) (s s' : Store) → IsConsistent s → Created env t s s' → IsConsistent s'
Created-IsConsistent env t s s' c d =
    let row : Task = record t { idempotency_key = d.key } in
    rw d.store (
      grown-IsConsistent s c (s.tasks ++ row ∷ []) (first_event env t s) row
        (no_rows s t.task_id c d.fresh) (find_task-append_self row s.tasks d.fresh) refl refl refl
        (λ u other. find_task-append_ne u row s.tasks other))

-- How a call of `create_task` ends that has neither raised nor left the store alone.
pub record Submitted (env : Env) (fields : Fields) (s : Store)
    (result : Result Exn (Task × Bool) × Store) : Type 0 where
  pub task : Task
  pub built : new_task env fields ≡ ok task
  pub unknown : replayed env fields s ≡ none
  pub reply : result.0 ≡ ok (task, true)
  pub created : Created env task s result.1

-- A call of `create_task` on an object raises and leaves every table as it was, or it returns the
-- task that has the request's idempotency key and changes nothing, or it stores the new task with
-- the first event of its log (and the outbox row, if the requested state is terminal).
pub create_task_outcome :
    (env : Env) (fields : Fields) (s : Store)
    → IsConsistent s
    → Raises s (create_task env (obj fields) s)
      ⊎ (((t : Task) × (replayed env fields s ≡ some t)
            × (create_task env (obj fields) s ≡ (ok (t, false), s)))
          ⊎ Submitted env fields s (create_task env (obj fields) s))
unfolding create_task ensure_object create_new
create_task_outcome env fields s c = elim (Option-cases (replayed env fields s)) [
  | inr (t, known) ↦ inr (inl (t, known, rw known))
  | inl unknown ↦ elim (Result-cases (new_task env fields)) [
    | inl (x, refused) ↦ inl (x, rw (unknown, refused))
    | inr (t, built) ↦ elim (store_task-eq env t s c) [
      | inl (x, raised) ↦ inl (x, rw (unknown, built, raised))
      | inr (s', stored, done) ↦ inr (
          inr (record {
            task = t;
            built = built;
            unknown = unknown;
            reply = rw (unknown, built, stored);
            created = rw (unknown, built, stored) done;
          }))
    ]
  ]
]

-- `create_task` keeps the invariant, whether it creates, replays or raises.
pub create_task-IsConsistent :
    (env : Env) (request : Value) (s : Store)
    → IsConsistent s
    → IsConsistent (create_task env request s).1
unfolding create_task ensure_object
create_task-IsConsistent env (obj fields) s c = elim (create_task_outcome env fields s c) [
  | inl (x, raised) ↦ rw raised c
  | inr (inl (t, known, replay)) ↦ rw replay c
  | inr (inr done) ↦ Created-IsConsistent env done.task s _ c done.created
]
create_task-IsConsistent env _ s c = c
