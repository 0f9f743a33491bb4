-- ===== src/Store/Invariant/Writes.antt =====
-- Every method that writes keeps the invariant, and what `append_event` does on each branch.
use a2a_superhub.Store.Invariant.Events.{event_for, append_event_conn-eq}
use a2a_superhub.Json.{Value, ◌or◌, obj, no_entries}
use a2a_superhub.Prelude.{
  Raised, Result-cases, ◌>>◌, String, ◌≡◌, refl, false, Option, none, some, List, [], ◌∷◌, ◌==◌,
  arith, eq_iff, Result, ok, find-some, ◌⊎◌, inl, inr, pure, err, raise_if, if◌then◌else◌,
  Option-cases, Bool-cases,
}
use a2a_superhub.Models.{Exn, TaskState, is_terminal, ensure_transition, runtime_error, key_error}
use a2a_superhub.Store.Tables.{Store, Task, Event, Env, events_of}
use a2a_superhub.Store.Tasks.{
  find_task, set_state, append_to, update_state, optional_state, append_event, get_task,
}
use a2a_superhub.Store.Invariant.Growth.{
  IsConsistent, IsSettled, rows_for, grown, Fits, later, grown-IsConsistent, last_state,
}

find_task-set_state_self :
    (t : String) (st : TaskState) (now : String) (ts : List Task) (row : Task)
    → find_task t ts ≡ some row
    → find_task t (set_state t st now ts) ≡ some (record row { state = st; updated_at = now })
unfolding find_task set_state
find_task-set_state_self t st now [] row h = cc
find_task-set_state_self t st now (x ∷ xs) row h =
    ground (arith, find_task-set_state_self t st now xs row)

find_task-set_state_ne :
    (k t : String) (st : TaskState) (now : String) (ts : List Task)
    → (k == t) ≡ false
    → find_task t (set_state k st now ts) ≡ find_task t ts
unfolding find_task set_state
find_task-set_state_ne k t st now [] h = refl
find_task-set_state_ne k t st now (x ∷ xs) h = ground (
  arith,
  find_task-set_state_ne k t st now xs h,
  eq_iff x.task_id k,
  eq_iff k t,
  eq_iff x.task_id t,
)

find_task-task_id :
    (t : String) (ts : List Task) (row : Task) → find_task t ts ≡ some row → row.task_id ≡ t
unfolding find_task
find_task-task_id t ts row h = (eq_iff row.task_id t).0 (find-some (λ x. x.task_id == t) ts h)

-- `row` after a request
abbrev pub moved : Env → Option TaskState → Task → Task
moved env none row = row
moved env (some st) row = record row { state = st; updated_at = env.now }

abbrev pub tasks_after : Env → String → Option TaskState → List Task → List Task
tasks_after env t none ts = ts
tasks_after env t (some st) ts = set_state t st env.now ts

tasks_after-found :
    (env : Env) (t : String) (st : Option TaskState) (ts : List Task) (row : Task)
    → find_task t ts ≡ some row
    → find_task t (tasks_after env t st ts) ≡ some (moved env st row)
tasks_after-found env t none ts row h = h
tasks_after-found env t (some st) ts row h = find_task-set_state_self t st env.now ts row h

pub tasks_after-others :
    (env : Env) (t u : String) (st : Option TaskState) (ts : List Task)
    → (t == u) ≡ false
    → find_task u (tasks_after env t st ts) ≡ find_task u ts
tasks_after-others env t u none ts h = refl
tasks_after-others env t u (some st) ts h = find_task-set_state_ne t u st env.now ts h

later-moved :
    (env : Env) (st : Option TaskState) (row : Task) (old : Option TaskState)
    → old ≡ some row.state
    → later old st ≡ some (moved env st row).state
later-moved env none row old h = h
later-moved env (some st) row old h = refl

IsSettled-row :
    (s : Store) (t : String) (row : Task)
    → IsConsistent s
    → find_task t s.tasks ≡ some row
    → IsSettled (some row) (events_of t s.events) (rows_for t s.outbox)
IsSettled-row s t row c found = rw found at (c.settled t)

pub ensure_transition-open :
    (row : Task) (state : Option TaskState)
    → ensure_transition row.state state ≡ ok tt
    → is_terminal row.state ≡ false
unfolding ensure_transition
ensure_transition-open row state h = ground arith

pub rows_for-open :
    (s : Store) (t : String) (row : Task)
    → IsConsistent s
    → find_task t s.tasks ≡ some row
    → is_terminal row.state ≡ false
    → rows_for t s.outbox ≡ []
rows_for-open s t row c found open_ = rw open_ at ((IsSettled-row s t row c found).1)

-- What the transaction of `append_event` has done when it returns: the transition was allowed.
abbrev pub Wrote :
    Env
    → String
    → String
    → Value
    → Option TaskState
    → Task
    → Store
    → Result Exn Event × Store
    → Type 0
Wrote env t kind payload state row s result =
    let e = event_for env t kind state payload s in
    (ensure_transition row.state state ≡ ok tt)
    × (result ≡ (ok e, grown s (tasks_after env t state s.tasks) e))

pub update_state-eq :
    (env : Env) (t kind : String) (payload : Value) (state : Option TaskState) (s : Store)
    → let e = event_for env t kind state payload s in
      (update_state env t state >> (pure e)) (grown s s.tasks e)
      ≡ (ok e, grown s (tasks_after env t state s.tasks) e)
unfolding update_state
update_state-eq env t kind payload none s = refl
update_state-eq env t kind payload (some st) s = refl

append_to-eq :
    (env : Env) (t kind : String) (payload : Value) (state : Option TaskState) (row : Task)
    (s : Store)
    → IsConsistent s
    → find_task t s.tasks ≡ some row
    → Raised (append_to env t kind payload state (some row) s)
      ⊎ Wrote env t kind payload state row s (append_to env t kind payload state (some row) s)
unfolding append_to
append_to-eq env t kind payload state row s c found =
    elim (Result-cases (ensure_transition row.state state)) [
      | inl (x, refused) ↦ inl (x, s, rw refused)
      | inr (_, allowed) ↦
          let quiet = rows_for-open s t row c found (ensure_transition-open row state allowed) in
          elim (append_event_conn-eq env t kind state payload s quiet) [
            | inl (x, s', raised) ↦ inl (x, s', rw (allowed, raised))
            | inr written ↦
                inr (allowed, rw (allowed, written) (update_state-eq env t kind payload state s))
          ]
    ]

abbrev pub Raises : {A : Type 0} → Store → Result Exn A × Store → Type 0
Raises s result = (x : Exn) × (result ≡ (err x, s))

-- What `append_event` has done when its transaction is committed.
pub record Stored (env : Env) (t kind : String) (payload : Value) (state : Option String)
    (s : Store) (result : Result Exn Event × Store) : Type 0 where
  pub new_state : Option TaskState
  pub row : Task
  pub known : find_task t s.tasks ≡ some row
  pub checked : optional_state state ≡ ok new_state
  pub allowed : ensure_transition row.state new_state ≡ ok tt
  pub store :
      result.1
      ≡ grown s
          (tasks_after env t new_state s.tasks)
          (event_for env t kind new_state (payload or obj no_entries) s)
  pub reply : result.0 ≡ (
      if env.failpoint "after_commit_before_return"
      then err runtime_error
      else ok (event_for env t kind new_state (payload or obj no_entries) s))

reply_after_commit :
    (env : Env) (e : Event) (s' : Store)
    → (raise_if (env.failpoint "after_commit_before_return") runtime_error >> pure e) s'
      ≡ ((if env.failpoint "after_commit_before_return" then err runtime_error else ok e), s')
reply_after_commit env e s' = elim (Bool-cases (env.failpoint "after_commit_before_return")) [
  | inl hit ↦ rw hit
  | inr miss ↦ rw miss
]

module _ (env : Env) (t kind : String) (payload : Value) (s : Store) (c : IsConsistent s) where
  -- A call of `append_event` raises and leaves every table as it was, or it commits the event with
  -- the next number of a task that is known and may make the transition, the outbox row of a
  -- terminal state and the task's new state; a failpoint after the commit changes only the reply.
  pub append_event_outcome :
      (state : Option String)
      → Raises s (append_event env t kind payload state s)
        ⊎ Stored env t kind payload state s (append_event env t kind payload state s)
  unfolding append_event get_task
  append_event_outcome state = elim (Result-cases (optional_state state)) [
    | inl (x, refused) ↦ inl (x, rw refused)
    | inr (st, checked) ↦ elim (Option-cases (find_task t s.tasks)) [
      | inl unknown ↦ inl (key_error, rw (checked, unknown, append_to))
      | inr (row, known) ↦
          elim (append_to-eq env t kind (payload or obj no_entries) st row s c known) [
            | inl (x, s', raised) ↦ inl (x, rw (checked, known, raised))
            | inr (allowed, written) ↦
                let e = event_for env t kind st (payload or obj no_entries) s in
                let done = reply_after_commit env e (grown s (tasks_after env t st s.tasks) e) in
                inr (record {
                  new_state = st;
                  row = row;
                  known = known;
                  checked = checked;
                  allowed = allowed;
                  store = rw (checked, known, written, done);
                  reply = rw (checked, known, written, done);
                })
          ]
    ]
  ]

  fits :
      (st : Option TaskState) (row : Task)
      → ensure_transition row.state st ≡ ok tt
      → Fits st (moved env st row).state
  unfolding ensure_transition
  fits none row allowed = ground arith
  fits (some new) row allowed = refl

  grown_after :
      (st : Option TaskState) (row : Task)
      → find_task t s.tasks ≡ some row
      → ensure_transition row.state st ≡ ok tt
      → IsConsistent (
          grown s
            (tasks_after env t st s.tasks)
            (event_for env t kind st (payload or obj no_entries) s))
  grown_after st row known allowed =
      grown-IsConsistent s c (tasks_after env t st s.tasks)
        (event_for env t kind st (payload or obj no_entries) s) (moved env st row)
        (rows_for-open s t row c known (ensure_transition-open row st allowed))
        (tasks_after-found env t st s.tasks row known) (fits st row allowed)
        (later-moved env st row (last_state (events_of t s.events))
          (IsSettled-row s t row c known).0)
        refl (λ u other. tasks_after-others env t u st s.tasks other)

  -- `append_event` keeps the invariant, whether it returns or raises.
  pub append_event-IsConsistent :
      (state : Option String) → IsConsistent (append_event env t kind payload state s).1
  append_event-IsConsistent state = elim (append_event_outcome state) [
    | inl (x, raised) ↦ rw raised c
    | inr done ↦ rw done.store (grown_after done.new_state done.row done.known done.allowed)
  ]
