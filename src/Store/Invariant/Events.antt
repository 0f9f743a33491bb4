-- ===== src/Store/Invariant/Events.antt =====
-- `_append_event_conn` adds the event with the next number and, if its state is terminal, its
-- outbox row; it raises only for an event id that is taken, or at its failpoint.
use mathlib.Core.List.{append-nil}
use a2a_superhub.Prelude.{
  ℕ, String, ◌≡◌, refl, false, Option, none, some, List, [], ◌∷◌, ◌++◌, ◌==◌, ◌&&◌, any, eqb, arith,
  inl, inr, Bool-cases, ok, err, ◌⊎◌, Raised,
}
use a2a_superhub.Json.{Value}
use a2a_superhub.Models.{TaskState, is_terminal, integrity_error, runtime_error}
use a2a_superhub.Store.Tables.{Store, Event, Env, OutboxRow, next_sequence, same_operation}
use a2a_superhub.Store.Tasks.{append_event_conn, insert_event, insert_outbox, record_terminal}
use a2a_superhub.Store.Invariant.Growth.{rows_for, row_of, rows_of, grown}

any-same_operation :
    (t : String) (n : ℕ) (rows : List OutboxRow)
    → rows_for t rows ≡ []
    → any (λ old. same_operation old.operation_id (record { task_id = t; sequence = n })) rows
      ≡ false
unfolding same_operation
any-same_operation t n [] h = refl
any-same_operation t n (x ∷ xs) h = ground (arith, any-same_operation t n xs)

any-same_event :
    (t : String) (n : ℕ) (rows : List OutboxRow)
    → rows_for t rows ≡ []
    → any (λ old. old.task_id == t && eqb old.event_sequence n) rows ≡ false
any-same_event t n [] h = refl
any-same_event t n (x ∷ xs) h = ground (arith, any-same_event t n xs)

insert_event-eq :
    (e : Event) (s : Store)
    → (insert_event e s ≡ (err integrity_error, s))
      ⊎ (insert_event e s ≡ (ok tt, record s { events = s.events ++ e ∷ [] }))
unfolding insert_event
insert_event-eq e s = ground arith

pub insert_outbox-eq :
    (row : OutboxRow) (s : Store)
    → rows_for row.task_id s.outbox ≡ []
    → row.operation_id ≡ record { task_id = row.task_id; sequence = row.event_sequence }
    → insert_outbox row s ≡ (ok tt, record s { outbox = s.outbox ++ row ∷ [] })
unfolding insert_outbox
insert_outbox-eq row s quiet own =
    rw
      (
        own,
        any-same_operation row.task_id row.event_sequence s.outbox quiet,
        any-same_event row.task_id row.event_sequence s.outbox quiet,
      )
      refl

record_terminal-eq :
    (env : Env) (e : Event) (state : Option TaskState) (s : Store)
    → rows_for e.task_id s.outbox ≡ []
    → (record_terminal env e state s ≡ (err runtime_error, s))
      ⊎ (record_terminal env e state s ≡ (ok tt, record s { outbox = s.outbox ++ rows_of e state }))
unfolding record_terminal
record_terminal-eq env e none s quiet = inr (rw append-nil)
record_terminal-eq env e (some state) s quiet = elim (Bool-cases (is_terminal state)) [
  | inr open_ ↦ inr (rw (open_, append-nil))
  | inl over ↦ elim (Bool-cases (env.failpoint "after_event_before_outbox")) [
    | inl hit ↦ inl (rw (over, hit))
    | inr miss ↦ inr (rw (over, miss, insert_outbox-eq (row_of e state) s quiet refl))
  ]
]

abbrev pub event_for : Env → String → String → Option TaskState → Value → Store → Event
event_for env t kind state payload s = record {
  event_id = env.new_event_id;
  task_id = t;
  kind = kind;
  state = state;
  payload = payload;
  sequence = next_sequence t s.events;
  created_at = env.now;
}

pub append_event_conn-eq :
    (env : Env) (t kind : String) (state : Option TaskState) (payload : Value) (s : Store)
    → rows_for t s.outbox ≡ []
    → let e = event_for env t kind state payload s in
      Raised (append_event_conn env t kind state payload s)
      ⊎ (append_event_conn env t kind state payload s ≡ (ok e, grown s s.tasks e))
unfolding append_event_conn
append_event_conn-eq env t kind state payload s quiet =
    let e = event_for env t kind state payload s in
    let s1 : Store = record s { events = s.events ++ e ∷ [] } in
    elim (insert_event-eq e s) [
      | inl taken ↦ inl (integrity_error, s, rw taken)
      | inr added ↦ elim (record_terminal-eq env e state s1 quiet) [
        | inl hit ↦ inl (runtime_error, s1, rw (added, hit))
        | inr queued ↦ inr (rw (added, queued))
      ]
    ]
