-- ===== src/Store/Progress.antt =====
-- That the store does its work: an allowed event is stored, and a log is read as it was written.
use mathlib.Core.List.{append-nil}
use a2a_superhub.Store.Invariant.Events.{event_for, insert_outbox-eq}
use a2a_superhub.Store.Invariant.Writes.{
  rows_for-open, ensure_transition-open, tasks_after, update_state-eq,
}
use a2a_superhub.Models.{TaskState, ensure_transition, is_terminal}
use a2a_superhub.Store.Invariant.Growth.{IsConsistent, rows_for, rows_of, grown, row_of}
use a2a_superhub.Store.Numbering.{IsNumbered}
use a2a_superhub.Store.Tasks.{
  insert_event, by_sequence, list_events, find_task, record_terminal, append_event_conn,
  append_event, get_task, append_to, optional_state,
}
use a2a_superhub.Store.Tables.{max_sequence, Event, Env, events_of, next_sequence, Store, Task}
use a2a_superhub.Prelude.{
  ℕ, suc, ◌<◌, max, String, ◌≡◌, refl, inl, inr, false, Option, none, some, List, [], ◌∷◌, ◌++◌,
  ◌==◌, ◌&&◌, ◌||◌, eqb, arith, Bool-cases, ok, any,
}
use a2a_superhub.Json.{Value, ◌or◌, obj, no_entries}

-- no stored event of the task has a number above the greatest
any-above :
    (t : String) (n : ℕ) (es : List Event)
    → max_sequence (events_of t es) < n
    → any (λ old. old.task_id == t && eqb old.sequence n) es ≡ false
unfolding max_sequence
any-above t n [] h = refl
any-above t n (x ∷ xs) h = elim (Bool-cases (x.task_id == t)) [
  | inl same ↦
      let h' : max x.sequence (max_sequence (events_of t xs)) < n = rw same at h in
      rw (same, any-above t n xs (omega arith)) (ground arith)
  | inr other ↦
      let h' : max_sequence (events_of t xs) < n = rw other at h in rw (other, any-above t n xs h')
]

any-or-false :
    (id t : String) (n : ℕ) (es : List Event)
    → any (λ old. old.event_id == id) es ≡ false
    → any (λ old. old.task_id == t && eqb old.sequence n) es ≡ false
    → any (λ old. old.event_id == id || (old.task_id == t && eqb old.sequence n)) es ≡ false
any-or-false id t n [] p q = refl
any-or-false id t n (x ∷ xs) p q = ground (arith, any-or-false id t n xs)

insert_event-fresh :
    (e : Event) (s : Store)
    → any (λ old. old.event_id == e.event_id) s.events ≡ false
    → e.sequence ≡ next_sequence e.task_id s.events
    → insert_event e s ≡ (ok tt, record s { events = s.events ++ e ∷ [] })
unfolding insert_event next_sequence
insert_event-fresh e s fresh p =
    rw
      (any-or-false e.event_id e.task_id e.sequence s.events fresh
        (any-above e.task_id e.sequence s.events (omega (arith, p))))
      refl

-- `ORDER BY sequence` leaves a numbered log as it is
by_sequence-IsNumbered : (k : ℕ) (es : List Event) → IsNumbered k es → by_sequence es ≡ es
unfolding by_sequence
by_sequence-IsNumbered k [] h = refl
by_sequence-IsNumbered k (e ∷ []) h = refl
by_sequence-IsNumbered k (e ∷ f ∷ es) h =
    rw (by_sequence-IsNumbered (suc k) (f ∷ es) h.1) (ground arith)

-- In a consistent store `list_events` returns the events of the task in the order in which they
-- were stored, each once.
pub list_events_in_order :
    (t : String) (s : Store) → IsConsistent s → list_events t s ≡ events_of t s.events
unfolding list_events
list_events_in_order t s c = by_sequence-IsNumbered 1 (events_of t s.events) (c.numbered t)

record_terminal-unhit :
    (env : Env) (e : Event) (state : Option TaskState) (s : Store)
    → rows_for e.task_id s.outbox ≡ []
    → env.failpoint "after_event_before_outbox" ≡ false
    → record_terminal env e state s ≡ (ok tt, record s { outbox = s.outbox ++ rows_of e state })
unfolding record_terminal
record_terminal-unhit env e none s quiet miss = rw append-nil
record_terminal-unhit env e (some state) s quiet miss = elim (Bool-cases (is_terminal state)) [
  | inr open_ ↦ rw (open_, append-nil)
  | inl over ↦ rw (over, miss, insert_outbox-eq (row_of e state) s quiet refl)
]

module _ (env : Env) (t kind : String) (payload : Value) (s : Store) (c : IsConsistent s)
    (st : Option TaskState) (row : Task) (known : find_task t s.tasks ≡ some row)
    (allowed : ensure_transition row.state st ≡ ok tt)
    (fresh : any (λ old. old.event_id == env.new_event_id) s.events ≡ false)
    (unhit : (stage : String) → env.failpoint stage ≡ false) where
  append_event_conn-succeeds : append_event_conn env t kind st (payload or obj no_entries) s ≡ (
    ok (event_for env t kind st (payload or obj no_entries) s),
    grown s s.tasks (event_for env t kind st (payload or obj no_entries) s),
  )
  unfolding append_event_conn
  append_event_conn-succeeds =
      let e = event_for env t kind st (payload or obj no_entries) s in
      rw (
        insert_event-fresh e s fresh refl,
        record_terminal-unhit env e st (record s { events = s.events ++ e ∷ [] })
            (rows_for-open s t row c known (ensure_transition-open row st allowed)) (unhit _),
      )

  -- An event for a known task whose transition is allowed is stored and returned, if its fresh
  -- identifier is not taken and no failpoint raises: in particular its number is never taken.
  pub append_event_succeeds :
      (state : Option String)
      → optional_state state ≡ ok st
      → let e = event_for env t kind st (payload or obj no_entries) s in
        append_event env t kind payload state s ≡ (ok e, grown s (tasks_after env t st s.tasks) e)
  unfolding append_event get_task append_to
  append_event_succeeds state checked = rw (
    checked,
    known,
    allowed,
    append_event_conn-succeeds,
    update_state-eq env t kind (payload or obj no_entries) st s,
    unhit "after_commit_before_return",
  )
