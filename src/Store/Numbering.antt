-- ===== src/Store/Numbering.antt =====
-- Events are numbered 1, 2, 3, … within each task, in the order in which they are stored.
use mathlib.Core.List.{append-nil}
use a2a_superhub.Prelude.{
  inl, inr, Bool-cases, eq_iff, ap, ◌∙◌, ℕ, suc, ◌+◌, max, String, ◌≡◌, List, [], ◌∷◌, ◌++◌, ◌==◌,
  length, select-append, arith,
}
use a2a_superhub.Store.Tables.{Event, events_of, next_sequence, max_sequence}

-- the sequence numbers count up from `k`
abbrev pub IsNumbered : ℕ → List Event → Type 0
IsNumbered k [] = Unit
IsNumbered k (e ∷ es) = (e.sequence ≡ k) × IsNumbered (suc k) es

IsNumbered-append :
    (k : ℕ) (es : List Event) (e : Event)
    → IsNumbered k es
    → e.sequence ≡ k + length es
    → IsNumbered k (es ++ e ∷ [])
IsNumbered-append k [] e h p = (omega arith, tt)
IsNumbered-append k (x ∷ xs) e h p = (h.0, IsNumbered-append (suc k) xs e h.1 (omega arith))

max_sequence-IsNumbered :
    (k : ℕ) (es : List Event) → IsNumbered (suc k) es → max k (max_sequence es) ≡ k + length es
unfolding max_sequence
max_sequence-IsNumbered k [] h = omega arith
max_sequence-IsNumbered k (x ∷ xs) h = omega (arith, max_sequence-IsNumbered (suc k) xs h.1)

pub next_sequence-eq :
    (t : String) (es : List Event)
    → IsNumbered 1 (events_of t es)
    → next_sequence t es ≡ suc (length (events_of t es))
unfolding next_sequence
next_sequence-eq t es h = omega (arith, max_sequence-IsNumbered 0 (events_of t es) h)

-- one more event, with the next number of its task, keeps every task numbered
pub IsNumbered-add :
    (t : String) (es : List Event) (e : Event)
    → ((u : String) → IsNumbered 1 (events_of u es))
    → e.sequence ≡ next_sequence e.task_id es
    → IsNumbered 1 (events_of t (es ++ e ∷ []))
IsNumbered-add t es e h p =
    rw (select-append (λ x. x.task_id == t) es (e ∷ [])) (elim (Bool-cases (e.task_id == t)) [
      | inl same ↦ rw same (
          IsNumbered-append 1 (events_of t es) e (h t) (
            omega (
              arith,
              p ∙ ap (λ u. next_sequence u es) ((eq_iff e.task_id t).0 same),
              next_sequence-eq t es (h t),
            )))
      | inr other ↦ rw (other, append-nil) (h t)
    ])
