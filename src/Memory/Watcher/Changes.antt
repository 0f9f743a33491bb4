-- ===== src/Memory/Watcher/Changes.antt =====
-- A change that arrives while a flush is running is not lost.
use a2a_superhub.Dict.Laws.{lookup-put, lookup-put_other, lookup-pop_other}
use a2a_superhub.Dict.{lookup, pop}
use a2a_superhub.Memory.Notes.{MemoryError}
use a2a_superhub.Memory.Watcher.{
  note_path, List, String, Pending, Watcher, some, false, suc, note_dest, notify, notify_all, Bool,
  holds, clear, flush_ready, flush, Option, Notice, select, same_pending, ready, is_change,
  MemoryError, leb, lookup,
}
use a2a_superhub.Prelude.{
  ◌∷◌, [], refl, ℕ, List, String, ◌≤◌, ◌≡◌, Bool-cases, ◌==◌, arith, inl, some, false, ◌<◌, eq_iff,
  suc, ◌∙◌, inr, Bool, Result, Option, select, none, true, ok, ◌+◌, ◌++◌, ◌⊎◌, err, ◌||◌, leb,
}

-- every entry has a generation that was given out
abbrev pub IsNumbered : ℕ → List (String × Pending) → Type 0
IsNumbered n [] = Unit {0}
IsNumbered n ((k, entry) ∷ rest) = (entry.generation ≤ n) × IsNumbered n rest

-- the key waits with a generation after `n`
abbrev IsLater : ℕ → String → Watcher → Type 0
IsLater n key w =
    (n ≤ w.next_generation)
    × ((entry : Pending) × (lookup key w.pending ≡ some entry) × (n < entry.generation))

-- A new entry under the key, or an entry under another key, leaves the key waiting.
note_path-IsLater :
    (n due : ℕ) (key : String) (w : Watcher)
    → n ≤ w.next_generation
    → IsLater n key (note_path due key w)
unfolding note_path
note_path-IsLater n due key w h = (
  omega arith,
  (
    record { due = due; generation = suc w.next_generation },
    lookup-put key (record { due = due; generation = suc w.next_generation }) w.pending,
    omega arith,
  ),
)

IsLater-other :
    (n due : ℕ) (key other : String) (w : Watcher)
    → n ≤ w.next_generation
    → (entry : Pending) → lookup key w.pending ≡ some entry
    → n < entry.generation
    → (other == key) ≡ false
    → IsLater n key (note_path due other w)
unfolding note_path
IsLater-other n due key other w h entry found later apart = (
  omega arith,
  (
    entry,
    lookup-put_other key other (record { due = due; generation = suc w.next_generation }) w.pending
          apart
        ∙ found,
    later,
  ),
)

IsLater-note_path :
    (n due : ℕ) (key other : String) (w : Watcher)
    → IsLater n key w
    → IsLater n key (note_path due other w)
IsLater-note_path n due key other w (h, (entry, found, later)) = elim (Bool-cases (other == key)) [
  | inl e ↦ rw (← (eq_iff other key).0 e) (note_path-IsLater n due other w h)
  | inr e ↦ IsLater-other n due key other w h entry found later e
]

IsLater-note_dest :
    (normalize : String → String) (n due : ℕ) (key : String) (dest : Option String) (w : Watcher)
    → IsLater n key w
    → IsLater n key (note_dest normalize due dest w)
unfolding note_dest
IsLater-note_dest normalize n due key none w h = h
IsLater-note_dest normalize n due key (some d) w h = IsLater-note_path n due key (normalize d) w h

IsLater-notify :
    (normalize : String → String) (n : ℕ) (key : String) (x : Notice) (w : Watcher)
    → IsLater n key w
    → IsLater n key (notify normalize x w)
unfolding notify
IsLater-notify normalize n key x w h = elim (Bool-cases (is_change x.kind)) [
  | inr e ↦ rw e h
  | inl e ↦ rw e (
      IsLater-note_dest normalize n (x.at + w.debounce) key x.dest_path
        (note_path (x.at + w.debounce) (normalize x.path) w)
        (IsLater-note_path n (x.at + w.debounce) key (normalize x.path) w h))
]

IsLater-notify_all :
    (normalize : String → String) (n : ℕ) (key : String) (xs : List Notice) (w : Watcher)
    → IsLater n key w
    → IsLater n key (notify_all normalize xs w)
unfolding notify_all
IsLater-notify_all normalize n key [] w h = h
IsLater-notify_all normalize n key (x ∷ xs) w h =
    IsLater-notify_all normalize n key xs (notify normalize x w)
      (IsLater-notify normalize n key x w h)

note_dest-generation :
    (normalize : String → String) (due : ℕ) (dest : Option String) (w : Watcher)
    → w.next_generation ≤ (note_dest normalize due dest w).next_generation
unfolding note_dest note_path
note_dest-generation normalize due none w = omega arith
note_dest-generation normalize due (some d) w = omega arith

notify-generation :
    (normalize : String → String) (x : Notice) (w : Watcher)
    → w.next_generation ≤ (notify normalize x w).next_generation
unfolding notify note_dest note_path
notify-generation normalize x w = elim (Bool-cases (is_change x.kind)) [
  | inr e ↦ rw e (omega arith)
  | inl e ↦
      let rest =
        note_dest-generation normalize (x.at + w.debounce) x.dest_path
          (note_path (x.at + w.debounce) (normalize x.path) w) in
      rw e (omega (arith, rest))
]

notify-IsLater :
    (normalize : String → String) (n : ℕ) (x : Notice) (w : Watcher)
    → is_change x.kind ≡ true
    → n ≤ w.next_generation
    → IsLater n (normalize x.path) (notify normalize x w)
unfolding notify
notify-IsLater normalize n x w change h =
    let due = x.at + w.debounce in
    rw change (
      IsLater-note_dest normalize n due (normalize x.path) x.dest_path
        (note_path due (normalize x.path) w) (note_path-IsLater n due (normalize x.path) w h))

notify_all-IsLater :
    (normalize : String → String) (n : ℕ) (before after : List Notice) (x : Notice) (w : Watcher)
    → is_change x.kind ≡ true
    → n ≤ w.next_generation
    → IsLater n (normalize x.path) (notify_all normalize (before ++ x ∷ after) w)
unfolding notify_all
notify_all-IsLater normalize n [] after x w change h =
    IsLater-notify_all normalize n (normalize x.path) after (notify normalize x w)
      (notify-IsLater normalize n x w change h)
notify_all-IsLater normalize n (b ∷ bs) after x w change h =
    notify_all-IsLater normalize n bs after x (notify normalize b w) change
      (omega (arith, notify-generation normalize b w))

select-IsNumbered :
    (p : String × Pending → Bool) (n : ℕ) (xs : List (String × Pending))
    → IsNumbered n xs
    → IsNumbered n (select p xs)
select-IsNumbered p n [] h = tt
select-IsNumbered p n ((k, entry) ∷ rest) (h, hs) = elim (Bool-cases (p (k, entry))) [
  | inl e ↦ rw e (h, select-IsNumbered p n rest hs)
  | inr e ↦ rw e (select-IsNumbered p n rest hs)
]

holds-later :
    (n : ℕ) (key : String) (entry old : Pending) (pending : List (String × Pending))
    → lookup key pending ≡ some entry
    → old.generation ≤ n
    → n < entry.generation
    → holds key old pending ≡ false
unfolding holds same_pending
holds-later n key entry old pending found h later = rw (holds, found) (ground arith)

-- entries of earlier generations do not clear a later one
clear-later :
    (n : ℕ) (key : String) (entry : Pending) (xs pending : List (String × Pending))
    → IsNumbered n xs
    → lookup key pending ≡ some entry
    → n < entry.generation
    → lookup key (clear xs pending) ≡ some entry
unfolding clear
clear-later n key entry [] pending h found later = found
clear-later n key entry ((k, old) ∷ rest) pending (h, hs) found later =
    elim (Bool-cases (holds k old pending)) [
      | inr e ↦ rw e (clear-later n key entry rest pending hs found later)
      | inl e ↦ elim (Bool-cases (k == key)) [
        | inl same ↦
            let here : lookup k pending ≡ some entry = rw ((eq_iff k key).0 same) found in
            let gone = holds-later n k entry old pending here h later in cc (e, gone)
        | inr apart ↦ rw e (
            clear-later n key entry rest (pop k pending) hs
              (lookup-pop_other key k pending apart ∙ found) later)
      ]
    ]

flush_ready-later :
    {A : Type 0} (n : ℕ) (xs : List (String × Pending)) (result : Result MemoryError A)
    (w : Watcher) (meanwhile : Watcher → Watcher) (key : String) (entry : Pending)
    → IsNumbered n xs
    → lookup key (meanwhile w).pending ≡ some entry
    → n < entry.generation
    → (flush_ready xs (λ v. (result, meanwhile v)) w ≡ (ok none, w))
      ⊎ ((e : Pending) × (lookup key (flush_ready xs (λ v. (result, meanwhile v)) w).1.pending
            ≡ some e)
          × (n < e.generation))
unfolding flush_ready
flush_ready-later n [] result w meanwhile key entry h found later = inl refl
flush_ready-later n (x ∷ xs) (err e) w meanwhile key entry h found later = inr (entry, found, later)
flush_ready-later n (x ∷ xs) (ok r) w meanwhile key entry h found later =
    inr (entry, clear-later n key entry (x ∷ xs) (meanwhile w).pending h found later, later)

-- Take a watcher whose entries have generations that were given out, and a flush of it, during whose
-- synchronisation any calls of `notify` come, one of them for a created, modified, moved or deleted
-- path. Either nothing was ready and the flush did nothing, or, whether the synchronisation succeeds
-- or raises, the path still waits after the flush, with a generation that is newer than the start.
pub flush_keeps_new_changes :
    {A : Type 0} (normalize : String → String) (w : Watcher) (force : Bool) (now : ℕ)
    (result : Result MemoryError A) (before after : List Notice) (x : Notice)
    → IsNumbered w.next_generation w.pending
    → is_change x.kind ≡ true
    → (flush force now (λ v. (result, notify_all normalize (before ++ x ∷ after) v)) w
        ≡ (ok none, w))
      ⊎ ((entry : Pending) × (lookup
              (normalize x.path)
              (flush force now
                (λ v. (result, notify_all normalize (before ++ x ∷ after) v))
                w).1.pending
            ≡ some entry)
          × (w.next_generation < entry.generation))
unfolding flush ready
flush_keeps_new_changes normalize w force now result before after x numbered change =
    let took = λ (y : String × Pending). force || leb y.1.due now in
    let (h, (entry, found, later)) =
      notify_all-IsLater normalize w.next_generation before after x w change (omega arith) in
    flush_ready-later w.next_generation (select took w.pending) result w
      (notify_all normalize (before ++ x ∷ after)) (normalize x.path) entry
      (select-IsNumbered took w.next_generation w.pending numbered) found later
