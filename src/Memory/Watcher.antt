-- ===== src/Memory/Watcher.antt =====
-- `MemoryWatcher`: changed paths wait with a time and a generation until a flush has synchronised
-- the files. Times are ticks of the clock. The lock makes `notify` and each half of `flush` one
-- step; other calls can come between the halves, while the files are synchronised.
pub mod Changes
use a2a_superhub.Dict.{put, lookup, pop}
use a2a_superhub.Memory.Notes.{MemoryError}
use a2a_superhub.Prelude.{
  ◌>>=◌, ◌>>◌, pure, modify, ℕ, String, Bool, List, Option, elem, select, eqb, Exec, ◌∷◌, suc, ◌+◌,
  [], none, if◌then◌else◌, some, ◌||◌, ◌&&◌, ◌==◌, leb, false,
}
use Prim.Native.String.{String, ◌∷◌, []}
use Prim.Native.Nat.{ℕ, suc}

pub record Pending : Type 0 where
  pub due : ℕ
  pub generation : ℕ

pub record Watcher : Type 0 where
  pub debounce : ℕ
  pub pending : List (String × Pending)
  pub next_generation : ℕ

-- one candidate of `notify`, under its key
unfoldable pub note_path : ℕ → String → Watcher → Watcher
unfolding put
note_path due key w = record w {
  next_generation = suc w.next_generation;
  pending = put key (record { due = due; generation = suc w.next_generation }) w.pending;
}

-- a call of `notify` at a time; `event_type` is its kind
pub record Notice : Type 0 where
  pub at : ℕ
  pub path : String
  pub kind : String
  pub dest_path : Option String

unfoldable pub is_change : String → Bool
is_change kind = elem kind ("created" ∷ "modified" ∷ "moved" ∷ "deleted" ∷ [])

unfoldable pub note_dest : (String → String) → ℕ → Option String → Watcher → Watcher
unfolding note_path
note_dest normalize due none w = w
note_dest normalize due (some dest) w = note_path due (normalize dest) w

-- `notify`; `normalize` is NFC, then `/` for `\`, then `casefold`.
unfoldable pub notify : (String → String) → Notice → Watcher → Watcher
unfolding is_change note_path note_dest
notify normalize n w =
    let due = n.at + w.debounce in
    if is_change n.kind
    then note_dest normalize due n.dest_path (note_path due (normalize n.path) w)
    else w

unfoldable pub notify_all : (String → String) → List Notice → Watcher → Watcher
unfolding notify
notify_all normalize [] w = w
notify_all normalize (n ∷ ns) w = notify_all normalize ns (notify normalize n w)

-- the entries that the first half of `flush` takes
unfoldable pub ready : Bool → ℕ → Watcher → List (String × Pending)
ready force now w = select (λ (x : String × Pending). force || leb x.1.due now) w.pending

unfoldable pub same_pending : Pending → Pending → Bool
same_pending a b = eqb a.due b.due && eqb a.generation b.generation

unfoldable pub holds : String → Pending → List (String × Pending) → Bool
unfolding lookup same_pending
holds key entry pending = elim (lookup key pending) [
  | none ↦ false
  | some now ↦ same_pending now entry
]

-- the second half of `flush`: an entry that has changed since stays
unfoldable pub clear : List (String × Pending) → List (String × Pending) → List (String × Pending)
unfolding holds pop
clear [] pending = pending
clear ((key, entry) ∷ rest) pending =
    clear rest (if holds key entry pending then pop key pending else pending)

unfoldable pub flush_ready :
    {A : Type 0}
    → List (String × Pending)
    → Exec MemoryError Watcher A
    → Exec MemoryError Watcher (Option A)
unfolding clear
flush_ready [] sync = pure none
flush_ready (x ∷ xs) sync = do
  result ← sync
  modify (λ w. record w { pending = clear (x ∷ xs) w.pending })
  pure (some result)

-- `flush`; `sync` is `sync_filesystem` with the calls of `notify` that come meanwhile.
unfoldable pub flush :
    {A : Type 0} → Bool → ℕ → Exec MemoryError Watcher A → Exec MemoryError Watcher (Option A)
unfolding ready flush_ready
flush force now sync w = flush_ready (ready force now w) sync w

-- `MemoryWatcher(…)`
unfoldable pub watcher : ℕ → Watcher
watcher debounce = record { debounce = debounce; pending = []; next_generation = 0 }
