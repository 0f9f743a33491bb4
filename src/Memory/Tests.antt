-- ===== src/Memory/Tests.antt =====
-- Reading notes.
use a2a_superhub.Dict.{pop, lookup, put}
use a2a_superhub.Memory.Watcher.Changes.{flush_keeps_new_changes}
use a2a_superhub.Memory.Watcher.{
  Notice, Watcher, flush, is_change, flush_ready, notify_all, ready, Pending, clear, holds,
  same_pending, notify, note_path, note_dest,
}
use a2a_superhub.Memory.Access.{Contains, read_note-Visible}
use a2a_superhub.Memory.Notes.{
  Note, read_note, can_read, may_see, all_readable, derived_sources, not_found, MemoryError,
}
use a2a_superhub.Auth.Bearer.{Principal, has, after_prefix}
use Prim.Native.String.{String, []}
use Prim.Native.String
use a2a_superhub.Prelude.{
  refl, String, none, Bool, ◌≡◌, ◌∷◌, ◌==◌, true, [], ◌⊎◌, ok, false, err, Result, some, ◌<◌, arith,
}

abbrev reader : Principal
reader = record { subject = "alice"; kind = "agent"; token_id = "t1"; scopes = "memory.read" ∷ [] }

abbrev shared_note : Note
shared_note = record {
  id = "n1";
  kind = "note";
  title = "a title";
  author = "bob";
  visibility = "shared";
  recorded_at = "t0";
  project = none;
  participants = [];
  about = [];
  supersedes = none;
  relations = record { kind = "x-derived-from"; target = "artifact:a1" } ∷ [];
  body = "";
}

abbrev has_a1 : String → Bool
has_a1 id = id == "a1"

read_shared : read_note (λ id. ok shared_note) has_a1 "n1" reader ≡ ok shared_note
unfolding read_note can_read may_see all_readable derived_sources has after_prefix
read_shared = refl

-- a principal that cannot read the artifact cannot read the note
read_underived : read_note (λ id. ok shared_note) (λ source. false) "n1" reader ≡ err not_found
unfolding read_note can_read may_see all_readable derived_sources has after_prefix
read_underived = refl

read_note-Visible_example :
    (has reader "memory.read" ≡ true)
    × ((shared_note.author ≡ reader.subject)
        ⊎ (has reader "memory.admin" ≡ true)
        ⊎ (shared_note.visibility ≡ "shared")
        ⊎ (shared_note.visibility ≡ String.◌++◌ "direct:" reader.subject))
    × ((source : String)
        → Contains source (derived_sources shared_note.relations)
        → has_a1 source ≡ true)
read_note-Visible_example =
    read_note-Visible (λ id. ok shared_note) has_a1 "n1" reader shared_note read_shared

abbrev changed : Notice
changed = record { at = 5; path = "notes/a.md"; kind = "modified"; dest_path = none }

abbrev watching : Watcher
watching = record {
  debounce = 2;
  pending = ("notes/a.md", record { due = 3; generation = 1 }) ∷ [];
  next_generation = 1;
}

abbrev synced : Result MemoryError Bool
synced = ok true

-- the entry that was ready is replaced by the newer one, which stays
flush-watching :
    flush false 4 (λ v. (synced, notify_all (λ path. path) (changed ∷ []) v)) watching ≡ (
      ok (some true),
      record watching {
        pending = ("notes/a.md", record { due = 7; generation = 2 }) ∷ [];
        next_generation = 2;
      },
    )
unfolding flush flush_ready ready clear holds same_pending pop lookup put notify_all notify
    note_path note_dest is_change
flush-watching = refl

flush_keeps_new_changes_example :
    (flush false 4 (λ v. (synced, notify_all (λ path. path) (changed ∷ []) v)) watching
      ≡ (ok none, watching))
    ⊎ ((entry : Pending) × (lookup "notes/a.md"
            (flush false 4
              (λ v. (synced, notify_all (λ path. path) (changed ∷ []) v))
              watching).1.pending
          ≡ some entry)
        × (1 < entry.generation))
unfolding is_change
flush_keeps_new_changes_example =
    flush_keeps_new_changes (λ path. path) watching false 4 synced [] [] changed (omega arith, tt)
      refl
