-- ===== src/Memory/Timeline/Shown.antt =====
-- What a timeline shows.
use a2a_superhub.Memory.Inbox.Fetch.{is_skipped, page_limit}
use a2a_superhub.Memory.Timeline.{
  TimelineRequest, List, TimelineItem, to_show, add_shown, show_rows, room_after, IndexRow, ok,
  Option, ℕ, is_shown, some, true, contains_text, err, is_skipped, leb, none, map_ok, timeline,
  superseded_ids,
}
use a2a_superhub.Auth.Bearer.{Principal, has}
use a2a_superhub.Memory.Notes.{MemoryError, Note, read_note, forbidden}
use a2a_superhub.Prelude.{
  String, Result, Bool, List, ◌≡◌, ◌∷◌, ok, Option, ℕ, [], ◌<◌, some, length, true, ◌≤◌, Bool-cases,
  arith, leb, inl, inr, none, ap, refl, map_ok, Result-cases,
}
use Prim.Native.String.{String, ◌∷◌}

module _ (read : String → Result MemoryError Note) (readable : String → Bool) (p : Principal)
    (request : TimelineRequest) (superseded : List String) where
  -- an item is a note that `read_note` gives, and it passes the filters
  abbrev pub IsItem : TimelineItem → Type 0
  IsItem item =
      ((id : String) × (read_note read readable id p ≡ ok item.note))
      × (is_shown request superseded item.note ≡ true)
      × (item.is_superseded ≡ contains_text item.note.id superseded)

  abbrev pub AllItems : List TimelineItem → Type 0
  AllItems [] = Unit {0}
  AllItems (item ∷ items) = IsItem item × AllItems items

  to_show-some :
      (result : Result MemoryError Note) (note : Note)
      → to_show request superseded result ≡ ok (some note)
      → (result ≡ ok note) × (is_shown request superseded note ≡ true)
  unfolding to_show
  to_show-some (err e) note h = absurd (elim (Bool-cases (is_skipped e)) [
    | inl k ↦ let h' : ok none ≡ ok (some note) = rw k at h in cc
    | inr k ↦ let h' : err e ≡ ok (some note) = rw k at h in cc
  ])
  to_show-some (ok x) note h = elim (Bool-cases (is_shown request superseded x)) [
    | inl k ↦
        let h' : ok (some x) ≡ ok (some note) = rw k at h in
        let same : x ≡ note = cc in (ap ok same, rw same at k)
    | inr k ↦ let h' : ok none ≡ ok (some note) = rw k at h in absurd (cc)
  ]

  add_shown-IsItem :
      (id : String) (found : Result MemoryError (Option Note)) (room : ℕ)
      (rest : Result MemoryError (List TimelineItem)) (items : List TimelineItem)
      → 0 < room
      → to_show request superseded (read_note read readable id p) ≡ found
      → ((later : List TimelineItem)
          → 0 < room_after found room
          → rest ≡ ok later
          → AllItems later × (length later ≤ room_after found room))
      → add_shown superseded found room rest ≡ ok items
      → AllItems items × (length items ≤ room)
  unfolding add_shown room_after
  add_shown-IsItem id (err e) room rest items some_room is_found next h = cc
  add_shown-IsItem id (ok none) room rest items some_room is_found next h = next items some_room h
  add_shown-IsItem id (ok (some note)) room rest items some_room is_found next h =
      let (given, shown) = to_show-some (read_note read readable id p) note is_found in
      let item : TimelineItem = record {
        note = note;
        is_superseded = contains_text note.id superseded;
      } in
      let is_item : IsItem item = ((id, given), shown, refl) in
      elim (Bool-cases (leb room 1)) [
        | inl full ↦
            let h' : ok (item ∷ []) ≡ ok items = rw full at h in
            let same : item ∷ [] ≡ items = cc in
            rw (← same) ((is_item, tt), omega (arith, some_room))
        | inr more ↦
            let h' : map_ok (λ (xs : List TimelineItem). item ∷ xs) rest ≡ ok items =
              rw more at h in
            elim (Result-cases rest) [
              | inl (e, bad) ↦ let h2 : err e ≡ ok items = rw bad at h' in absurd (cc)
              | inr (later, good) ↦
                  let h2 : ok (item ∷ later) ≡ ok items = rw good at h' in
                  let same : item ∷ later ≡ items = cc in
                  let (all, fits) = next later (ground arith) good in
                  rw (← same) ((is_item, all), omega (arith, fits, some_room))
            ]
      ]

  pub show_rows-AllItems :
      (rows : List IndexRow) (room : ℕ) (items : List TimelineItem)
      → 0 < room
      → show_rows read readable p request superseded room rows ≡ ok items
      → AllItems items × (length items ≤ room)
  unfolding show_rows
  show_rows-AllItems [] room items some_room h =
      let same : [] ≡ items = cc in rw (← same) (tt, omega arith)
  show_rows-AllItems (row ∷ rows) room items some_room h =
      add_shown-IsItem row.note_id _ room _ items some_room refl
        (λ later still found. show_rows-AllItems rows _ later still found) h

-- A timeline is given only to a principal with the scope memory.read. Each of its items is a note
-- that `read_note` gives to the principal and that passes the filters of the request, superseded
-- notes left out unless they are asked for, and is marked as the notes that are superseded say. It
-- has no more items than the limit, which is taken into 1 to 100.
pub timeline-AllItems :
    (read : String → Result MemoryError Note) (readable : String → Bool) (p : Principal)
    (scanned : List Note) (rows : List IndexRow) (request : TimelineRequest)
    (items : List TimelineItem)
    → timeline read readable p scanned rows request ≡ ok items
    → (has p "memory.read" ≡ true)
      × (superseded : List String) × (superseded_ids read readable p scanned ≡ ok superseded)
      × AllItems read readable p request superseded items
      × (length items ≤ page_limit request.limit)
unfolding timeline page_limit
timeline-AllItems read readable p scanned rows request items h =
    elim (Bool-cases (has p "memory.read")) [
      | inr no_scope ↦
          let h' : err forbidden ≡ ok items = rw (timeline, no_scope) at h in absurd (cc)
      | inl scope ↦ elim (Result-cases (superseded_ids read readable p scanned)) [
        | inl (e, bad) ↦ let h' : err e ≡ ok items = rw (timeline, scope, bad) at h in absurd (cc)
        | inr (superseded, good) ↦
            let (all, fits) =
              show_rows-AllItems read readable p request superseded _ (page_limit request.limit)
                items (omega arith) (rw (timeline, scope, good) at h) in
            (scope, superseded, good, all, fits)
      ]
    ]
