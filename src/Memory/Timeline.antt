-- ===== src/Memory/Timeline.antt =====
-- `timeline` and `_superseded_ids`, over the reading of the notes' files and of artifacts for
-- `read_note`. The rows are those of the index.
pub mod Shown
use a2a_superhub.Auth.Bearer.{after_prefix, Principal, has}
use a2a_superhub.Memory.Inbox.Fetch.{is_skipped, page_limit}
use a2a_superhub.Memory.Notes.{Note, MemoryError, read_note, forbidden}
use a2a_superhub.Prelude.{
  String, Option, Bool, List, ℕ, any, if◌then◌else◌, true, not, ◌∷◌, ◌==◌, err, some, ◌&&◌, ok,
  ◌++◌, false, text_leb, none, ◌-◌, leb, ◌||◌, sort_by, [], map_ok, Result,
}
use Prim.Native.String.{String, []}

-- a row of `notes` in the index
pub record IndexRow : Type 0 where
  pub note_id : String
  pub recorded_at : String

pub record TimelineItem : Type 0 where
  pub note : Note
  -- `temporalStatus` is "superseded"
  pub is_superseded : Bool

-- the arguments of `timeline`
pub record TimelineRequest : Type 0 where
  pub project : Option String
  pub pair : Option (String × String)
  pub about : Option String
  pub include_superseded : Bool
  pub limit : ℕ

-- `x in xs`
unfoldable pub contains_text : String → List String → Bool
contains_text x = any (λ y. y == x)

-- whether a visible successor ends the note before it; a note that cannot be read has no effect
unfoldable pub effect : Result MemoryError Note → Result MemoryError Note → Result MemoryError Bool
unfolding is_skipped
effect (err e) previous = if is_skipped e then ok false else err e
effect (ok successor) (err e) = if is_skipped e then ok false else err e
effect (ok successor) (ok previous) =
    ok (successor.author == previous.author || successor.author == "local.operator")

add_superseded :
    String
    → Result MemoryError Bool
    → Result MemoryError (List String)
    → Result MemoryError (List String)
add_superseded target (err e) rest = err e
add_superseded target (ok ended) (err e) = err e
add_superseded target (ok ended) (ok rest) = ok (if ended then target ∷ rest else rest)

-- `ORDER BY recorded_at DESC, note_id DESC`
newest_first : IndexRow → IndexRow → Bool
newest_first a b =
    if a.recorded_at == b.recorded_at
    then text_leb b.note_id a.note_id
    else text_leb b.recorded_at a.recorded_at

unfoldable pub actors : Note → List String
unfolding after_prefix
actors note =
    note.author ∷ note.participants
    ++ note.about
    ++ elim (after_prefix "direct:" note.visibility) [ none ↦ [] | some recipient ↦ recipient ∷ [] ]

matches_project : Option String → Note → Bool
matches_project none note = true
matches_project (some project) note = elim note.project [ none ↦ false | some own ↦ own == project ]

matches_about : Option String → Note → Bool
unfolding contains_text
matches_about none note = true
matches_about (some subject) note = contains_text subject note.about

matches_pair : Option (String × String) → Note → Bool
unfolding contains_text actors
matches_pair none note = true
matches_pair (some (a, b)) note = contains_text a (actors note) && contains_text b (actors note)

-- whether a note is shown, by the filters of the request
unfoldable pub is_shown : TimelineRequest → List String → Note → Bool
unfolding contains_text matches_project matches_about matches_pair
is_shown request superseded note =
    not (not request.include_superseded && contains_text note.id superseded)
    && matches_project request.project note
    && matches_about request.about note
    && matches_pair request.pair note

-- what the loop makes of a row: a note to show, or none
unfoldable pub to_show :
    TimelineRequest → List String → Result MemoryError Note → Result MemoryError (Option Note)
unfolding is_skipped is_shown
to_show request superseded (err e) = if is_skipped e then ok none else err e
to_show request superseded (ok note) =
    if is_shown request superseded note then ok (some note) else ok none

-- how many more items the list may have
unfoldable pub room_after : Result MemoryError (Option Note) → ℕ → ℕ
room_after (ok (some note)) room = room - 1
room_after _ room = room

-- an item is added; the loop breaks when there is no more room
unfoldable pub add_shown :
    List String
    → Result MemoryError (Option Note)
    → ℕ
    → Result MemoryError (List TimelineItem)
    → Result MemoryError (List TimelineItem)
unfolding contains_text
add_shown superseded (err e) room rest = err e
add_shown superseded (ok none) room rest = rest
add_shown superseded (ok (some note)) room rest =
    let item : TimelineItem = record {
      note = note;
      is_superseded = contains_text note.id superseded;
    } in
    if leb room 1 then ok (item ∷ []) else map_ok (λ items. item ∷ items) rest

module _ (read : String → Result MemoryError Note) (readable : String → Bool) (p : Principal) where
  -- `_superseded_ids`, over the notes that were scanned
  unfoldable pub superseded_ids : List Note → Result MemoryError (List String)
  unfolding read_note effect add_superseded
  superseded_ids [] = ok []
  superseded_ids (note ∷ notes) =
      let rest = superseded_ids notes in
      elim note.supersedes [
        | none ↦ rest
        | some target ↦
            if target == ""
            then rest
            else add_superseded target
                (effect (read_note read readable note.id p) (read_note read readable target p)) rest
      ]

  -- the loop over the rows
  unfoldable pub show_rows :
      TimelineRequest → List String → ℕ → List IndexRow → Result MemoryError (List TimelineItem)
  unfolding read_note to_show room_after add_shown
  show_rows request superseded room [] = ok []
  show_rows request superseded room (row ∷ rows) =
      let found = to_show request superseded (read_note read readable row.note_id p) in
      add_shown superseded found room (show_rows request superseded (room_after found room) rows)

  unfoldable pub timeline :
      List Note → List IndexRow → TimelineRequest → Result MemoryError (List TimelineItem)
  unfolding has superseded_ids show_rows sort_by newest_first page_limit
  timeline scanned rows request =
      if not (has p "memory.read") then err forbidden else elim (superseded_ids scanned) [
        | err e ↦ err e
        | ok superseded ↦
            show_rows request superseded (page_limit request.limit) (sort_by newest_first rows)
      ]
