-- ===== src/Memory/Graph.antt =====
-- `graph` and `_graph_edges_for_note`, over the reading of the notes' files and of artifacts for
-- `read_note`. A set is a list. `seen_edges` are the keys of the edges selected so far.
pub mod Authorized
use Prim.Native.String
use a2a_superhub.Memory.Inbox.Fetch.{is_skipped}
use a2a_superhub.Auth.Bearer.{Principal, has, after_prefix}
use a2a_superhub.Memory.Timeline.{contains_text}
use a2a_superhub.Text.{has_char}
use a2a_superhub.Memory.Notes.{
  Note, MemoryError, is_principal_id, Relation, read_note, forbidden, runtime_error,
  integrity_error, invalid_request, type_error, value_error,
}
use a2a_superhub.Prelude.{
  String, List, Result, Bool, ℕ, sort_by, Option, false, ok, err, ◌||◌, ◌==◌, if◌then◌else◌, ◌∷◌,
  not, true, ◌&&◌, any, [], ◌++◌, some, text_leb, zero, eqb, none, map_ok,
}
use Prim.Native.Nat.{ℕ, suc}
use Prim.Native.String.{String, ◌∷◌, []}

pub record Edge : Type 0 where
  pub source : String
  pub kind : String
  pub target : String

-- an edge with the note that it is of
pub record NoteEdge : Type 0 where
  pub note : Note
  pub edge : Edge

-- the answer, with the nodes in order
pub record Graph : Type 0 where
  pub nodes : List String
  pub edges : List NoteEdge

agent_edges : String → String → List String → List Edge
agent_edges source kind [] = []
agent_edges source kind (subject ∷ rest) =
    record { source = source; kind = kind; target = String.◌++◌ "agent:" subject }
    ∷ agent_edges source kind rest

-- `if note.get(…):` one edge
optional_edge : String → String → String → Option String → List Edge
optional_edge source kind prefix none = []
optional_edge source kind prefix (some text) =
    if text == ""
    then []
    else record { source = source; kind = kind; target = String.◌++◌ prefix text } ∷ []

-- a bare principal as a target is an agent
relation_target : String → String
unfolding has_char is_principal_id
relation_target target =
    if not (has_char b':' target) && is_principal_id target
    then String.◌++◌ "agent:" target
    else target

relation_edges : String → List Relation → List Edge
unfolding relation_target
relation_edges source [] = []
relation_edges source (r ∷ rs) =
    record { source = source; kind = r.kind; target = relation_target r.target }
    ∷ relation_edges source rs

unfoldable pub graph_edges_for_note : Note → List Edge
unfolding agent_edges optional_edge relation_edges
graph_edges_for_note note =
    let source : String = String.◌++◌ "note:" note.id in
    record { source = source; kind = "authored_by"; target = String.◌++◌ "agent:" note.author }
      ∷ optional_edge source "project" "project:" note.project
    ++ agent_edges source "participant" note.participants
    ++ agent_edges source "about" note.about
    ++ optional_edge source "supersedes" "note:" note.supersedes
    ++ relation_edges source note.relations

-- `except (KeyError, QuarantineError, MemoryError)`
unfoldable pub is_caught : MemoryError → Bool
is_caught runtime_error = false
is_caught integrity_error = false
is_caught type_error = false
is_caught value_error = false
is_caught _ = true

-- whether an edge is kept, by what reading the note of its target gives
unfoldable pub keeps_edge : Result MemoryError Note → Result MemoryError Bool
unfolding is_caught
keeps_edge (ok note) = ok true
keeps_edge (err e) = if is_caught e then ok false else err e

unfoldable pub add_edge :
    NoteEdge
    → Result MemoryError Bool
    → Result MemoryError (List NoteEdge)
    → Result MemoryError (List NoteEdge)
add_edge edge (err e) rest = err e
add_edge edge (ok kept) (err e) = err e
add_edge edge (ok kept) (ok rest) = ok (if kept then edge ∷ rest else rest)

unfoldable pub append_edges :
    Result MemoryError (List NoteEdge)
    → Result MemoryError (List NoteEdge)
    → Result MemoryError (List NoteEdge)
append_edges (err e) rest = err e
append_edges (ok edges) (err e) = err e
append_edges (ok edges) (ok rest) = ok (edges ++ rest)

-- `edge["source"] in frontier or edge["target"] in frontier`
unfoldable pub touches : List String → NoteEdge → Bool
unfolding contains_text
touches frontier e = contains_text e.edge.source frontier || contains_text e.edge.target frontier

pub same_edge : NoteEdge → NoteEdge → Bool
same_edge a b =
    a.note.id == b.note.id
    && a.edge.source == b.edge.source
    && a.edge.kind == b.edge.kind
    && a.edge.target == b.edge.target

-- the edges selected so far, and the next frontier
pub record Walk : Type 0 where
  pub selected : List NoteEdge
  pub next : List String

unfoldable pub visit : List String → NoteEdge → Walk → Walk
unfolding touches same_edge
visit frontier e walk =
    if touches frontier e
    then record {
      selected = if any (same_edge e) walk.selected then walk.selected else walk.selected ++ e ∷ [];
      next = walk.next ++ e.edge.source ∷ e.edge.target ∷ [];
    }
    else walk

unfoldable pub visit_all : List String → List NoteEdge → Walk → Walk
unfolding visit
visit_all frontier [] walk = walk
visit_all frontier (e ∷ es) walk = visit_all frontier es (visit frontier e walk)

-- the loop over the hops
unfoldable pub walk_hops : ℕ → List NoteEdge → List String → List NoteEdge → List NoteEdge
unfolding visit_all
walk_hops zero edges frontier selected = selected
walk_hops (suc hops) edges frontier selected =
    let walk = visit_all frontier edges (record { selected = selected; next = [] }) in
    walk_hops hops edges walk.next walk.selected

-- `{*xs, …}` of the ends of the edges
unfoldable pub ends : List String → List NoteEdge → List String
unfolding contains_text
ends done [] = done
ends done (e ∷ es) =
    let with_source : List String =
      if contains_text e.edge.source done then done else done ++ e.edge.source ∷ [] in
    ends
      (if contains_text e.edge.target with_source
        then with_source
        else with_source ++ e.edge.target ∷ [])
      es

unfoldable pub graph_of : String → ℕ → List NoteEdge → Graph
unfolding walk_hops ends sort_by
graph_of node hops edges =
    let selected = walk_hops hops edges (node ∷ []) [] in
    record { nodes = sort_by text_leb (ends [] selected); edges = selected }

module _ (read : String → Result MemoryError Note) (readable : String → Bool) (p : Principal) where
  -- the edges of a note whose target can be seen
  unfoldable pub safe_edges : Note → List Edge → Result MemoryError (List NoteEdge)
  unfolding read_note after_prefix keeps_edge add_edge
  safe_edges note [] = ok []
  safe_edges note (edge ∷ rest) =
      add_edge (record { note = note; edge = edge })
        (elim (after_prefix "note:" edge.target) [
          | none ↦ ok true
          | some id ↦ keeps_edge (read_note read readable id p)
        ])
        (safe_edges note rest)

  unfoldable pub edges_of_note : Result MemoryError Note → Result MemoryError (List NoteEdge)
  unfolding is_skipped safe_edges graph_edges_for_note
  edges_of_note (err e) = if is_skipped e then ok [] else err e
  edges_of_note (ok note) = safe_edges note (graph_edges_for_note note)

  -- `authorized`, over the identifiers in the index, with the edges of all notes in one list
  unfoldable pub authorized : List String → Result MemoryError (List NoteEdge)
  unfolding read_note edges_of_note append_edges
  authorized [] = ok []
  authorized (id ∷ ids) =
      append_edges (edges_of_note (read_note read readable id p)) (authorized ids)

  unfoldable pub graph : List String → String → ℕ → Result MemoryError Graph
  unfolding has authorized graph_of sort_by
  graph rows node hops =
      if not (has p "memory.read")
      then err forbidden
      else if not (eqb hops 1 || eqb hops 2)
      then err invalid_request
      else map_ok (graph_of node hops) (authorized (sort_by text_leb rows))
