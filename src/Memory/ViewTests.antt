-- ===== src/Memory/ViewTests.antt =====
-- A timeline and a graph over three notes, one of which another agent may not see.
use a2a_superhub.Memory.Inbox.Fetch.{page_limit}
use a2a_superhub.Memory.Graph.Authorized.{AllEdges, IsAuthorized, graph-IsAuthorized}
use a2a_superhub.Memory.Timeline.Shown.{AllItems, timeline-AllItems}
use a2a_superhub.Memory.Graph.{Graph, graph}
use a2a_superhub.Prelude.{
  String, List, none, some, Result, Bool, ◌≡◌, false, ◌∷◌, true, ok, [], if◌then◌else◌, ◌⊎◌, refl,
  ◌==◌, err, length, ◌≤◌, ℕ,
}
use a2a_superhub.Memory.Notes.{Note, MemoryError, not_found}
use a2a_superhub.Auth.Bearer.{Principal, has}
use a2a_superhub.Memory.Timeline.{timeline, TimelineRequest, IndexRow, TimelineItem, superseded_ids}
use Prim.Native.String.{String, []}

program : Unit {0}
unfolding timeline graph
program = tt

abbrev alice : Principal
alice = record { subject = "alice"; kind = "agent"; token_id = "t1"; scopes = "memory.read" ∷ [] }

abbrev first_note : Note
first_note = record {
  id = "n1";
  kind = "note";
  title = "Plan";
  author = "bob";
  visibility = "shared";
  recorded_at = "t1";
  project = none;
  participants = [];
  about = [];
  supersedes = none;
  relations = [];
  body = "";
}

-- the successor of the first
abbrev second_note : Note
second_note = record first_note { id = "n2"; recorded_at = "t2"; supersedes = some "n1" }

-- only for bob, and it would supersede the second
abbrev private_note : Note
private_note = record first_note {
  id = "n3";
  visibility = "private";
  recorded_at = "t3";
  supersedes = some "n2";
}

abbrev read : String → Result MemoryError Note
read id =
    if id == "n1"
    then ok first_note
    else if id == "n2"
    then ok second_note
    else if id == "n3"
    then ok private_note
    else err not_found

abbrev none_readable : String → Bool
none_readable id = false

abbrev scanned : List Note
scanned = first_note ∷ second_note ∷ private_note ∷ []

abbrev rows : List IndexRow
rows =
    record { note_id = "n1"; recorded_at = "t1" }
    ∷ record { note_id = "n3"; recorded_at = "t3" }
    ∷ record { note_id = "n2"; recorded_at = "t2" }
    ∷ []

abbrev request : TimelineRequest
request = record { project = none; pair = none; about = none; include_superseded = true; limit = 5 }

abbrev shown : List TimelineItem
shown =
    record { note = second_note; is_superseded = false }
    ∷ record { note = first_note; is_superseded = true }
    ∷ []

-- the private note is not shown, and has no effect on the second
timeline-alice : timeline read none_readable alice scanned rows request ≡ ok shown
unfolding timeline
timeline-alice = refl

-- without superseded notes, and one item at most
timeline-current :
    (timeline read none_readable alice scanned rows (record request { include_superseded = false })
      ≡ ok (record { note = second_note; is_superseded = false } ∷ []))
    × (timeline read none_readable alice scanned rows (record request { limit = 0 })
        ≡ ok (record { note = second_note; is_superseded = false } ∷ []))
unfolding timeline
timeline-current = (refl, refl)

timeline-AllItems_example :
    (has alice "memory.read" ≡ true)
    × (superseded : List String) × (superseded_ids read none_readable alice scanned ≡ ok superseded)
    × AllItems read none_readable alice request superseded shown
    × (length shown ≤ page_limit 5)
timeline-AllItems_example =
    timeline-AllItems read none_readable alice scanned rows request shown timeline-alice

-- the edge of the second note to the first, and not those of the private note
abbrev shown_graph : Graph
shown_graph = record {
  nodes = "agent:bob" ∷ "note:n1" ∷ "note:n2" ∷ [];
  edges =
      record {
        note = first_note;
        edge = record { source = "note:n1"; kind = "authored_by"; target = "agent:bob" };
      }
      ∷ record {
        note = second_note;
        edge = record { source = "note:n2"; kind = "supersedes"; target = "note:n1" };
      }
      ∷ record {
        note = second_note;
        edge = record { source = "note:n2"; kind = "authored_by"; target = "agent:bob" };
      }
      ∷ [];
}

graph-alice : graph read none_readable alice ("n3" ∷ "n2" ∷ "n1" ∷ []) "note:n1" 2 ≡ ok shown_graph
unfolding graph
graph-alice = refl

abbrev two_hops : ℕ
two_hops = 2

graph-IsAuthorized_example :
    (has alice "memory.read" ≡ true)
    × ((two_hops ≡ 1) ⊎ (two_hops ≡ 2))
    × AllEdges (IsAuthorized read none_readable alice) shown_graph.edges
graph-IsAuthorized_example =
    graph-IsAuthorized read none_readable alice ("n3" ∷ "n2" ∷ "n1" ∷ []) "note:n1" two_hops
      shown_graph graph-alice
