-- ===== src/Memory/Graph/Authorized.antt =====
-- What a graph shows.
use a2a_superhub.Memory.Inbox.Fetch.{is_skipped}
use a2a_superhub.Auth.Bearer.{Principal, after_prefix, has}
use a2a_superhub.Memory.Notes.{MemoryError, Note, read_note, forbidden, invalid_request}
use a2a_superhub.Prelude.{
  String, List, Result, ◌∷◌, ◌++◌, ℕ, ◌≡◌, Bool-cases, [], ◌⊎◌, Bool, zero, inr, inl, any, none, ok,
  some, true, refl, Option-cases, ap, false, eqb, ◌||◌, Result-cases, sort_by, text_leb, arith,
}
use a2a_superhub.Memory.Graph.{
  Edge, NoteEdge, graph, List, visit, visit_all, walk_hops, Result, graph_of, Walk, ℕ, MemoryError,
  suc, Note, touches, Bool, Principal, read_note, keeps_edge, add_edge, safe_edges, edges_of_note,
  append_edges, authorized, Graph, any, none, ok, same_edge, some, graph_edges_for_note, true, err,
  is_caught, is_skipped, forbidden, false, eqb, invalid_request, sort_by, text_leb,
}
use Prim.Native.String.{String, ◌∷◌}

-- an edge is among those of a list
abbrev pub Among : Edge → List Edge → Type 0
Among e [] = ⊥
Among e (x ∷ xs) = (x ≡ e) ⊎ Among e xs

module _ (P : NoteEdge → Type 0) where
  abbrev pub AllEdges : List NoteEdge → Type 0
  AllEdges [] = Unit {0}
  AllEdges (e ∷ es) = P e × AllEdges es

  AllEdges-append : (xs ys : List NoteEdge) → AllEdges xs → AllEdges ys → AllEdges (xs ++ ys)
  AllEdges-append [] ys h k = k
  AllEdges-append (x ∷ xs) ys (h, hs) k = (h, AllEdges-append xs ys hs k)

  visit-AllEdges :
      (frontier : List String) (e : NoteEdge) (walk : Walk)
      → P e
      → AllEdges walk.selected
      → AllEdges (visit frontier e walk).selected
  unfolding visit
  visit-AllEdges frontier e walk h hs = elim (Bool-cases (touches frontier e)) [
    | inr k ↦ rw (visit, k) hs
    | inl k ↦ elim (Bool-cases (any (same_edge e) walk.selected)) [
      | inl seen ↦ rw (visit, k, seen) hs
      | inr new ↦ rw (visit, k, new) (AllEdges-append walk.selected (e ∷ []) hs (h, tt))
    ]
  ]

  visit_all-AllEdges :
      (frontier : List String) (edges : List NoteEdge) (walk : Walk)
      → AllEdges edges
      → AllEdges walk.selected
      → AllEdges (visit_all frontier edges walk).selected
  unfolding visit_all
  visit_all-AllEdges frontier [] walk h hs = hs
  visit_all-AllEdges frontier (e ∷ es) walk (h, k) hs =
      visit_all-AllEdges frontier es (visit frontier e walk) k (visit-AllEdges frontier e walk h hs)

  pub walk_hops-AllEdges :
      (hops : ℕ) (edges : List NoteEdge) (frontier : List String) (selected : List NoteEdge)
      → AllEdges edges
      → AllEdges selected
      → AllEdges (walk_hops hops edges frontier selected)
  unfolding walk_hops
  walk_hops-AllEdges zero edges frontier selected h hs = hs
  walk_hops-AllEdges (suc hops) edges frontier selected h hs =
      let start : Walk = record { selected = selected; next = [] } in
      let walk = visit_all frontier edges start in
      walk_hops-AllEdges hops edges walk.next walk.selected h
        (visit_all-AllEdges frontier edges start h hs)

module _ (read : String → Result MemoryError Note) (readable : String → Bool) (p : Principal) where
  -- the target is no note, or a note that `read_note` gives
  abbrev pub IsSeen : Edge → Type 0
  IsSeen e =
      (after_prefix "note:" e.target ≡ none)
      ⊎ ((id : String) × (note : Note) × (after_prefix "note:" e.target ≡ some id)
          × (read_note read readable id p ≡ ok note))

  -- an edge of a note that `read_note` gives, to a target that can be seen
  abbrev pub IsAuthorized : NoteEdge → Type 0
  IsAuthorized e =
      ((id : String) × (read_note read readable id p ≡ ok e.note))
      × Among e.edge (graph_edges_for_note e.note)
      × IsSeen e.edge

  keeps_edge-true :
      (result : Result MemoryError Note)
      → keeps_edge result ≡ ok true
      → (note : Note) × (result ≡ ok note)
  unfolding keeps_edge
  keeps_edge-true (ok note) h = (note, refl)
  keeps_edge-true (err e) h = absurd (elim (Bool-cases (is_caught e)) [
    | inl k ↦ let h' : ok false ≡ ok true = rw k at h in cc
    | inr k ↦ let h' : err e ≡ ok true = rw k at h in cc
  ])

  target-IsSeen :
      (edge : Edge)
      → elim (after_prefix "note:" edge.target) [
        | none ↦ ok true
        | some id ↦ keeps_edge (read_note read readable id p)
      ]
        ≡ ok true
      → IsSeen edge
  target-IsSeen edge h = elim (Option-cases (after_prefix "note:" edge.target)) [
    | inl e ↦ inl e
    | inr (id, e) ↦
        let (note, found) = keeps_edge-true (read_note read readable id p) (rw e at h) in
        inr (id, note, e, found)
  ]

  -- the edges of `out` are of the note, among `edges`, and seen
  abbrev IsKept : Note → List Edge → NoteEdge → Type 0
  IsKept note edges x = (x.note ≡ note) × Among x.edge edges × IsSeen x.edge

  IsKept-weaken :
      (note : Note) (e : Edge) (edges : List Edge) (out : List NoteEdge)
      → AllEdges (IsKept note edges) out
      → AllEdges (IsKept note (e ∷ edges)) out
  IsKept-weaken note e edges [] h = tt
  IsKept-weaken note e edges (x ∷ xs) ((n, a, s), hs) =
      ((n, inr a, s), IsKept-weaken note e edges xs hs)

  add_edge-IsKept :
      (note : Note) (edge : Edge) (edges : List Edge) (kept : Result MemoryError Bool)
      (rest : Result MemoryError (List NoteEdge)) (out : List NoteEdge)
      → (kept ≡ ok true → IsSeen edge)
      → ((later : List NoteEdge) → rest ≡ ok later → AllEdges (IsKept note edges) later)
      → add_edge (record { note = note; edge = edge }) kept rest ≡ ok out
      → AllEdges (IsKept note (edge ∷ edges)) out
  unfolding add_edge
  add_edge-IsKept note edge edges (err e) rest out seen next h = cc
  add_edge-IsKept note edge edges (ok kept) (err e) out seen next h = cc
  add_edge-IsKept note edge edges (ok false) (ok later) out seen next h =
      let same : later ≡ out = cc in IsKept-weaken note edge edges out (next out (ap ok same))
  add_edge-IsKept note edge edges (ok true) (ok later) out seen next h =
      let same : record { note = note; edge = edge } ∷ later ≡ out = cc in
      rw (← same)
        ((refl, inl refl, seen refl), IsKept-weaken note edge edges later (next later refl))

  safe_edges-IsKept :
      (note : Note) (edges : List Edge) (out : List NoteEdge)
      → safe_edges read readable p note edges ≡ ok out
      → AllEdges (IsKept note edges) out
  unfolding safe_edges
  safe_edges-IsKept note [] out h = let same : [] ≡ out = cc in rw (← same) tt
  safe_edges-IsKept note (edge ∷ rest) out h =
      add_edge-IsKept note edge rest _ (safe_edges read readable p note rest) out
        (target-IsSeen edge) (safe_edges-IsKept note rest) h

  kept-IsAuthorized :
      (id : String) (note : Note) (out : List NoteEdge)
      → read_note read readable id p ≡ ok note
      → AllEdges (IsKept note (graph_edges_for_note note)) out
      → AllEdges IsAuthorized out
  kept-IsAuthorized id note [] found h = tt
  kept-IsAuthorized id note (x ∷ xs) found ((n, among, seen), hs) =
      (((id, rw n found), rw n among, seen), kept-IsAuthorized id note xs found hs)

  edges_of_note-IsAuthorized :
      (id : String) (result : Result MemoryError Note) (out : List NoteEdge)
      → read_note read readable id p ≡ result
      → edges_of_note read readable p result ≡ ok out
      → AllEdges IsAuthorized out
  unfolding edges_of_note
  edges_of_note-IsAuthorized id (err e) out is_result h = elim (Bool-cases (is_skipped e)) [
    | inl k ↦ let h' : ok [] ≡ ok out = rw k at h in let same : [] ≡ out = cc in rw (← same) tt
    | inr k ↦ let h' : err e ≡ ok out = rw k at h in absurd (cc)
  ]
  edges_of_note-IsAuthorized id (ok note) out is_result h =
      kept-IsAuthorized id note out is_result
        (safe_edges-IsKept note (graph_edges_for_note note) out h)

  append_edges-IsAuthorized :
      (first rest : Result MemoryError (List NoteEdge)) (out : List NoteEdge)
      → ((xs : List NoteEdge) → first ≡ ok xs → AllEdges IsAuthorized xs)
      → ((ys : List NoteEdge) → rest ≡ ok ys → AllEdges IsAuthorized ys)
      → append_edges first rest ≡ ok out
      → AllEdges IsAuthorized out
  unfolding append_edges
  append_edges-IsAuthorized (err e) rest out f r h = cc
  append_edges-IsAuthorized (ok xs) (err e) out f r h = cc
  append_edges-IsAuthorized (ok xs) (ok ys) out f r h =
      let same : xs ++ ys ≡ out = cc in
      rw (← same) (AllEdges-append IsAuthorized xs ys (f xs refl) (r ys refl))

  authorized-IsAuthorized :
      (ids : List String) (out : List NoteEdge)
      → authorized read readable p ids ≡ ok out
      → AllEdges IsAuthorized out
  unfolding authorized
  authorized-IsAuthorized [] out h = let same : [] ≡ out = cc in rw (← same) tt
  authorized-IsAuthorized (id ∷ ids) out h =
      append_edges-IsAuthorized _ _ out
        (λ xs. edges_of_note-IsAuthorized id (read_note read readable id p) xs refl)
        (authorized-IsAuthorized ids) h

-- A graph is given only to a principal with the scope memory.read, for one or two hops. Each of its
-- edges is an edge of a note that `read_note` gives to the principal, and its target is no note or
-- a note that `read_note` gives to them.
pub graph-IsAuthorized :
    (read : String → Result MemoryError Note) (readable : String → Bool) (p : Principal)
    (rows : List String) (node : String) (hops : ℕ) (g : Graph)
    → graph read readable p rows node hops ≡ ok g
    → (has p "memory.read" ≡ true)
      × ((hops ≡ 1) ⊎ (hops ≡ 2))
      × AllEdges (IsAuthorized read readable p) g.edges
unfolding graph graph_of
graph-IsAuthorized read readable p rows node hops g h = elim (Bool-cases (has p "memory.read")) [
  | inr no_scope ↦ let h' : err forbidden ≡ ok g = rw (graph, no_scope) at h in absurd (cc)
  | inl scope ↦ elim (Bool-cases (eqb hops 1 || eqb hops 2)) [
    | inr far ↦ let h' : err invalid_request ≡ ok g = rw (graph, scope, far) at h in absurd (cc)
    | inl near ↦ elim (Result-cases (authorized read readable p (sort_by text_leb rows))) [
      | inl (e, bad) ↦ let h' : err e ≡ ok g = rw (graph, scope, near, bad) at h in absurd (cc)
      | inr (edges, good) ↦
          let h' : ok (graph_of node hops edges) ≡ ok g = rw (graph, scope, near, good) at h in
          let same : graph_of node hops edges ≡ g = cc in
          let all = authorized-IsAuthorized read readable p (sort_by text_leb rows) edges good in
          (
            scope,
            ground (arith, near),
            rw (← same) (
                walk_hops-AllEdges (IsAuthorized read readable p) hops edges (node ∷ []) [] all tt),
          )
    ]
  ]
]
