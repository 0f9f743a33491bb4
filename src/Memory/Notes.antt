-- ===== src/Memory/Notes.antt =====
-- Notes, the errors of the memory plane, and who may read or write a note.
use a2a_superhub.Text.{count_chars}
use Prim.Native.String
use Prim.Native.Char.{Char, code}
use a2a_superhub.Prelude.{
  String, Bool, true, false, not, ◌&&◌, ◌||◌, Option, none, some, List, [], ◌∷◌, ◌==◌, eqb, leb,
  if◌then◌else◌, Result, ok, err,
}
use a2a_superhub.Auth.Bearer.{Principal, has, after_prefix}

-- `MemoryError` and its subclasses, by their codes; `KeyError` is `not_found`, the `RuntimeError` of
-- a failpoint `runtime_error`, `sqlite3.IntegrityError` `integrity_error`, and `TypeError` and plain
-- `ValueError` the last two
pub data MemoryError : Type 0 where
  invalid_request forbidden conflict quarantined request_too_large cursor_invalid
        cursor_refresh_required not_found runtime_error integrity_error type_error value_error :
      MemoryError

pub record Relation : Type 0 where
  pub kind : String
  pub target : String

-- a validated note; `type` is `kind` here
pub record Note : Type 0 where
  pub id : String
  pub kind : String
  pub title : String
  pub author : String
  pub visibility : String
  pub recorded_at : String
  pub project : Option String
  pub participants : List String
  pub about : List String
  pub supersedes : Option String
  pub relations : List Relation
  pub body : String

is_alnum : Char → Bool
is_alnum c = let n = code c in (leb b'a' n && leb n b'z') || (leb b'0' n && leb n b'9')

is_inner : Char → Bool
unfolding is_alnum
is_inner c = let n = code c in is_alnum c || eqb n b'.' || eqb n b'_' || eqb n b'-'

-- the characters after the first: all inner, the last alphanumeric
rest_matches : String → Bool
unfolding is_alnum is_inner
rest_matches String.[] = true
rest_matches (String.◌∷◌ c String.[]) = is_alnum c
rest_matches (String.◌∷◌ c (String.◌∷◌ d s)) = is_inner c && rest_matches (String.◌∷◌ d s)

-- `PRINCIPAL_ID.fullmatch`: `[a-z0-9](?:[a-z0-9._-]{0,126}[a-z0-9])?`
unfoldable pub is_principal_id : String → Bool
unfolding is_alnum rest_matches count_chars
is_principal_id String.[] = false
is_principal_id (String.◌∷◌ c s) = is_alnum c && rest_matches s && leb (count_chars s) 127

-- the identifiers behind `artifact:` of the relations `x-derived-from`
unfoldable pub derived_sources : List Relation → List String
unfolding after_prefix
derived_sources [] = []
derived_sources (r ∷ rs) =
    let rest = derived_sources rs in
    let id = after_prefix "artifact:" r.target in
    if r.kind == "x-derived-from"
    then elim id [ none ↦ rest | some source ↦ source ∷ rest ]
    else rest

unfoldable pub all_readable : (String → Bool) → List String → Bool
all_readable readable [] = true
all_readable readable (id ∷ ids) = readable id && all_readable readable ids

unfoldable pub may_see : Principal → Note → Bool
unfolding has
may_see p note =
    has p "memory.admin"
    || note.author == p.subject
    || note.visibility == "shared"
    || note.visibility == String.◌++◌ "direct:" p.subject

-- `_can_read`; `readable` says whether the artifact store has a manifest that the principal can
-- read, and is false where there is no store or it raises.
unfoldable pub can_read : (String → Bool) → Principal → Note → Bool
unfolding has may_see derived_sources all_readable
can_read readable p note =
    has p "memory.read" && may_see p note && all_readable readable (derived_sources note.relations)

-- `_authorize_create`
unfoldable pub authorize_create : Principal → String → Result MemoryError (Unit {0})
unfolding has
authorize_create p visibility =
    if not (has p "memory.write")
    then err forbidden
    else if not (visibility == "private") && not (has p "memory.share" || has p "memory.admin")
    then err forbidden
    else ok tt

-- `read_note`: what is not to be seen is not there. `read` is `_read_authoritative`.
unfoldable pub read_note :
    (String → Result MemoryError Note)
    → (String → Bool)
    → String
    → Principal
    → Result MemoryError Note
unfolding can_read
read_note read readable id p = elim (read id) [
  | ok note ↦ if can_read readable p note then ok note else err not_found
  | err e ↦ err e
]
