-- ===== src/Auth/Bearer.antt =====
-- `Principal` and `BearerAuth.check`. A configured principal is an entry of the registry file,
-- as `BearerAuth.__init__` has validated it (Registry).
use a2a_superhub.Prelude.{
  String, Bool, false, not, ◌||◌, Option, none, some, List, [], ◌∷◌, ◌==◌, elem, if◌then◌else◌,
}
use Prim.Native.String

pub record Principal : Type 0 where
  pub subject : String
  pub kind : String
  pub token_id : String
  pub scopes : List String

-- `Principal.has`
unfoldable pub has : Principal → String → Bool
has p scope = elem scope p.scopes || elem "hub.admin" p.scopes

unfoldable pub all_legacy_scopes : List String
all_legacy_scopes =
    "task.read" ∷ "task.write" ∷ "artifact.read" ∷ "artifact.write" ∷ "artifact.share"
    ∷ "artifact.admin" ∷ "memory.read" ∷ "memory.write" ∷ "memory.share" ∷ "memory.admin"
    ∷ "hub.admin" ∷ []

-- the raw tokens and their principals, in the order of the registry
abbrev pub Registry : Type 0
Registry = List (String × Principal)

pub record BearerAuth : Type 0 where
  pub token : Option String
  pub principals : Registry

abbrev pub local_operator : String → Principal
unfolding all_legacy_scopes
local_operator token_id = record {
  subject = "local.operator";
  kind = "operator";
  token_id = token_id;
  scopes = all_legacy_scopes;
}

-- `text[len(prefix):]`, if the text starts with the prefix
unfoldable pub after_prefix : String → String → Option String
after_prefix String.[] s = some s
after_prefix (String.◌∷◌ c p) String.[] = none
after_prefix (String.◌∷◌ c p) (String.◌∷◌ d s) =
    let rest = after_prefix p s in if String.◌∷◌ c "" == String.◌∷◌ d "" then rest else none

-- the loop over the registry, which keeps the last candidate that compares equal
unfoldable pub configured : String → Option Principal → Registry → Option Principal
configured raw found [] = found
configured raw found ((candidate, config) ∷ rest) =
    configured raw (if raw == candidate then some config else found) rest

expecting : Option String → String → Option Principal
expecting none header = none
expecting (some token) header =
    if header == String.◌++◌ "Bearer " token then some (local_operator "tok_legacy") else none

-- the legacy token: `f"Bearer {self.token}"`
unfoldable pub legacy : BearerAuth → Option String → Option Principal
unfolding expecting
legacy auth none = none
legacy auth (some header) = expecting auth.token header

unfoldable pub is_set : Option String → Bool
is_set none = false
is_set (some token) = not (token == "")

-- the checks behind the registry
unfoldable pub unregistered : BearerAuth → Option String → Registry → Option Principal
unfolding legacy is_set
unregistered auth header [] =
    if is_set auth.token then legacy auth header else some (local_operator "tok_local")
unregistered auth header (_ ∷ _) = legacy auth header

listed : Registry → Option String → Option Principal
unfolding configured
listed reg none = none
listed reg (some raw) = configured raw none reg

unfoldable pub from_registry : BearerAuth → Option String → Option Principal
unfolding after_prefix listed
from_registry auth none = none
from_registry auth (some header) = listed auth.principals (after_prefix "Bearer " header)

or_else : Option Principal → Option Principal → Option Principal
or_else (some p) other = some p
or_else none other = other

-- `BearerAuth.check`: the principal, or none for "missing or invalid bearer token".
unfoldable pub check : BearerAuth → Option String → Option Principal
unfolding from_registry unregistered or_else
check auth header = or_else (from_registry auth header) (unregistered auth header auth.principals)
