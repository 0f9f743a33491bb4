-- ===== src/Auth/Registry.antt =====
-- The validation of the registry in `BearerAuth.__init__`, of the entries of the JSON file, and the
-- principals that `check` makes of them.
use a2a_superhub.Memory.Notes.{is_principal_id}
use a2a_superhub.Auth.Bearer.{after_prefix, all_legacy_scopes, Principal, Registry}
use a2a_superhub.Text.{all_chars, count_chars}
use a2a_superhub.Json.{contains, Value, Items, get, Fields, str, arr, item, obj, no_items}
use a2a_superhub.Prelude.{
  List, Option, String, Bool, Result, ◌∷◌, if◌then◌else◌, false, err, ok, true, [], leb, ◌&&◌, elem,
  some, and_then, ◌||◌, none, ◌==◌, map_ok, eqb, not,
}
use Prim.Native.String.{String, []}
use Prim.Native.Char.{Char, code}

-- `ValueError`, and the `TypeError` of a value that cannot be in a set
pub data RegistryError : Type 0 where
  invalid_registry unhashable : RegistryError

-- `ALLOWED_PRINCIPAL_KINDS`
abbrev pub allowed_kinds : List String
allowed_kinds = "agent" ∷ "human" ∷ "service" ∷ "operator" ∷ []

-- `configured.get(key, default)`
unfoldable pub get_or : Fields → String → Value → Value
unfolding contains get
get_or fields key default = if contains fields key then get fields key else default

is_token_char : Char → Bool
is_token_char c =
    let n = code c in
    (leb b'a' n && leb n b'z') || (leb b'0' n && leb n b'9') || eqb n b'_' || eqb n b'-'

is_token_start : Char → Bool
is_token_start c = let n = code c in (leb b'a' n && leb n b'z') || (leb b'0' n && leb n b'9')

-- the characters behind `tok_`: the first alphanumeric, and 2 to 63 more
token_rest : String → Bool
unfolding is_token_char is_token_start all_chars count_chars
token_rest String.[] = false
token_rest (String.◌∷◌ c s) =
    is_token_start c && all_chars is_token_char s && leb 2 (count_chars s) && leb (count_chars s) 63

-- `TOKEN_ID_PATTERN.fullmatch`
unfoldable pub is_token_id : String → Bool
unfolding after_prefix token_rest
is_token_id text = elim (after_prefix "tok_" text) [ none ↦ false | some rest ↦ token_rest rest ]

unfoldable pub read_subject : Value → Result RegistryError String
unfolding is_principal_id
read_subject (str text) = if is_principal_id text then ok text else err invalid_registry
read_subject _ = err invalid_registry

unfoldable pub read_kind : Value → Result RegistryError String
read_kind (str text) = if elem text allowed_kinds then ok text else err invalid_registry
read_kind (arr items) = err unhashable
read_kind (obj fields) = err unhashable
read_kind _ = err invalid_registry

unfoldable pub read_token_id : Value → Result RegistryError String
unfolding is_token_id
read_token_id (str text) = if is_token_id text then ok text else err invalid_registry
read_token_id _ = err invalid_registry

-- an element is added; with one that is no text the list is not that of scopes
add_scope :
    Option String
    → Result RegistryError (Option (List String))
    → Result RegistryError (Option (List String))
add_scope text (err e) = err e
add_scope (some text) (ok (some texts)) = ok (some (text ∷ texts))
add_scope _ (ok _) = ok none

-- the elements of `set(scopes)`
unfoldable pub scope_texts : Items → Result RegistryError (Option (List String))
unfolding add_scope
scope_texts no_items = ok (some [])
scope_texts (item (arr items) rest) = err unhashable
scope_texts (item (obj fields) rest) = err unhashable
scope_texts (item (str text) rest) = add_scope (some text) (scope_texts rest)
scope_texts (item _ rest) = add_scope none (scope_texts rest)

unfoldable pub has_doubles : List String → Bool
has_doubles [] = false
has_doubles (x ∷ xs) = elem x xs || has_doubles xs

-- `set(xs) <= ys`
unfoldable pub is_subset : List String → List String → Bool
is_subset [] ys = true
is_subset (x ∷ xs) ys = elem x ys && is_subset xs ys

unfoldable pub allowed_scopes : Option (List String) → Result RegistryError (List String)
unfolding has_doubles is_subset all_legacy_scopes
allowed_scopes none = err invalid_registry
allowed_scopes (some scopes) =
    if has_doubles scopes || not (is_subset scopes all_legacy_scopes)
    then err invalid_registry
    else ok scopes

unfoldable pub read_scopes : Value → Result RegistryError (List String)
unfolding scope_texts allowed_scopes
read_scopes (arr no_items) = err invalid_registry
read_scopes (arr (item v rest)) = and_then (scope_texts (item v rest)) allowed_scopes
read_scopes _ = err invalid_registry

-- an entry, and the principal that `check` makes of it
unfoldable pub read_principal : Fields → Result RegistryError Principal
unfolding get get_or read_subject read_kind read_token_id read_scopes
read_principal fields = and_then (read_subject (get fields "subject")) (λ subject.
    and_then (read_kind (get_or fields "kind" (str "agent"))) (λ kind.
      and_then (read_token_id (get_or fields "tokenId" (str "tok_static"))) (λ token_id.
        and_then (read_scopes (get fields "scopes")) (λ scopes.
          ok (record { subject = subject; kind = kind; token_id = token_id; scopes = scopes })))))

unfoldable pub read_entry : String → Value → Result RegistryError Principal
unfolding read_principal
read_entry token (obj fields) = if token == "" then err invalid_registry else read_principal fields
read_entry token _ = err invalid_registry

-- the loop over the registry
unfoldable pub load_registry : List (String × Value) → Result RegistryError Registry
unfolding read_entry
load_registry [] = ok []
load_registry ((token, v) ∷ rest) =
    and_then (read_entry token v) (λ p. map_ok (λ ps. (token, p) ∷ ps) (load_registry rest))
