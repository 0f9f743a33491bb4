-- ===== src/Parts.antt =====
-- src/a2a_superhub/parts.py: the parts of a message, read from JSON and written back. Every failure
-- is a `ValueError`, the one that `urlparse` can raise included.
pub mod RoundTrip
mod Tests
use a2a_superhub.Models.{Exn, value_error}
use a2a_superhub.Json.{
  Value, contains, get, Fields, str, Items, entry, no_entries, obj, arr, item, no_items,
}
use a2a_superhub.Prelude.{
  [], ◌∷◌, String, Option, List, Result, Bool, false, some, elem, if◌then◌else◌, err, ok, none, not,
  ◌==◌, select, ◌||◌,
}

-- base64 and `urlparse` of the standard library, over its type of bytes

pub record PartCodec (B : Type 0) : Type 0 where
  pub b64decode : String → Option B
  pub b64encode : B → String
  -- `urlparse(url).scheme`, if it does not raise
  pub scheme : String → Option String

pub data Mapping : Type 0 where
  a2a_1_0 legacy_kind : Mapping

-- the entry of a normalised part under its type
pub data Content (B : Type 0) : Type 0 where
  text : String → Content B
  raw : B → Content B
  url : String → Content B
  data_object : Fields → Content B

pub record Part (B : Type 0) : Type 0 where
  pub mapping : Mapping
  pub content : Content B
  pub filename : Option String
  pub media_type : Option String

abbrev pub part_keys : List String
part_keys = "text" ∷ "raw" ∷ "url" ∷ "data" ∷ []

-- a legacy kind that is one of the keys
unfoldable pub is_part_key : Value → Bool
is_part_key (str key) = elem key part_keys
is_part_key _ = false

-- the mapping of a part. The key `kind` that the source removes is not read again.
unfoldable pub read_mapping : Bool → Fields → Result Exn Mapping
unfolding contains get is_part_key
read_mapping allow_legacy fields =
    if contains fields "kind"
    then if not allow_legacy || not (is_part_key (get fields "kind"))
      then err value_error
      else ok legacy_kind
    else ok a2a_1_0

unfoldable pub decoded : {B : Type 0} → Option B → Result Exn (Content B)
decoded none = err value_error
decoded (some bytes) = ok (raw bytes)

unfoldable pub is_url_scheme : Option String → Bool
is_url_scheme none = false
is_url_scheme (some scheme) = elem scheme ("http" ∷ "https" ∷ "hub-cas" ∷ [])

unfoldable pub text_content : {B : Type 0} → Value → Result Exn (Content B)
text_content (str value) = ok (text value)
text_content _ = err value_error

unfoldable pub raw_content : {B : Type 0} → PartCodec B → Value → Result Exn (Content B)
unfolding decoded
raw_content codec (str value) = decoded (codec.b64decode value)
raw_content codec _ = err value_error

unfoldable pub url_content : {B : Type 0} → PartCodec B → Value → Result Exn (Content B)
unfolding is_url_scheme
url_content codec (str value) =
    if is_url_scheme (codec.scheme value) then ok (url value) else err value_error
url_content codec _ = err value_error

unfoldable pub data_content : {B : Type 0} → Value → Result Exn (Content B)
data_content (obj fields) = ok (data_object fields)
data_content _ = err value_error

-- the value under a key of `part_keys`
unfoldable pub content_of : {B : Type 0} → PartCodec B → String → Value → Result Exn (Content B)
unfolding text_content raw_content url_content data_content
content_of codec key value =
    if key == "text"
    then text_content value
    else if key == "raw"
    then raw_content codec value
    else if key == "url"
    then url_content codec value
    else data_content value

-- the value under the one key that is present
unfoldable pub read_content :
    {B : Type 0} → PartCodec B → List String → Fields → Result Exn (Content B)
unfolding content_of get
read_content codec (key ∷ []) fields = content_of codec key (get fields key)
read_content codec _ fields = err value_error

-- a metadata value
unfoldable pub filled : Value → Result Exn (Option String)
filled (str value) = if value == "" then err value_error else ok (some value)
filled _ = err value_error

unfoldable pub metadata : String → Fields → Result Exn (Option String)
unfolding contains get filled
metadata key fields = if contains fields key then filled (get fields key) else ok none

unfoldable pub make_part :
    {B : Type 0}
    → Result Exn Mapping
    → Result Exn (Content B)
    → Result Exn (Option String)
    → Result Exn (Option String)
    → Result Exn (Part B)
make_part (ok mapping) (ok content) (ok filename) (ok media_type) =
    ok (record {
      mapping = mapping;
      content = content;
      filename = filename;
      media_type = media_type;
    })
make_part _ _ _ _ = err value_error

-- one turn of the loop of `normalize_a2a_parts`
unfoldable pub normalize_part : {B : Type 0} → PartCodec B → Bool → Value → Result Exn (Part B)
unfolding read_mapping read_content metadata make_part contains
normalize_part codec allow_legacy (obj fields) =
    make_part (read_mapping allow_legacy fields)
      (read_content codec (select (contains fields) part_keys) fields) (metadata "filename" fields)
      (metadata "mediaType" fields)
normalize_part codec allow_legacy _ = err value_error

unfoldable pub add_part :
    {B : Type 0} → Result Exn (Part B) → Result Exn (List (Part B)) → Result Exn (List (Part B))
add_part (ok part) (ok parts) = ok (part ∷ parts)
add_part _ _ = err value_error

unfoldable pub normalize_items :
    {B : Type 0} → PartCodec B → Bool → Items → Result Exn (List (Part B))
unfolding normalize_part add_part
normalize_items codec allow_legacy no_items = ok []
normalize_items codec allow_legacy (item v vs) =
    add_part (normalize_part codec allow_legacy v) (normalize_items codec allow_legacy vs)

-- `normalize_a2a_parts`
unfoldable pub normalize_a2a_parts :
    {B : Type 0} → PartCodec B → Bool → Value → Result Exn (List (Part B))
unfolding normalize_items
normalize_a2a_parts codec allow_legacy (arr (item v vs)) =
    normalize_items codec allow_legacy (item v vs)
normalize_a2a_parts codec allow_legacy _ = err value_error

unfoldable pub optional_entry : String → Option String → Fields → Fields
optional_entry key none rest = rest
optional_entry key (some value) rest = entry key (str value) rest

unfoldable pub content_entry : {B : Type 0} → PartCodec B → Content B → Fields → Fields
content_entry codec (text value) rest = entry "text" (str value) rest
content_entry codec (raw bytes) rest = entry "raw" (str (codec.b64encode bytes)) rest
content_entry codec (url value) rest = entry "url" (str value) rest
content_entry codec (data_object fields) rest = entry "data" (obj fields) rest

-- `public_part`
unfoldable pub public_part : {B : Type 0} → PartCodec B → Part B → Fields
unfolding optional_entry content_entry
public_part codec part = content_entry codec part.content (
    optional_entry "filename" part.filename (optional_entry "mediaType" part.media_type no_entries))
