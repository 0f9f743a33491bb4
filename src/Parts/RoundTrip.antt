-- ===== src/Parts/RoundTrip.antt =====
-- What `normalize_a2a_parts` accepts, and that `public_part` writes it back.
use a2a_superhub.Models.{value_error, Exn}
use a2a_superhub.Json.{
  Value, Fields, str, contains, get, bool, int, real, arr, obj, null, no_entries, entry,
}
use a2a_superhub.Parts.{
  PartCodec, filled, metadata, url_content, normalize_part, String, Content, Part, Value, text,
  read_mapping, false, raw, ok, read_content, url, data_object, make_part, is_url_scheme, err,
  value_error, content_of, optional_entry, Bool, a2a_1_0, select, part_keys, public_part,
  content_entry, text_content, raw_content, data_content, decoded, List, Result, Mapping,
}
use a2a_superhub.Prelude.{
  refl, [], ◌∷◌, none, some, true, Option, String, ◌≡◌, ◌==◌, false, ok, Bool-cases, inl, inr, err,
  Bool, select, eq_iff, List, Result,
}

-- metadata that is there is not empty
abbrev IsFilled : Option String → Type 0
IsFilled none = Unit {0}
IsFilled (some value) = (value == "") ≡ false

abbrev IsContent : {B : Type 0} → PartCodec B → Content B → Type 0
IsContent codec (text value) = Unit {0}
IsContent codec (raw bytes) = Unit {0}
IsContent codec (url value) = is_url_scheme (codec.scheme value) ≡ true
IsContent codec (data_object fields) = Unit {0}

-- a part that the hub keeps: its URL has one of the three schemes, its metadata is not empty
pub record IsValid {B : Type 0} (codec : PartCodec B) (part : Part B) : Type 0 where
  pub content : IsContent codec part.content
  pub filename : IsFilled part.filename
  pub media_type : IsFilled part.media_type

filled-IsFilled : (v : Value) (o : Option String) → filled v ≡ ok o → IsFilled o
unfolding filled
filled-IsFilled (str value) none h = tt
filled-IsFilled (str value) (some x) h = elim (Bool-cases (value == "")) [
  | inl e ↦ let h' : err value_error ≡ ok (some x) = rw e at h in cc
  | inr e ↦ let h' : ok (some value) ≡ ok (some x) = rw e at h in cc
]
filled-IsFilled null o h = cc
filled-IsFilled (bool x) o h = cc
filled-IsFilled (int x n) o h = cc
filled-IsFilled (real x) o h = cc
filled-IsFilled (arr x) o h = cc
filled-IsFilled (obj x) o h = cc

metadata-IsFilled :
    (key : String) (fields : Fields) (o : Option String) → metadata key fields ≡ ok o → IsFilled o
unfolding metadata
metadata-IsFilled key fields none h = tt
metadata-IsFilled key fields (some x) h = elim (Bool-cases (contains fields key)) [
  | inl e ↦ filled-IsFilled (get fields key) (some x) (rw e at h)
  | inr e ↦ let h' : ok none ≡ ok (some x) = rw e at h in cc
]

url_content-IsContent :
    {B : Type 0} (codec : PartCodec B) (v : Value) (c : Content B)
    → url_content codec v ≡ ok c
    → IsContent codec c
unfolding url_content
url_content-IsContent codec v (text x) h = tt
url_content-IsContent codec v (raw x) h = tt
url_content-IsContent codec v (data_object x) h = tt
url_content-IsContent codec (str u) (url x) h = elim (Bool-cases (is_url_scheme (codec.scheme u))) [
  | inl e ↦ let h' : ok (url u) ≡ ok (url x) = rw e at h in cc
  | inr e ↦ let h' : err value_error ≡ ok (url x) = rw e at h in cc
]
url_content-IsContent codec null (url x) h = cc
url_content-IsContent codec (bool _) (url x) h = cc
url_content-IsContent codec (int _ _) (url x) h = cc
url_content-IsContent codec (real _) (url x) h = cc
url_content-IsContent codec (arr _) (url x) h = cc
url_content-IsContent codec (obj _) (url x) h = cc

-- the other contents give no URL
no_url_text : {B : Type 0} (v : Value) (x : String) → text_content {B = B} v ≡ ok (url x) → ⊥
unfolding text_content
no_url_text null x h = cc
no_url_text (bool _) x h = cc
no_url_text (int _ _) x h = cc
no_url_text (real _) x h = cc
no_url_text (str _) x h = cc
no_url_text (arr _) x h = cc
no_url_text (obj _) x h = cc

no_decoded_url : {B : Type 0} (o : Option B) (x : String) → decoded o ≡ ok (url x) → ⊥
unfolding decoded
no_decoded_url none x h = cc
no_decoded_url (some b) x h = cc

no_url_raw :
    {B : Type 0} (codec : PartCodec B) (v : Value) (x : String)
    → raw_content codec v ≡ ok (url x)
    → ⊥
unfolding raw_content
no_url_raw codec null x h = cc
no_url_raw codec (bool _) x h = cc
no_url_raw codec (int _ _) x h = cc
no_url_raw codec (real _) x h = cc
no_url_raw codec (str s) x h = no_decoded_url (codec.b64decode s) x h
no_url_raw codec (arr _) x h = cc
no_url_raw codec (obj _) x h = cc

no_url_data : {B : Type 0} (v : Value) (x : String) → data_content {B = B} v ≡ ok (url x) → ⊥
unfolding data_content
no_url_data null x h = cc
no_url_data (bool _) x h = cc
no_url_data (int _ _) x h = cc
no_url_data (real _) x h = cc
no_url_data (str _) x h = cc
no_url_data (arr _) x h = cc
no_url_data (obj _) x h = cc

-- only under the key `url` is there a URL
content_of-IsContent :
    {B : Type 0} (codec : PartCodec B) (key : String) (v : Value) (c : Content B)
    → content_of codec key v ≡ ok c
    → IsContent codec c
unfolding content_of text_content raw_content data_content decoded
content_of-IsContent codec key v (text x) h = tt
content_of-IsContent codec key v (raw x) h = tt
content_of-IsContent codec key v (data_object x) h = tt
content_of-IsContent codec key v (url x) h = elim (Bool-cases (key == "text")) [
  | inl e ↦ elim (no_url_text v x (rw e at h)) [ ]
  | inr e ↦ elim (Bool-cases (key == "raw")) [
    | inl e' ↦ elim (no_url_raw codec v x (rw (e, e') at h)) [ ]
    | inr e' ↦ elim (Bool-cases (key == "url")) [
      | inl e'' ↦ url_content-IsContent codec v (url x) (rw (e, e', e'') at h)
      | inr e'' ↦ elim (no_url_data v x (rw (e, e', e'') at h)) [ ]
    ]
  ]
]

-- the metadata as `public_part` writes it
metadata_fields : Option String → Option String → Fields
unfolding optional_entry
metadata_fields filename media_type =
    optional_entry "filename" filename (optional_entry "mediaType" media_type no_entries)

-- no key of a part's content, nor `kind`, is among the metadata
abbrev IsOnlyMetadata : Fields → Type 0
IsOnlyMetadata fields =
    (contains fields "kind" ≡ false)
    × (contains fields "text" ≡ false)
    × (contains fields "raw" ≡ false)
    × (contains fields "url" ≡ false)
    × (contains fields "data" ≡ false)

metadata_fields-IsOnlyMetadata : (f m : Option String) → IsOnlyMetadata (metadata_fields f m)
unfolding contains metadata_fields
metadata_fields-IsOnlyMetadata none none = (refl, refl, refl, refl, refl)
metadata_fields-IsOnlyMetadata none (some m) = (refl, refl, refl, refl, refl)
metadata_fields-IsOnlyMetadata (some f) none = (refl, refl, refl, refl, refl)
metadata_fields-IsOnlyMetadata (some f) (some m) = (refl, refl, refl, refl, refl)

metadata-metadata_fields :
    (f m : Option String)
    → IsFilled f
    → IsFilled m
    → (metadata "filename" (metadata_fields f m) ≡ ok f)
      × (metadata "mediaType" (metadata_fields f m) ≡ ok m)
unfolding contains get metadata filled metadata_fields
metadata-metadata_fields none none p q = (refl, refl)
metadata-metadata_fields none (some m) p q = (refl, rw q refl)
metadata-metadata_fields (some f) none p q = (rw p refl, refl)
metadata-metadata_fields (some f) (some m) p q = (rw p refl, rw q refl)

-- Reading a part that was written under one key.
normalize_entry :
    {B : Type 0} (codec : PartCodec B) (allow : Bool) (key : String) (v : Value) (c : Content B)
    (f m : Option String)
    → IsFilled f
    → IsFilled m
    → content_of codec key v ≡ ok c
    → (key == "kind") ≡ false
    → (key == "filename") ≡ false
    → (key == "mediaType") ≡ false
    → select (contains (entry key v (metadata_fields f m))) part_keys ≡ key ∷ []
    → normalize_part codec allow (obj (entry key v (metadata_fields f m)))
      ≡ ok (record { mapping = a2a_1_0; content = c; filename = f; media_type = m })
unfolding normalize_part read_mapping read_content metadata make_part contains get
normalize_entry codec allow key v c f m p q read kind name media one =
    let no_kind = (metadata_fields-IsOnlyMetadata f m).0 in
    let (names, medias) = metadata-metadata_fields f m p q in
    rw (one, kind, no_kind, name, media, (eq_iff key key).1 refl, read, names, medias) refl

-- reading the content of a part and its metadata, under each key
normalize-content_entry :
    {B : Type 0} (codec : PartCodec B) (allow : Bool) (c : Content B) (f m : Option String)
    → ((bytes : B) → codec.b64decode (codec.b64encode bytes) ≡ some bytes)
    → IsContent codec c
    → IsFilled f
    → IsFilled m
    → normalize_part codec allow (obj (content_entry codec c (metadata_fields f m)))
      ≡ ok (record { mapping = a2a_1_0; content = c; filename = f; media_type = m })
unfolding content_entry contains content_of text_content raw_content url_content data_content
    decoded
normalize-content_entry codec allow (text x) f m decodes valid p q =
    let (k, t, r, u, d) = metadata_fields-IsOnlyMetadata f m in
    normalize_entry codec allow "text" (str x) (text x) f m p q refl refl refl refl
      (rw (r, u, d) refl)
normalize-content_entry codec allow (raw x) f m decodes valid p q =
    let (k, t, r, u, d) = metadata_fields-IsOnlyMetadata f m in
    normalize_entry codec allow "raw" (str (codec.b64encode x)) (raw x) f m p q
      (rw (decodes x) refl) refl refl refl (rw (t, u, d) refl)
normalize-content_entry codec allow (url x) f m decodes valid p q =
    let (k, t, r, u, d) = metadata_fields-IsOnlyMetadata f m in
    normalize_entry codec allow "url" (str x) (url x) f m p q (rw valid refl) refl refl refl
      (rw (t, r, d) refl)
normalize-content_entry codec allow (data_object x) f m decodes valid p q =
    let (k, t, r, u, d) = metadata_fields-IsOnlyMetadata f m in
    normalize_entry codec allow "data" (obj x) (data_object x) f m p q refl refl refl refl
      (rw (t, r, u) refl)

read_content-IsContent :
    {B : Type 0} (codec : PartCodec B) (keys : List String) (fields : Fields) (c : Content B)
    → read_content codec keys fields ≡ ok c
    → IsContent codec c
unfolding read_content
read_content-IsContent codec [] fields c h = cc
read_content-IsContent codec (key ∷ []) fields c h =
    content_of-IsContent codec key (get fields key) c h
read_content-IsContent codec (key ∷ other ∷ rest) fields c h = cc

make_part-IsValid :
    {B : Type 0} (codec : PartCodec B) (mapping : Result Exn Mapping)
    (content : Result Exn (Content B)) (f m : Result Exn (Option String)) (part : Part B)
    → ((c : Content B) → content ≡ ok c → IsContent codec c)
    → ((o : Option String) → f ≡ ok o → IsFilled o)
    → ((o : Option String) → m ≡ ok o → IsFilled o)
    → make_part mapping content f m ≡ ok part
    → IsValid codec part
unfolding make_part
make_part-IsValid {B = B} codec (ok mp) (ok c) (ok f) (ok m) part good p q h =
    let made : Part B = record { mapping = mp; content = c; filename = f; media_type = m } in
    let same : made ≡ part = cc in
    rw (← same) record { content = good c refl; filename = p f refl; media_type = q m refl }
make_part-IsValid codec (err e) c f m part good p q h = cc
make_part-IsValid codec (ok mp) (err e) f m part good p q h = cc
make_part-IsValid codec (ok mp) (ok c) (err e) m part good p q h = cc
make_part-IsValid codec (ok mp) (ok c) (ok f) (err e) part good p q h = cc

normalize_part-IsValid :
    {B : Type 0} (codec : PartCodec B) (allow : Bool) (v : Value) (part : Part B)
    → normalize_part codec allow v ≡ ok part
    → IsValid codec part
unfolding normalize_part
normalize_part-IsValid codec allow (obj fields) part h =
    make_part-IsValid codec (read_mapping allow fields)
      (read_content codec (select (contains fields) part_keys) fields) (metadata "filename" fields)
      (metadata "mediaType" fields) part
      (λ c. read_content-IsContent codec (select (contains fields) part_keys) fields c)
      (λ o. metadata-IsFilled "filename" fields o) (λ o. metadata-IsFilled "mediaType" fields o) h
normalize_part-IsValid codec allow null part h = cc
normalize_part-IsValid codec allow (bool _) part h = cc
normalize_part-IsValid codec allow (int _ _) part h = cc
normalize_part-IsValid codec allow (real _) part h = cc
normalize_part-IsValid codec allow (str _) part h = cc
normalize_part-IsValid codec allow (arr _) part h = cc

-- Where base64 reads back what it wrote: a part that was accepted, in compatibility mode or not, is
-- written by `public_part` to an object that is accepted in either mode, and the part read from it
-- is the same but for the mapping, which is that of A2A 1.0.
pub normalize_part-public_part :
    {B : Type 0} (codec : PartCodec B) (allow allow' : Bool) (v : Value) (part : Part B)
    → ((bytes : B) → codec.b64decode (codec.b64encode bytes) ≡ some bytes)
    → normalize_part codec allow v ≡ ok part
    → normalize_part codec allow' (obj (public_part codec part))
      ≡ ok (record part { mapping = a2a_1_0 })
unfolding public_part metadata_fields
normalize_part-public_part codec allow allow' v part decodes h =
    let valid = normalize_part-IsValid codec allow v part h in
    normalize-content_entry codec allow' part.content part.filename part.media_type decodes
      valid.content valid.filename valid.media_type
