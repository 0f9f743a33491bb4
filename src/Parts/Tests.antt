-- ===== src/Parts/Tests.antt =====
-- Parts that are accepted and refused.
use a2a_superhub.Models.{value_error}
use a2a_superhub.Parts.RoundTrip.{normalize_part-public_part}
use a2a_superhub.Json.{Value, obj, entry, str, no_entries, contains, get}
use a2a_superhub.Parts.{
  PartCodec, Part, normalize_part, String, read_mapping, false, some, legacy_kind, is_part_key,
  public_part, url, read_content, none, metadata, ok, make_part, a2a_1_0, filled, content_of,
  url_content, is_url_scheme, err, value_error,
}
use a2a_superhub.Prelude.{refl, String, false, some, ◌≡◌, none, ok, true, err}

-- bytes that are their own base64, and URLs of one scheme
abbrev plain : PartCodec String
plain = record {
  b64decode = λ text. some text;
  b64encode = λ bytes. bytes;
  scheme = λ url. some "https";
}

abbrev legacy_part : Value
legacy_part = obj (
    entry "kind" (str "url")
      (entry "url" (str "https://hub/a") (entry "filename" (str "a.txt") no_entries)))

abbrev url_part : Part String
url_part = record {
  mapping = legacy_kind;
  content = url "https://hub/a";
  filename = some "a.txt";
  media_type = none;
}

read_legacy :
    (normalize_part plain true legacy_part ≡ ok url_part)
    × (normalize_part plain false legacy_part ≡ err value_error)
unfolding normalize_part read_mapping is_part_key read_content metadata make_part contains get
    filled content_of url_content is_url_scheme
read_legacy = (refl, refl)

normalize_part-public_part_example :
    normalize_part plain false (obj (public_part plain url_part))
    ≡ ok (record url_part { mapping = a2a_1_0 })
normalize_part-public_part_example =
    normalize_part-public_part plain true false legacy_part url_part (λ bytes. refl) read_legacy.0
