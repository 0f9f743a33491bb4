-- ===== src/Memory/Inbox/Cursor.antt =====
-- Cursor tokens: `_encode_cursor` and `_decode_cursor`. The codec stands for the standard library
-- under the secret of the store: JSON, the HMAC, and URL-safe base64 without its padding. Every
-- exception of decoding is a `CursorError`.
use a2a_superhub.Text.{is_hex_of}
use Prim.Native.String
use a2a_superhub.Memory.Notes.{MemoryError, cursor_invalid}
use a2a_superhub.Memory.Ops.{
  DeliveryModel, CursorKind, reason_row_v1, logical_v2, unknown_kind, inbox_page,
}
use a2a_superhub.Prelude.{
  ℕ, String, Bool, List, Option, true, ◌&&◌, Result, ◌∷◌, if◌then◌else◌, eqb, not, ◌==◌, [], false,
  elem, ok, err, some, none,
}
use a2a_superhub.Json.{
  Value, Fields, obj, int, str, entry, contains, get, bool, no_entries, real, decimal,
}
use Prim.Native.String.{String, []}
use Prim.Native.Nat.{ℕ}

pub record Codec : Type 0 where
  pub dumps : Value → String
  pub loads : String → Option Value
  -- the HMAC-SHA256 of a payload
  pub mac : String → String
  -- base64 of a payload and its signature, and the two parts read back
  pub pack : String → String → String
  pub unpack : String → Option (String × String)
  -- the hexadecimal SHA-256 of a text
  pub digest : String → String

-- what a token says beside the principal and the consumer it is bound to
pub record Token : Type 0 where
  pub sequence : ℕ
  pub nonce : String
  pub version : ℕ
  pub model : DeliveryModel
  pub kind : CursorKind

unfoldable pub model_text : DeliveryModel → String
model_text reason_row_v1 = "reason-row.v1"
model_text logical_v2 = "logical.v2"

unfoldable pub kind_text : CursorKind → String
kind_text inbox_page = "inbox-page"
kind_text unknown_kind = "unknown"

-- the JSON object of a token, its keys in the order of `json_dumps`, which sorts them
unfoldable pub token_fields : String → String → Token → Fields
unfolding model_text kind_text
token_fields principal consumer t =
    if eqb t.version 2
    then entry "c" (str consumer) (
        entry "k" (str (kind_text t.kind)) (
          entry "m" (str (model_text t.model)) (
            entry "n" (str t.nonce) (
              entry "p" (str principal)
                (entry "s" (int false t.sequence) (entry "v" (int false t.version) no_entries))))))
    else entry "c" (str consumer) (
        entry "n" (str t.nonce) (
          entry "p" (str principal)
            (entry "s" (int false t.sequence) (entry "v" (int false t.version) no_entries))))

unfoldable pub encode_cursor : Codec → String → String → Token → String
unfolding token_fields
encode_cursor codec principal consumer t =
    let payload = codec.dumps (obj (token_fields principal consumer t)) in
    codec.pack payload (codec.mac payload)

-- `re.fullmatch(r"[0-9a-f]{32}", nonce)`
unfoldable pub is_nonce : String → Bool
unfolding is_hex_of
is_nonce = is_hex_of 32

-- `value == n` in Python, for which `True` is 1 and `1.0` is 1
unfoldable pub equals_int : Value → ℕ → Bool
equals_int (int negative k) n = not negative && eqb k n
equals_int (bool b) n = eqb (if b then 1 else 0) n
equals_int (real text) n = text == String.◌++◌ (decimal n) ".0"
equals_int _ n = false

unfoldable pub is_text : Value → String → Bool
is_text (str text) expected = text == expected
is_text _ expected = false

unfoldable pub keys_among : List String → Fields → Bool
keys_among keys no_entries = true
keys_among keys (entry k v rest) = elem k keys && keys_among keys rest

unfoldable pub has_keys : List String → Fields → Bool
has_keys [] fields = true
has_keys (k ∷ ks) fields = contains fields k && has_keys ks fields

-- `value == expected_value`: the keys are those of the version, and the principal and the consumer
-- are the caller's; the other values of `expected_value` are those of `value` itself.
unfoldable pub is_bound : List String → String → String → Fields → Bool
unfolding keys_among has_keys
is_bound keys principal consumer fields =
    is_text (get fields "p") principal
    && is_text (get fields "c") consumer
    && keys_among keys fields
    && has_keys keys fields

unfoldable pub read_model : Value → Option DeliveryModel
unfolding model_text
read_model v =
    if is_text v (model_text reason_row_v1)
    then some reason_row_v1
    else if is_text v (model_text logical_v2)
    then some logical_v2
    else none

-- the tests on the sequence and the nonce
unfoldable pub read_rest : ℕ → DeliveryModel → CursorKind → Value → Value → Result MemoryError Token
unfolding is_nonce
read_rest version model kind (int false sequence) (str nonce) =
    if is_nonce nonce
    then ok (record {
      sequence = sequence;
      nonce = nonce;
      version = version;
      model = model;
      kind = kind;
    })
    else err cursor_invalid
read_rest version model kind _ _ = err cursor_invalid

abbrev pub keys_v1 : List String
keys_v1 = "v" ∷ "p" ∷ "c" ∷ "s" ∷ "n" ∷ []

abbrev pub keys_v2 : List String
keys_v2 = "v" ∷ "p" ∷ "c" ∷ "s" ∷ "n" ∷ "m" ∷ "k" ∷ []

unfoldable pub read_bound :
    ℕ
    → List String
    → String
    → String
    → DeliveryModel
    → CursorKind
    → Fields
    → Result MemoryError Token
unfolding is_bound read_rest
read_bound version keys principal consumer model kind fields =
    if is_bound keys principal consumer fields
    then read_rest version model kind (get fields "s") (get fields "n")
    else err cursor_invalid

unfoldable pub read_v2 : String → String → Fields → Option DeliveryModel → Result MemoryError Token
unfolding read_bound kind_text
read_v2 principal consumer fields none = err cursor_invalid
read_v2 principal consumer fields (some model) =
    if is_text (get fields "k") (kind_text inbox_page)
    then read_bound 2 keys_v2 principal consumer model inbox_page fields
    else err cursor_invalid

-- the checks on the JSON value of a payload
unfoldable pub read_value : String → String → Option Value → Result MemoryError Token
unfolding read_bound read_v2 read_model
read_value principal consumer (some (obj fields)) =
    if equals_int (get fields "v") 1
    then read_bound 1 keys_v1 principal consumer reason_row_v1 unknown_kind fields
    else if equals_int (get fields "v") 2
    then read_v2 principal consumer fields (read_model (get fields "m"))
    else err cursor_invalid
read_value principal consumer _ = err cursor_invalid

-- the signature is checked before the payload is read
unfoldable pub verify :
    Codec → String → String → Option (String × String) → Result MemoryError Token
unfolding read_value
verify codec principal consumer none = err cursor_invalid
verify codec principal consumer (some (payload, signature)) =
    if signature == codec.mac payload
    then read_value principal consumer (codec.loads payload)
    else err cursor_invalid

unfoldable pub decode_cursor : Codec → String → String → String → Result MemoryError Token
unfolding verify
decode_cursor codec token principal consumer = verify codec principal consumer (codec.unpack token)
