-- ===== src/Memory/Inbox/Binding.antt =====
-- Whom a cursor token serves, and that a token that was issued is read back.
use a2a_superhub.Memory.Inbox.Fetch.{page_token}
use a2a_superhub.Memory.Notes.{cursor_invalid}
use a2a_superhub.Memory.Ops.{
  DeliveryModel, CursorKind, inbox_page, reason_row_v1, unknown_kind, logical_v2,
}
use a2a_superhub.Json.{Fields, Value, get, obj, str, bool, int, real, arr, null, contains}
use a2a_superhub.Memory.Inbox.Cursor.{
  is_bound, read_bound, read_v2, read_value, is_text, Codec, verify, Token, kind_text, equals_int,
  keys_v1, keys_v2, read_model, decode_cursor, read_rest, keys_among, encode_cursor, has_keys,
  token_fields, is_nonce, model_text,
}
use a2a_superhub.Prelude.{
  String, List, ℕ, Option, ◌≡◌, true, ok, some, arith, Bool-cases, inl, eq_iff, refl, sym, ◌∙◌,
  ◌==◌, inr, err, none, ap, sym,
}
use mathlib.Core.Option.{some-injective}

-- the fields name the principal and the consumer
abbrev Names : String → String → Fields → Type 0
Names principal consumer fields =
    (is_text (get fields "p") principal ≡ true) × (is_text (get fields "c") consumer ≡ true)

is_bound-Names :
    (keys : List String) (p c : String) (fields : Fields)
    → is_bound keys p c fields ≡ true
    → Names p c fields
unfolding is_bound
is_bound-Names keys p c fields h = (ground arith, ground arith)

read_bound-Names :
    (version : ℕ) (keys : List String) (p c : String) (m : DeliveryModel) (k : CursorKind)
    (fields : Fields) (t : Token)
    → read_bound version keys p c m k fields ≡ ok t
    → Names p c fields
unfolding read_bound
read_bound-Names version keys p c m k fields t h = elim (Bool-cases (is_bound keys p c fields)) [
  | inl e ↦ is_bound-Names keys p c fields e
  | inr e ↦ let h' : err cursor_invalid ≡ ok t = rw e at h in cc
]

read_v2-Names :
    (p c : String) (fields : Fields) (m : Option DeliveryModel) (t : Token)
    → read_v2 p c fields m ≡ ok t
    → Names p c fields
unfolding read_v2
read_v2-Names p c fields none t h = cc
read_v2-Names p c fields (some m) t h =
    elim (Bool-cases (is_text (get fields "k") (kind_text inbox_page))) [
      | inl e ↦ read_bound-Names 2 keys_v2 p c m inbox_page fields t (rw e at h)
      | inr e ↦ let h' : err cursor_invalid ≡ ok t = rw e at h in cc
    ]

read_value-Names :
    (p c : String) (v : Option Value) (t : Token)
    → read_value p c v ≡ ok t
    → (fields : Fields) × (v ≡ some (obj fields)) × Names p c fields
unfolding read_value
read_value-Names p c (some (obj fields)) t h = (
  fields,
  refl,
  elim (Bool-cases (equals_int (get fields "v") 1)) [
    | inl e ↦ read_bound-Names 1 keys_v1 p c reason_row_v1 unknown_kind fields t (rw e at h)
    | inr e ↦ elim (Bool-cases (equals_int (get fields "v") 2)) [
      | inl e' ↦ read_v2-Names p c fields (read_model (get fields "m")) t (rw (e, e') at h)
      | inr e' ↦ let h' : err cursor_invalid ≡ ok t = rw (e, e') at h in cc
    ]
  ],
)
read_value-Names p c none t h = cc
read_value-Names p c (some null) t h = cc
read_value-Names p c (some (bool b)) t h = cc
read_value-Names p c (some (int b n)) t h = cc
read_value-Names p c (some (real x)) t h = cc
read_value-Names p c (some (str x)) t h = cc
read_value-Names p c (some (arr x)) t h = cc

-- A text of two is one text.
is_text_unique : (v : Value) (a b : String) → is_text v a ≡ true → is_text v b ≡ true → a ≡ b
unfolding is_text
is_text_unique (str x) a b h k = cc ((eq_iff x a).0 h, (eq_iff x b).0 k)
is_text_unique null a b h k = cc
is_text_unique (bool x) a b h k = cc
is_text_unique (int x n) a b h k = cc
is_text_unique (real x) a b h k = cc
is_text_unique (arr x) a b h k = cc
is_text_unique (obj x) a b h k = cc

-- what a decoded token says of its payload
abbrev Signed : Codec → String → String → Option (String × String) → Type 0
Signed codec p c parts =
    (payload : String) × (fields : Fields) × (parts ≡ some (payload, codec.mac payload))
    × (codec.loads payload ≡ some (obj fields))
    × Names p c fields

verify-Signed :
    (codec : Codec) (p c : String) (parts : Option (String × String)) (t : Token)
    → verify codec p c parts ≡ ok t
    → Signed codec p c parts
unfolding verify
verify-Signed codec p c none t h = cc
verify-Signed codec p c (some (payload, signature)) t h =
    elim (Bool-cases (signature == codec.mac payload)) [
      | inl e ↦
          let (fields, loaded, names) = read_value-Names p c (codec.loads payload) t (rw e at h) in
          (payload, fields, cc ((eq_iff signature (codec.mac payload)).0 e), loaded, names)
      | inr e ↦ let h' : err cursor_invalid ≡ ok t = rw e at h in cc
    ]

-- If a token decodes for two pairs of a principal and a consumer, they are one pair: no other
-- principal and no other consumer can use it.
pub decode_cursor_unique :
    (codec : Codec) (token : String) (p c : String) (t : Token) (p' c' : String) (t' : Token)
    → decode_cursor codec token p c ≡ ok t
    → decode_cursor codec token p' c' ≡ ok t'
    → (p ≡ p') × (c ≡ c')
unfolding decode_cursor
decode_cursor_unique codec token p c t p' c' t' h h' =
    let (payload, fields, parts, loaded, (by_p, by_c)) =
      verify-Signed codec p c (codec.unpack token) t h in
    let (payload', fields', parts', loaded', (by_p', by_c')) =
      verify-Signed codec p' c' (codec.unpack token) t' h' in
    let same : payload ≡ payload' =
      ap (λ (x : String × String). x.0) (some-injective _ _ (sym parts ∙ parts')) in
    let same_fields : fields ≡ fields' = cc (loaded, loaded', ap codec.loads same) in
    (
      is_text_unique (get fields "p") p p' by_p (rw (sym same_fields) at by_p'),
      is_text_unique (get fields "c") c c' by_c (rw (sym same_fields) at by_c'),
    )

==-refl : (x : String) → (x == x) ≡ true
==-refl x = (eq_iff x x).1 refl

read_page_token :
    (p c nonce : String) (m : DeliveryModel) (n : ℕ)
    → is_nonce nonce ≡ true
    → read_value p c (some (obj (token_fields p c (page_token nonce m n))))
      ≡ ok (page_token nonce m n)
unfolding read_value read_v2 read_bound read_rest read_model is_bound keys_among has_keys
    token_fields page_token is_text equals_int get contains model_text kind_text
read_page_token p c nonce reason_row_v1 n h = rw (==-refl p, ==-refl c, h) refl
read_page_token p c nonce logical_v2 n h = rw (==-refl p, ==-refl c, h) refl

-- Where the base64 of a signed payload gives its two parts back, and JSON reads the object of a
-- page's token back as it was written, `decode_cursor` reads the token that `encode_cursor` makes
-- for a page, for the same principal and consumer: the sequence, the nonce (32 hexadecimal
-- digits), version 2, the delivery model and the purpose are those that went in.
pub decode_cursor-encode_cursor :
    (codec : Codec) (p c nonce : String) (m : DeliveryModel) (n : ℕ)
    (unpacked : (payload : String)
      → codec.unpack (codec.pack payload (codec.mac payload)) ≡ some (payload, codec.mac payload))
    (loaded : codec.loads (codec.dumps (obj (token_fields p c (page_token nonce m n))))
      ≡ some (obj (token_fields p c (page_token nonce m n))))
    → is_nonce nonce ≡ true
    → decode_cursor codec (encode_cursor codec p c (page_token nonce m n)) p c
      ≡ ok (page_token nonce m n)
unfolding decode_cursor encode_cursor verify
decode_cursor-encode_cursor codec p c nonce m n unpacked loaded h =
    let payload = codec.dumps (obj (token_fields p c (page_token nonce m n))) in
    rw (unpacked payload, ==-refl (codec.mac payload), loaded) (read_page_token p c nonce m n h)
