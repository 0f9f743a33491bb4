-- ===== src/Memory/Inbox/Tests.antt =====
-- Runs of the inbox on small tables.
use a2a_superhub.Text.{count_chars, first_chars}
use a2a_superhub.Memory.Inbox.Receipts.{has_receipt, acknowledged_items_have_receipts}
use a2a_superhub.Memory.Inbox.Positions.{acknowledge_inbox_moves_own_position}
use a2a_superhub.Memory.Inbox.Page.{drop_rows, page_covers_its_rows}
use a2a_superhub.Json.{get, obj, contains}
use a2a_superhub.Memory.Inbox.Outcome.{Accepts}
use a2a_superhub.Memory.Inbox.Repeats.{IsUnmoved, acknowledge_inbox_again}
use a2a_superhub.Memory.Inbox.Fetch.{
  page_token, Page, scan, waiting, Row, add_item, table, is_skipped,
}
use a2a_superhub.Memory.Inbox.Binding.{decode_cursor_unique, decode_cursor-encode_cursor}
use a2a_superhub.Memory.Notes.{Note, MemoryError, is_principal_id, not_found}
use a2a_superhub.Memory.Ops.{
  Issued, Ops, logical_v2, Logical, empty, inbox_page, acked, AckReceipt, advance, insert_receipt,
  insert_ack_receipt,
}
use a2a_superhub.Memory.Inbox.Acknowledge.{
  InboxEnv, may_use_inbox, acknowledge_inbox, find_issued, same_model, same_kind, acknowledge_token,
  acknowledge_issued, commit_ack, receipt_rows, receive_all, receive, move_cursor, items_of,
  delivery_of, find_logical, logical_receipt,
}
use a2a_superhub.Memory.Inbox.Cursor.{
  Codec, is_nonce, encode_cursor, decode_cursor, verify, read_value, read_v2, read_bound, read_rest,
  model_text, read_model, kind_text, is_bound, keys_among, has_keys, token_fields, is_text,
  equals_int, Token,
}
use a2a_superhub.Auth.Bearer.{Principal, has}
use a2a_superhub.Prelude.{
  refl, String, ℕ, ◌≡◌, ◌∷◌, if◌then◌else◌, false, none, Result, [], ◌==◌, ok, some, err, ◌⊎◌, List,
  ◌<◌, sort_by, arith, take, Bool, map, true,
}

abbrev nonce : String
nonce = "0123456789abcdef0123456789abcdef"

abbrev alice : Principal
alice = record { subject = "alice"; kind = "agent"; token_id = "t1"; scopes = "memory.read" ∷ [] }

-- a codec that knows one payload
abbrev test_codec : Codec
test_codec = record {
  dumps = λ v. "payload";
  loads = λ payload.
      if payload == "payload"
      then some (obj (token_fields "alice" "desk" (page_token nonce logical_v2 7)))
      else none;
  mac = λ payload. "signature";
  pack = λ payload signature. payload;
  unpack = λ token. some (token, "signature");
  digest = λ text. text;
}

abbrev test_env : InboxEnv
test_env = record { codec = test_codec; now = "t2"; failpoint = λ stage. false }

abbrev test_issued : Issued
test_issued = record {
  cursor_hash = "payload";
  principal = "alice";
  consumer_id = "desk";
  sequence = 7;
  issued_at = "t1";
  token_version = 2;
  delivery_model = logical_v2;
  cursor_kind = inbox_page;
}

abbrev logical_of : ℕ → String → String → Logical
logical_of n id note = record {
  sequence = n;
  delivery_id = id;
  note_id = note;
  recipient = "alice";
  trace_id = "";
  created_at = "t0";
}

abbrev test_ops : Ops
test_ops = record empty {
  logical = logical_of 5 "d5" "n5" ∷ logical_of 7 "d7" "n7" ∷ logical_of 9 "d9" "n9" ∷ [];
  issued = test_issued ∷ [];
  issued_items =
      record { cursor_hash = "payload"; delivery_id = "d7"; sequence = 7 }
      ∷ record { cursor_hash = "payload"; delivery_id = "d5"; sequence = 5 }
      ∷ [];
}

abbrev test_note : Note
test_note = record {
  id = "n5";
  kind = "note";
  title = "a title";
  author = "bob";
  visibility = "shared";
  recorded_at = "t0";
  project = none;
  participants = [];
  about = [];
  supersedes = none;
  relations = [];
  body = "";
}

-- one note can be read, the others are not to be seen
abbrev test_read : String → Result MemoryError Note
test_read id = if id == "n5" then ok test_note else err not_found

decode_cursor-encode_cursor_example :
    decode_cursor test_codec
      (encode_cursor test_codec "alice" "desk" (page_token nonce logical_v2 7))
      "alice"
      "desk"
    ≡ ok (page_token nonce logical_v2 7)
unfolding is_nonce count_chars
decode_cursor-encode_cursor_example =
    decode_cursor-encode_cursor test_codec "alice" "desk" nonce logical_v2 7 (λ payload. refl) refl
      refl

test_decoded :
    decode_cursor test_codec "payload" "alice" "desk" ≡ ok (page_token nonce logical_v2 7)
unfolding encode_cursor decode_cursor verify read_value read_v2 read_bound read_rest read_model
    is_bound keys_among has_keys token_fields page_token is_text equals_int get contains model_text
    kind_text is_nonce count_chars
test_decoded = refl

abbrev desk : String
desk = "desk"

decode_cursor_unique_example : (alice.subject ≡ "alice") × (desk ≡ "desk")
decode_cursor_unique_example =
    decode_cursor_unique test_codec "payload" "alice" "desk" (page_token nonce logical_v2 7) "alice"
      "desk" (page_token nonce logical_v2 7) test_decoded test_decoded

test-Accepts :
    Accepts test_env alice "desk" "payload" test_ops (page_token nonce logical_v2 7) test_issued
unfolding may_use_inbox has is_principal_id find_issued page_token same_model same_kind model_text
    kind_text acked
test-Accepts = record {
  allowed = refl;
  decoded = test_decoded;
  issued = refl;
  version = refl;
  binding = refl;
  purpose = refl;
}

acknowledge_inbox_again_example :
    (s' : Ops) × (acknowledge_inbox test_env alice "desk" "payload"
        (acknowledge_inbox test_env alice "desk" "payload" test_ops).1
      ≡ (ok false, s'))
    × IsUnmoved (acknowledge_inbox test_env alice "desk" "payload" test_ops).1 s'
acknowledge_inbox_again_example =
    acknowledge_inbox_again test_env test_env alice "desk" "payload" test_ops
      (page_token nonce logical_v2 7) test_issued refl refl test-Accepts

acknowledge_inbox_moves_own_position_example :
    (acked "alice" "desk" (acknowledge_inbox test_env alice "desk" "payload" test_ops).1.cursors
      ≡ acked "alice" "desk" test_ops.cursors)
    ⊎ (("alice" ≡ alice.subject)
        × ("desk" ≡ desk)
        × (acked "alice" "desk" test_ops.cursors
            < acked "alice" "desk"
                (acknowledge_inbox test_env alice "desk" "payload" test_ops).1.cursors)
        × (t : Token) × (row : Issued) × (acked "alice" "desk"
              (acknowledge_inbox test_env alice "desk" "payload" test_ops).1.cursors
            ≡ t.sequence)
        × (decode_cursor test_codec "payload" "alice" "desk" ≡ ok t)
        × (find_issued "payload" "alice" "desk" t.sequence test_ops.issued ≡ some row))
acknowledge_inbox_moves_own_position_example =
    acknowledge_inbox_moves_own_position test_env alice "desk" "payload" test_ops "alice" "desk"

abbrev row_of : ℕ → String → String → Row
row_of n id note = record {
  sequence = n;
  delivery_id = id;
  note_id = note;
  recipient = "alice";
  reasons = [];
}

abbrev test_rows : List Row
test_rows = row_of 5 "d5" "n5" ∷ row_of 7 "d7" "n7" ∷ row_of 9 "d9" "n9" ∷ []

test_table : table logical_v2 test_ops ≡ test_rows
unfolding table
test_table = refl

abbrev test_page : Page
test_page = record {
  items = record { delivery_id = "d5"; note = test_note; reasons = [] } ∷ [];
  issued = ("d5", 5) ∷ [];
  scanned = 7;
}

test_scan : scan test_read 0 (take 2 (waiting "alice" 0 test_rows)) ≡ ok test_page
unfolding scan waiting add_item is_skipped sort_by
test_scan = refl

-- the second note of the page cannot be read, and the next page starts after it
page_covers_its_rows_example :
    waiting "alice" 7 test_rows ≡ drop_rows 2 (waiting "alice" 0 test_rows)
page_covers_its_rows_example =
    page_covers_its_rows test_read "alice" 0 2 test_rows test_page
      (omega arith, (omega arith, (omega arith, tt))) test_scan

-- fetching, acknowledging and fetching again
abbrev receipts_of : Result MemoryError Bool × Ops → List String
receipts_of (result, s) = map (λ (r : AckReceipt). r.delivery_id) s.ack_receipts

-- the items are received in the order of their sequences
test_receipts :
    receipts_of (acknowledge_inbox test_env alice "desk" "payload" test_ops) ≡ "d5" ∷ "d7" ∷ []
unfolding acknowledge_inbox acknowledge_token acknowledge_issued commit_ack may_use_inbox has
    is_principal_id find_issued same_model same_kind model_text kind_text acked receipt_rows
    receive_all receive logical_receipt move_cursor items_of delivery_of find_logical advance
    insert_receipt insert_ack_receipt decode_cursor verify read_value read_v2 read_bound read_rest
    read_model is_bound keys_among has_keys token_fields page_token is_text equals_int get contains
    is_nonce count_chars first_chars sort_by
test_receipts = refl

acknowledged_items_have_receipts_example :
    has_receipt "alice" "desk" "d5"
      (acknowledge_inbox test_env alice "desk" "payload" test_ops).1.ack_receipts
    ≡ true
unfolding find_logical acked page_token
acknowledged_items_have_receipts_example =
    acknowledged_items_have_receipts test_env alice "desk" "payload" test_ops
      (page_token nonce logical_v2 7) test_issued (logical_of 5 "d5" "n5") test-Accepts refl
      (omega arith) refl refl
