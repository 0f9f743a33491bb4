-- ===== src/Memory/Inbox/Acknowledge.antt =====
-- `acknowledge_inbox`. A raise inside `_connect` rolls the transaction back; the failpoint after it
-- raises with the acknowledgement committed.
use a2a_superhub.Text.{first_chars}
use Prim.Native.String
use a2a_superhub.Memory.Notes.{
  is_principal_id, MemoryError, cursor_invalid, cursor_refresh_required, forbidden, runtime_error,
}
use a2a_superhub.Memory.Ops.{
  DeliveryModel, Logical, insert_receipt, advance, acked, CursorKind, Ops, Receipt,
  insert_ack_receipt, Issued, IssuedItem, logical_v2, reason_row_v1, unknown_kind, AckReceipt,
}
use a2a_superhub.Prelude.{
  String, sort_by, Bool, ℕ, List, if◌then◌else◌, ◌&&◌, ◌==◌, Option, eqb, Exec, [], ◌∷◌, some, leb,
  find, select, max, raise, transaction, ◌||◌, ltb, not, ok, any, true, false, ◌++◌, none, ◌>>=◌,
  ◌>>◌, gets, raise_if, lift, pure,
}
use a2a_superhub.Auth.Bearer.{has, Principal}
use a2a_superhub.Memory.Inbox.Cursor.{Codec, model_text, kind_text, decode_cursor, Token}
use a2a_superhub.Json.{obj, entry, no_entries, str, int}

-- what a call takes from its surroundings
pub record InboxEnv : Type 0 where
  pub codec : Codec
  pub now : String
  pub failpoint : String → Bool

-- the scope and the consumer of both inbox calls
unfoldable pub may_use_inbox : Principal → String → Bool
unfolding has is_principal_id
may_use_inbox p consumer = has p "memory.read" && is_principal_id consumer

unfoldable pub same_model : DeliveryModel → DeliveryModel → Bool
unfolding model_text
same_model a b = model_text a == model_text b

unfoldable pub same_kind : CursorKind → CursorKind → Bool
unfolding kind_text
same_kind a b = kind_text a == kind_text b

-- the row of `issued_cursors` for a token
unfoldable pub find_issued : String → String → String → ℕ → List Issued → Option Issued
find_issued hash principal consumer sequence = find (λ row.
    row.cursor_hash == hash
    && row.principal == principal
    && row.consumer_id == consumer
    && eqb row.sequence sequence)

unfoldable pub find_logical : String → List Logical → Option Logical
find_logical id = find (λ row. row.delivery_id == id)

-- the logical delivery of an issued item: through its alias where the page had reason rows
unfoldable pub delivery_of : DeliveryModel → String → Ops → Option Logical
unfolding find_logical
delivery_of logical_v2 id s = find_logical id s.logical
delivery_of reason_row_v1 id s = elim (find (λ a. a.legacy_delivery_id == id) s.aliases) [
  | none ↦ none
  | some a ↦ find_logical a.delivery_id s.logical
]

unfoldable pub same_row : Logical → Logical → Bool
same_row a b =
    eqb a.sequence b.sequence
    && a.delivery_id == b.delivery_id
    && a.note_id == b.note_id
    && a.recipient == b.recipient
    && a.trace_id == b.trace_id
    && a.created_at == b.created_at

unfoldable pub add_row : DeliveryModel → ℕ → Option Logical → List Logical → List Logical
unfolding same_model same_row
add_row model upto none rows = rows
add_row model upto (some d) rows =
    if (same_model model logical_v2 || leb d.sequence upto) && not (any (same_row d) rows)
    then rows ++ d ∷ []
    else rows

-- `receipt_rows`, from the rows so far
unfoldable pub receipt_rows_from :
    DeliveryModel → ℕ → Ops → List IssuedItem → List Logical → List Logical
unfolding add_row delivery_of
receipt_rows_from model upto s [] rows = rows
receipt_rows_from model upto s (i ∷ is) rows =
    receipt_rows_from model upto s is (add_row model upto (delivery_of model i.delivery_id s) rows)

-- the rows of `issued_cursor_items` of a token, by sequence
unfoldable pub items_of : String → Ops → List IssuedItem
unfolding sort_by
items_of hash s =
    sort_by (λ a b. leb a.sequence b.sequence) (select (λ i. i.cursor_hash == hash) s.issued_items)

unfoldable pub receipt_rows : DeliveryModel → ℕ → String → Ops → List Logical
unfolding receipt_rows_from items_of
receipt_rows model upto hash s = receipt_rows_from model upto s (items_of hash s) []

-- the text of a delivery that has no trace is `trace_delivery_` and 16 digits of the note's digest
trace_of : Codec → Logical → String
unfolding first_chars
trace_of codec d =
    if d.trace_id == ""
    then String.◌++◌ "trace_delivery_" (first_chars 16 (codec.digest d.note_id))
    else d.trace_id

ack_receipt : InboxEnv → String → String → Logical → Receipt
unfolding trace_of
ack_receipt env principal consumer d = record {
  trace_id = trace_of env.codec d;
  phase = "ack";
  operation_id = d.delivery_id;
  subject = principal;
  status = "acknowledged";
  created_at = env.now;
  metadata =
      obj (entry "consumerId" (str consumer) (entry "sequence" (int false d.sequence) no_entries));
}

-- the row of `logical_ack_receipts`
unfoldable pub logical_receipt : InboxEnv → String → String → String → Logical → AckReceipt
logical_receipt env principal consumer hash d = record {
  principal = principal;
  consumer_id = consumer;
  delivery_id = d.delivery_id;
  sequence = d.sequence;
  acknowledged_at = env.now;
  cursor_hash = hash;
}

-- the two inserts for one delivery
unfoldable pub receive : InboxEnv → String → String → String → Logical → Ops → Ops
unfolding ack_receipt logical_receipt insert_receipt insert_ack_receipt
receive env principal consumer hash d s = record s {
  receipts = insert_receipt (ack_receipt env principal consumer d) s.receipts;
  ack_receipts = insert_ack_receipt (logical_receipt env principal consumer hash d) s.ack_receipts;
}

unfoldable pub receive_all : InboxEnv → String → String → String → List Logical → Ops → Ops
unfolding receive
receive_all env principal consumer hash [] s = s
receive_all env principal consumer hash (d ∷ ds) s =
    receive_all env principal consumer hash ds (receive env principal consumer hash d s)

unfoldable pub move_cursor : InboxEnv → String → String → ℕ → Ops → Ops
unfolding advance
move_cursor env principal consumer sequence s = record s {
  cursors = advance principal consumer sequence env.now s.cursors;
}

-- the part of the transaction after the checks; `advanced`
unfoldable pub commit_ack :
    InboxEnv → String → String → String → DeliveryModel → ℕ → Exec MemoryError Ops Bool
unfolding acked receipt_rows receive_all move_cursor
commit_ack env principal consumer hash model sequence s =
    let current = acked principal consumer s.cursors in
    let upto = max current sequence in
    if ltb current sequence
    then (
      ok true,
      move_cursor env principal consumer upto
          (receive_all env principal consumer hash (receipt_rows model upto hash s) s),
    )
    else (ok false, move_cursor env principal consumer upto s)

-- the transaction, on the issued row
unfoldable pub acknowledge_issued :
    InboxEnv → String → String → String → Token → Option Issued → Exec MemoryError Ops Bool
unfolding same_model same_kind acked commit_ack
acknowledge_issued env principal consumer hash t none = raise cursor_invalid
acknowledge_issued env principal consumer hash t (some row) = do
  raise_if (not (eqb row.token_version t.version)) cursor_invalid
  raise_if
      (eqb t.version 2
        && (not (same_model row.delivery_model t.model) || not (same_kind row.cursor_kind t.kind)))
      cursor_invalid
  current ← gets (λ s. acked principal consumer s.cursors)
  raise_if (same_kind row.cursor_kind unknown_kind && ltb current t.sequence)
      cursor_refresh_required
  commit_ack env principal consumer hash row.delivery_model t.sequence

unfoldable pub acknowledge_token :
    InboxEnv → String → String → String → Token → Exec MemoryError Ops Bool
unfolding find_issued acknowledge_issued
acknowledge_token env principal consumer hash t = transaction (do
  row ← gets (λ s. find_issued hash principal consumer t.sequence s.issued)
  acknowledge_issued env principal consumer hash t row)

-- `acknowledge_inbox`; the result is its field `acked`, the other fields are arguments of the call.
unfoldable pub acknowledge_inbox :
    InboxEnv → Principal → String → String → Exec MemoryError Ops Bool
unfolding may_use_inbox decode_cursor acknowledge_token
acknowledge_inbox env p consumer token = do
  raise_if (not (may_use_inbox p consumer)) forbidden
  t ← lift (decode_cursor env.codec token p.subject consumer)
  advanced ← acknowledge_token env p.subject consumer (env.codec.digest token) t
  raise_if (env.failpoint "after_ack_commit_before_response") runtime_error
  pure advanced
