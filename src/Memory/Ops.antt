-- ===== src/Memory/Ops.antt =====
-- The tables of ops.sqlite that delivery and the inbox use (`_ensure_ops_schema_v4`), in rowid order.
-- Receipts and cursors are inserted or ignored by their primary keys.
use a2a_superhub.Prelude.{
  ℕ, String, ◌&&◌, List, [], ◌∷◌, ◌++◌, ◌==◌, any, max, Option, none, if◌then◌else◌,
}
use a2a_superhub.Json.{Value}

-- `DELIVERY_MODEL_V1`, `DELIVERY_MODEL_V2`
pub data DeliveryModel : Type 0 where
  reason_row_v1 logical_v2 : DeliveryModel

-- `CURSOR_PURPOSE_INBOX`, `CURSOR_PURPOSE_UNKNOWN`
pub data CursorKind : Type 0 where
  inbox_page unknown_kind : CursorKind

-- `deliveries`: one row for each reason
pub record Delivery : Type 0 where
  pub sequence : ℕ
  pub delivery_id : String
  pub note_id : String
  pub recipient : String
  pub reason : String
  pub trace_id : String
  pub created_at : String

-- `logical_deliveries`: one row for each note and recipient
pub record Logical : Type 0 where
  pub sequence : ℕ
  pub delivery_id : String
  pub note_id : String
  pub recipient : String
  pub trace_id : String
  pub created_at : String

-- `delivery_aliases`
pub record Alias : Type 0 where
  pub legacy_delivery_id : String
  pub delivery_id : String
  pub legacy_sequence : ℕ
  pub reason : String

-- `issued_cursors`
pub record Issued : Type 0 where
  pub cursor_hash : String
  pub principal : String
  pub consumer_id : String
  pub sequence : ℕ
  pub issued_at : String
  pub token_version : ℕ
  pub delivery_model : DeliveryModel
  pub cursor_kind : CursorKind

-- `issued_cursor_items`
pub record IssuedItem : Type 0 where
  pub cursor_hash : String
  pub delivery_id : String
  pub sequence : ℕ

-- `consumer_cursors`
pub record ConsumerCursor : Type 0 where
  pub principal : String
  pub consumer_id : String
  pub acked_sequence : ℕ
  pub updated_at : String

pub record Receipt : Type 0 where
  pub trace_id : String
  pub phase : String
  pub operation_id : String
  pub subject : String
  pub status : String
  pub created_at : String
  pub metadata : Value

-- `logical_ack_receipts`
pub record AckReceipt : Type 0 where
  pub principal : String
  pub consumer_id : String
  pub delivery_id : String
  pub sequence : ℕ
  pub acknowledged_at : String
  pub cursor_hash : String

-- `logical_delivery_reasons`
pub record Reason : Type 0 where
  pub delivery_id : String
  pub reason : String

-- where a note is sent, and for what
pub record Route : Type 0 where
  pub recipient : String
  pub reason : String

-- `delivery_route_snapshots`; a conflict is when it was seen and the routes that were proposed
pub record Snapshot : Type 0 where
  pub note_id : String
  pub routes : List Route
  pub recorded_at : String
  pub conflict : Option (String × List Route)

pub record Ops : Type 0 where
  pub deliveries : List Delivery
  -- the greatest sequence that AUTOINCREMENT has given to `deliveries`
  pub last_delivery : ℕ
  -- `delivery_sequence_state`
  pub high_water : Option ℕ
  pub snapshots : List Snapshot
  pub logical : List Logical
  pub reasons : List Reason
  pub aliases : List Alias
  pub issued : List Issued
  pub issued_items : List IssuedItem
  pub cursors : List ConsumerCursor
  pub receipts : List Receipt
  pub ack_receipts : List AckReceipt

abbrev pub empty : Ops
empty = record {
  deliveries = [];
  last_delivery = 0;
  high_water = none;
  snapshots = [];
  logical = [];
  reasons = [];
  aliases = [];
  issued = [];
  issued_items = [];
  cursors = [];
  receipts = [];
  ack_receipts = [];
}

-- `_insert_receipt_conn`, after it has dropped the metadata keys that are not allowed
unfoldable pub insert_receipt : Receipt → List Receipt → List Receipt
insert_receipt r rows =
    if any
      (λ old.
        old.trace_id == r.trace_id && old.phase == r.phase && old.operation_id == r.operation_id)
      rows
    then rows
    else rows ++ r ∷ []

-- `INSERT OR IGNORE INTO logical_ack_receipts`
unfoldable pub insert_ack_receipt : AckReceipt → List AckReceipt → List AckReceipt
insert_ack_receipt r rows =
    if any
      (λ old.
        old.principal == r.principal
        && old.consumer_id == r.consumer_id
        && old.delivery_id == r.delivery_id)
      rows
    then rows
    else rows ++ r ∷ []

-- `SELECT acked_sequence FROM consumer_cursors`, 0 if there is no row
unfoldable pub acked : String → String → List ConsumerCursor → ℕ
acked principal consumer [] = 0
acked principal consumer (c ∷ cs) =
    if c.principal == principal && c.consumer_id == consumer
    then c.acked_sequence
    else acked principal consumer cs

-- `INSERT INTO consumer_cursors … ON CONFLICT(principal, consumer_id) DO UPDATE SET
-- acked_sequence=MAX(…), updated_at=…`
unfoldable pub advance : String → String → ℕ → String → List ConsumerCursor → List ConsumerCursor
advance principal consumer sequence now [] =
    record {
      principal = principal;
      consumer_id = consumer;
      acked_sequence = sequence;
      updated_at = now;
    }
    ∷ []
advance principal consumer sequence now (c ∷ cs) =
    if c.principal == principal && c.consumer_id == consumer
    then record c { acked_sequence = max c.acked_sequence sequence; updated_at = now } ∷ cs
    else c ∷ advance principal consumer sequence now cs
