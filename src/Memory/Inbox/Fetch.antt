-- ===== src/Memory/Inbox/Fetch.antt =====
-- `fetch_inbox` and `_issue_cursor`. The tables are in rowid order. A note is read by `read_note` of
-- `Notes`, which is `read` here; the two tables of deliveries are read as one kind of row.
use a2a_superhub.Prelude.{
  ◌>>=◌, ◌>>◌, gets, lift, pure, raise_if, none, not, ℕ, String, List, sort_by, Result, Bool,
  Option, leb, true, Exec, max, select, false, ok, any, if◌then◌else◌, take, ltb, ◌∷◌, min, ◌==◌,
  text_leb, err, length, some, [], ◌&&◌, suc, ◌++◌,
}
use a2a_superhub.Memory.Notes.{
  not_found, quarantined, forbidden, runtime_error, integrity_error, MemoryError, Note,
}
use a2a_superhub.Memory.Ops.{
  reason_row_v1, logical_v2, inbox_page, DeliveryModel, acked, Delivery, Reason, Ops, IssuedItem,
  Issued, Logical,
}
use a2a_superhub.Auth.Bearer.{Principal}
use a2a_superhub.Memory.Inbox.Acknowledge.{may_use_inbox, InboxEnv}
use a2a_superhub.Memory.Inbox.Cursor.{encode_cursor, Token}
use Prim.Native.String.{String, ◌∷◌, []}
use Prim.Native.Nat.{ℕ, max, min, suc}

-- the columns of `deliveries` or `logical_deliveries` that a page needs
pub record Row : Type 0 where
  pub sequence : ℕ
  pub delivery_id : String
  pub note_id : String
  pub recipient : String
  pub reasons : List String

-- one item of the answer
pub record InboxItem : Type 0 where
  pub delivery_id : String
  pub note : Note
  pub reasons : List String

pub record Page : Type 0 where
  pub items : List InboxItem
  pub issued : List (String × ℕ)
  -- the sequence that the page's cursor stands for
  pub scanned : ℕ

pub record Answer : Type 0 where
  pub items : List InboxItem
  pub has_more : Option Bool
  pub cursor : Option String

unfoldable pub legacy_rows : List Delivery → List Row
legacy_rows [] = []
legacy_rows (d ∷ ds) =
    record {
      sequence = d.sequence;
      delivery_id = d.delivery_id;
      note_id = d.note_id;
      recipient = d.recipient;
      reasons = d.reason ∷ [];
    }
    ∷ legacy_rows ds

-- `SELECT reason … WHERE delivery_id=? ORDER BY reason`
reasons_of : String → List Reason → List String
reasons_of id [] = []
reasons_of id (r ∷ rs) =
    let rest = reasons_of id rs in if r.delivery_id == id then r.reason ∷ rest else rest

unfoldable pub logical_rows : List Reason → List Logical → List Row
unfolding reasons_of sort_by
logical_rows reasons [] = []
logical_rows reasons (d ∷ ds) =
    record {
      sequence = d.sequence;
      delivery_id = d.delivery_id;
      note_id = d.note_id;
      recipient = d.recipient;
      reasons = sort_by text_leb (reasons_of d.delivery_id reasons);
    }
    ∷ logical_rows reasons ds

-- the table of the delivery model
unfoldable pub table : DeliveryModel → Ops → List Row
unfolding legacy_rows logical_rows
table reason_row_v1 s = legacy_rows s.deliveries
table logical_v2 s = logical_rows s.reasons s.logical

-- `WHERE recipient=? AND sequence>? ORDER BY sequence`
unfoldable pub waiting : String → ℕ → List Row → List Row
unfolding sort_by
waiting recipient after rows =
    sort_by (λ a b. leb a.sequence b.sequence)
      (select (λ r. r.recipient == recipient && ltb after r.sequence) rows)

-- `max(1, min(limit, 100))`; a limit below zero counts as 0 does
unfoldable pub page_limit : ℕ → ℕ
page_limit limit = max 1 (min limit 100)

-- whether a note that cannot be read is left out of the page
unfoldable pub is_skipped : MemoryError → Bool
is_skipped not_found = true
is_skipped quarantined = true
is_skipped _ = false

unfoldable pub add_item :
    Row → Result MemoryError Note → Result MemoryError Page → Result MemoryError Page
unfolding is_skipped
add_item row (ok note) (ok page) = ok (record page {
  items = record { delivery_id = row.delivery_id; note = note; reasons = row.reasons } ∷ page.items;
  issued = (row.delivery_id, row.sequence) ∷ page.issued;
})
add_item row (err e) page = if is_skipped e then page else err e
add_item row (ok note) (err e) = err e

-- the loop over the rows of a page
unfoldable pub scan : (String → Result MemoryError Note) → ℕ → List Row → Result MemoryError Page
unfolding add_item
scan read scanned [] = ok (record { items = []; issued = []; scanned = scanned })
scan read scanned (row ∷ rows) =
    add_item row (read row.note_id) (scan read (max scanned row.sequence) rows)

issued_rows : String → List (String × ℕ) → List IssuedItem
issued_rows hash [] = []
issued_rows hash ((id, sequence) ∷ rest) =
    record { cursor_hash = hash; delivery_id = id; sequence = sequence } ∷ issued_rows hash rest

has_hash : String → List Issued → Bool
has_hash hash rows = any (λ r. r.cursor_hash == hash) rows

-- the token of a page
unfoldable pub page_token : String → DeliveryModel → ℕ → Token
page_token nonce model scanned = record {
  sequence = scanned;
  nonce = nonce;
  version = 2;
  model = model;
  kind = inbox_page;
}

-- `_issue_cursor`; the hash is a primary key. The items of a new hash have different delivery ids, as
-- those are unique in the tables of deliveries, so their key is new too.
unfoldable pub issue_cursor :
    InboxEnv → String → String → String → DeliveryModel → Page → Exec MemoryError Ops String
unfolding issued_rows has_hash encode_cursor page_token
issue_cursor env nonce principal consumer model page s =
    let token = encode_cursor env.codec principal consumer (page_token nonce model page.scanned) in
    let hash = env.codec.digest token in
    if has_hash hash s.issued then (err integrity_error, s) else (
      ok token,
      record s {
        issued =
            s.issued
            ++ record {
              cursor_hash = hash;
              principal = principal;
              consumer_id = consumer;
              sequence = page.scanned;
              issued_at = env.now;
              token_version = 2;
              delivery_model = model;
              cursor_kind = inbox_page;
            }
              ∷ [];
        issued_items = s.issued_items ++ issued_rows hash page.issued;
      },
    )

-- the rows of the SELECT of `fetch_inbox`: one more than the page holds
unfoldable pub fetched : String → String → DeliveryModel → ℕ → Ops → List Row
unfolding acked table waiting
fetched principal consumer model limit s =
    take (suc limit) (waiting principal (acked principal consumer s.cursors) (table model s))

more_of : DeliveryModel → Bool → Option Bool
more_of reason_row_v1 more = none
more_of logical_v2 more = some more

optional_cursor : Bool → Exec MemoryError Ops String → Exec MemoryError Ops (Option String)
optional_cursor false m = pure none
optional_cursor true m = do token ← m; pure (some token)

-- `fetch_inbox`; a delivery model that is not one of the two raises before this.
unfoldable pub fetch_inbox :
    InboxEnv
    → String
    → (String → Result MemoryError Note)
    → Principal
    → String
    → ℕ
    → DeliveryModel
    → Bool
    → Exec MemoryError Ops Answer
unfolding may_use_inbox acked scan fetched page_limit more_of issue_cursor optional_cursor
fetch_inbox env nonce read p consumer limit model issue = do
  raise_if (not (may_use_inbox p consumer)) forbidden
  scanned ← gets (λ s. acked p.subject consumer s.cursors)
  rows ← gets (fetched p.subject consumer model (page_limit limit))
  page ← lift (scan read scanned (take (page_limit limit) rows))
  cursor ← optional_cursor issue (issue_cursor env nonce p.subject consumer model page)
  raise_if (env.failpoint "after_fetch_before_response") runtime_error
  pure (record {
    items = page.items;
    has_more = more_of model (ltb (page_limit limit) (length rows));
    cursor = cursor;
  })
