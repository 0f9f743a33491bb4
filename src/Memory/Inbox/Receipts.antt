-- ===== src/Memory/Inbox/Receipts.antt =====
-- The receipts that an acknowledgement leaves.
use a2a_superhub.Memory.Inbox.Positions.{acknowledge_inbox-state}
use a2a_superhub.Auth.Bearer.{Principal}
use a2a_superhub.Memory.Inbox.Outcome.{acknowledged, Accepts}
use a2a_superhub.Memory.Inbox.Cursor.{model_text, Token}
use a2a_superhub.Memory.Inbox.Acknowledge.{
  receive_all, add_row, same_row, receipt_rows_from, receive, same_model, delivery_of, InboxEnv,
  logical_receipt, find_logical, items_of, commit_ack, move_cursor, receipt_rows, acknowledge_inbox,
}
use a2a_superhub.Memory.Ops.{
  insert_ack_receipt, AckReceipt, DeliveryModel, Logical, Ops, logical_v2, IssuedItem, Issued,
  acked,
}
use a2a_superhub.Prelude.{
  refl, String, List, Bool, ◌≡◌, ℕ, any, ◌==◌, true, Option, ◌&&◌, Bool-cases, ◌∷◌, some, inl, ◌||◌,
  arith, [], inr, eq_iff, leb, any-append_left, any-append_last, not, none, select, any-sort_by,
  ◌<◌, ltb, max,
}

-- the ledger says that the consumer has acknowledged a delivery
abbrev pub has_receipt : String → String → String → List AckReceipt → Bool
has_receipt p c id = any (λ r. r.principal == p && r.consumer_id == c && r.delivery_id == id)

abbrev has_row : String → List Logical → Bool
has_row id = any (λ d. d.delivery_id == id)

insert_ack_receipt-keeps :
    (r : AckReceipt) (p c id : String) (rows : List AckReceipt)
    → has_receipt p c id rows ≡ true
    → has_receipt p c id (insert_ack_receipt r rows) ≡ true
unfolding insert_ack_receipt
insert_ack_receipt-keeps r p c id rows h =
    elim (Bool-cases (has_receipt r.principal r.consumer_id r.delivery_id rows)) [
      | inl e ↦ rw e h
      | inr e ↦ rw e (
          any-append_left
            (λ (x : AckReceipt). x.principal == p && x.consumer_id == c && x.delivery_id == id) rows
            (r ∷ []) h)
    ]

insert_ack_receipt-has :
    (r : AckReceipt) (rows : List AckReceipt)
    → has_receipt r.principal r.consumer_id r.delivery_id (insert_ack_receipt r rows) ≡ true
unfolding insert_ack_receipt
insert_ack_receipt-has r rows =
    elim (Bool-cases (has_receipt r.principal r.consumer_id r.delivery_id rows)) [
      | inl e ↦ rw e e
      | inr e ↦ rw e (
          any-append_last
            (λ (x : AckReceipt).
              x.principal == r.principal
              && x.consumer_id == r.consumer_id
              && x.delivery_id == r.delivery_id)
            rows r
            (ground (
              arith,
              (eq_iff r.principal r.principal).1 refl,
              (eq_iff r.consumer_id r.consumer_id).1 refl,
              (eq_iff r.delivery_id r.delivery_id).1 refl,
            )))
    ]

receive_all-keeps :
    (env : InboxEnv) (p c hash id : String) (ds : List Logical) (s : Ops)
    → has_receipt p c id s.ack_receipts ≡ true
    → has_receipt p c id (receive_all env p c hash ds s).ack_receipts ≡ true
unfolding receive_all receive
receive_all-keeps env p c hash id [] s h = h
receive_all-keeps env p c hash id (d ∷ ds) s h =
    receive_all-keeps env p c hash id ds (receive env p c hash d s)
      (insert_ack_receipt-keeps (logical_receipt env p c hash d) p c id s.ack_receipts h)

receive_all-has :
    (env : InboxEnv) (p c hash id : String) (ds : List Logical) (s : Ops)
    → has_row id ds ≡ true
    → has_receipt p c id (receive_all env p c hash ds s).ack_receipts ≡ true
unfolding receive_all receive logical_receipt
receive_all-has env p c hash id [] s h = cc
receive_all-has env p c hash id (d ∷ ds) s h = elim (Bool-cases (d.delivery_id == id)) [
  | inl e ↦
      let here : has_receipt p c id (receive env p c hash d s).ack_receipts ≡ true =
        rw (← (eq_iff d.delivery_id id).0 e)
          (insert_ack_receipt-has (logical_receipt env p c hash d) s.ack_receipts) in
      receive_all-keeps env p c hash id ds (receive env p c hash d s) here
  | inr e ↦ receive_all-has env p c hash id ds (receive env p c hash d s) (rw e at h)
]

add_row-keeps :
    (m : DeliveryModel) (upto : ℕ) (o : Option Logical) (rows : List Logical) (id : String)
    → has_row id rows ≡ true
    → has_row id (add_row m upto o rows) ≡ true
unfolding add_row
add_row-keeps m upto none rows id h = h
add_row-keeps m upto (some d) rows id h =
    elim (Bool-cases
      ((same_model m logical_v2 || leb d.sequence upto) && not (any (same_row d) rows))) [
        | inl e ↦ rw e (any-append_left (λ (x : Logical). x.delivery_id == id) rows (d ∷ []) h)
        | inr e ↦ rw e h
      ]

has_row-same_row :
    (d : Logical) (rows : List Logical)
    → any (same_row d) rows ≡ true
    → has_row d.delivery_id rows ≡ true
unfolding same_row
has_row-same_row d [] h = cc
has_row-same_row d (x ∷ xs) h = ground (
  arith,
  has_row-same_row d xs,
  eq_iff d.delivery_id x.delivery_id,
  eq_iff x.delivery_id d.delivery_id,
)

add_row-has :
    (upto : ℕ) (d : Logical) (rows : List Logical)
    → has_row d.delivery_id (add_row logical_v2 upto (some d) rows) ≡ true
unfolding add_row same_model model_text
add_row-has upto d rows = elim (Bool-cases (any (same_row d) rows)) [
  | inl e ↦ rw e (has_row-same_row d rows e)
  | inr e ↦ rw e (
      any-append_last (λ (x : Logical). x.delivery_id == d.delivery_id) rows d
        ((eq_iff d.delivery_id d.delivery_id).1 refl))
]

receipt_rows_from-keeps :
    (m : DeliveryModel) (upto : ℕ) (s : Ops) (is : List IssuedItem) (rows : List Logical)
    (id : String)
    → has_row id rows ≡ true
    → has_row id (receipt_rows_from m upto s is rows) ≡ true
unfolding receipt_rows_from
receipt_rows_from-keeps m upto s [] rows id h = h
receipt_rows_from-keeps m upto s (i ∷ is) rows id h =
    receipt_rows_from-keeps m upto s is (add_row m upto (delivery_of m i.delivery_id s) rows) id
      (add_row-keeps m upto (delivery_of m i.delivery_id s) rows id h)

receipt_rows_from-has :
    (upto : ℕ) (s : Ops) (d : Logical) (is : List IssuedItem) (rows : List Logical)
    → find_logical d.delivery_id s.logical ≡ some d
    → any (λ i. i.delivery_id == d.delivery_id) is ≡ true
    → has_row d.delivery_id (receipt_rows_from logical_v2 upto s is rows) ≡ true
unfolding receipt_rows_from delivery_of
receipt_rows_from-has upto s d [] rows found h = cc
receipt_rows_from-has upto s d (i ∷ is) rows found h =
    elim (Bool-cases (i.delivery_id == d.delivery_id)) [
      | inl e ↦
          let here : find_logical i.delivery_id s.logical ≡ some d =
            rw ((eq_iff i.delivery_id d.delivery_id).0 e) found in
          rw here (
            receipt_rows_from-keeps logical_v2 upto s is (add_row logical_v2 upto (some d) rows)
              d.delivery_id (add_row-has upto d rows))
      | inr e ↦
          receipt_rows_from-has upto s d is
            (add_row logical_v2 upto (delivery_of logical_v2 i.delivery_id s) rows) found
            (rw e at h)
    ]

any-select :
    (hash id : String) (is : List IssuedItem)
    → any (λ i. i.cursor_hash == hash && i.delivery_id == id) is ≡ true
    → any (λ i. i.delivery_id == id) (select (λ i. i.cursor_hash == hash) is) ≡ true
any-select hash id [] h = cc
any-select hash id (i ∷ is) h = ground (arith, any-select hash id is)

items_of-has :
    (hash id : String) (s : Ops)
    → any (λ i. i.cursor_hash == hash && i.delivery_id == id) s.issued_items ≡ true
    → any (λ i. i.delivery_id == id) (items_of hash s) ≡ true
unfolding items_of
items_of-has hash id s h =
    rw
      (any-sort_by (λ (i : IssuedItem). i.delivery_id == id)
        (λ (a b : IssuedItem). leb a.sequence b.sequence)
        (select (λ i. i.cursor_hash == hash) s.issued_items))
      (any-select hash id s.issued_items h)

-- When a cursor of logical deliveries passes every check and is after the caller's position, then,
-- even if the answer is lost to the failpoint after the commit, the ledger of acknowledgements has
-- a row for the principal, the consumer and each delivery that the cursor was issued with and that
-- is still in the table of logical deliveries.
pub acknowledged_items_have_receipts :
    (env : InboxEnv) (p : Principal) (consumer token : String) (s : Ops) (t : Token) (row : Issued)
    (d : Logical)
    → Accepts env p consumer token s t row
    → row.delivery_model ≡ logical_v2
    → acked p.subject consumer s.cursors < t.sequence
    → find_logical d.delivery_id s.logical ≡ some d
    → any
        (λ i. i.cursor_hash == env.codec.digest token && i.delivery_id == d.delivery_id)
        s.issued_items
      ≡ true
    → has_receipt p.subject consumer d.delivery_id
        (acknowledge_inbox env p consumer token s).1.ack_receipts
      ≡ true
unfolding acknowledged commit_ack move_cursor receipt_rows
acknowledged_items_have_receipts env p consumer token s t row d h model advances found issued =
    let hash = env.codec.digest token in
    let current = acked p.subject consumer s.cursors in
    let passes : ltb current t.sequence ≡ true = ground arith in
    let upto = max current t.sequence in
    let rows = receipt_rows_from logical_v2 upto s (items_of hash s) [] in
    let left = acknowledge_inbox-state env p consumer token s t row h in
    let received : has_row d.delivery_id rows ≡ true =
      receipt_rows_from-has upto s d (items_of hash s) [] found
        (items_of-has hash d.delivery_id s issued) in
    rw (left, passes, acknowledged, commit_ack, model)
      (receive_all-has env p.subject consumer hash d.delivery_id rows s received)
