-- ===== src/Memory/Delivery/Generate.antt =====
-- `_generate_deliveries_for_note`, `generate_deliveries`, `_generate_all_deliveries`.
use Prim.Native.String
use a2a_superhub.Prelude.{
  ◌>>◌, ◌>>=◌, modify, pure, gets, lift, false, length, ◌==◌, true, String, Option, List, sort_by,
  Bool, Exec, ℕ, Result, text_leb, ◌∷◌, ◌+◌, if◌then◌else◌, err, ok, transaction, [], not, ◌&&◌,
  some, map_ok, max, none, ◌++◌,
}
use a2a_superhub.Json.{obj, entry, str, int, no_entries}
use a2a_superhub.Memory.Notes.{Note, MemoryError, type_error, value_error}
use a2a_superhub.Memory.Ops.{Route, Delivery, insert_receipt, Ops, Receipt, Logical}
use a2a_superhub.Memory.Delivery.Routes.{sort_routes, snapshotted_targets}
use a2a_superhub.Memory.Delivery.Rows.{
  delivery_id_of, insert_delivery, find_delivery, insert_alias, insert_logical, DeliveryEnv,
  raise_high_water, logical_delivery_id, retrace, insert_reason, is_new_logical, retrace_logical,
}
use a2a_superhub.Text.{first_chars}
use a2a_superhub.Dict.{lookup, put}
use Prim.Native.String.{String, ◌∷◌, []}

-- `grouped.setdefault(recipient, []).append(reason)`, over the routes
unfoldable pub group_by_recipient :
    List (String × List String) → List Route → List (String × List String)
unfolding lookup put
group_by_recipient done [] = done
group_by_recipient done (r ∷ rs) =
    group_by_recipient
      (put r.recipient
        (elim (lookup r.recipient done) [
          | none ↦ r.reason ∷ []
          | some reasons ↦ reasons ++ r.reason ∷ []
        ])
        done)
      rs

-- the trace of the rows, and whether it was given
pub record Trace : Type 0 where
  pub text : String
  pub is_supplied : Bool

-- `trace_id or f"trace_delivery_{…}"`
unfoldable pub trace_for : DeliveryEnv → String → Option String → Trace
unfolding first_chars
trace_for env note_id given =
    let generated : String = String.◌++◌ "trace_delivery_" (first_chars 16 (env.digest note_id)) in
    elim given [
      | none ↦ record { text = generated; is_supplied = false }
      | some text ↦ record { text = if text == "" then generated else text; is_supplied = true }
    ]

-- the row for a route
unfoldable pub delivery_row : DeliveryEnv → String → Trace → Route → Ops → Delivery
unfolding delivery_id_of
delivery_row env note_id trace r s =
    let id = delivery_id_of env note_id r in
    record {
      sequence = s.last_delivery + 1 + env.skipped id;
      delivery_id = id;
      note_id = note_id;
      recipient = r.recipient;
      reason = r.reason;
      trace_id = trace.text;
      created_at = env.now;
    }

-- the trace of a row that was there already
unfoldable pub set_trace : DeliveryEnv → Trace → String → Ops × Bool → Ops
unfolding retrace
set_trace env trace id (s, is_new) =
    if not is_new && trace.is_supplied
    then record s { deliveries = retrace env trace.text id s.deliveries }
    else s

-- a route is stored, or the trace of the row that is there is set
unfoldable pub store_route : DeliveryEnv → String → Trace → Route → Ops → Ops
unfolding delivery_row insert_delivery set_trace delivery_id_of
store_route env note_id trace r s =
    set_trace env trace (delivery_id_of env note_id r)
      (insert_delivery (delivery_row env note_id trace r s) s)

-- the loop over the reasons of a recipient
unfoldable pub store_reasons :
    DeliveryEnv
    → String
    → Trace
    → String
    → List String
    → Exec MemoryError Ops (List (Option Delivery))
unfolding store_route find_delivery delivery_id_of
store_reasons env note_id trace recipient [] = pure []
store_reasons env note_id trace recipient (reason ∷ rest) =
    let r : Route = record { recipient = recipient; reason = reason } in
    do
      modify (store_route env note_id trace r)
      alias ← gets (λ s. find_delivery (delivery_id_of env note_id r) s.deliveries)
      aliases ← store_reasons env note_id trace recipient rest
      pure (alias ∷ aliases)

add_found :
    Option Delivery → Result MemoryError (List Delivery) → Result MemoryError (List Delivery)
add_found none rest = err type_error
add_found (some d) (err e) = err e
add_found (some d) (ok ds) = ok (d ∷ ds)

-- a row that is missing is `None`, which has no sequence
unfoldable pub all_found : List (Option Delivery) → Result MemoryError (List Delivery)
unfolding add_found
all_found [] = ok []
all_found (found ∷ rest) = add_found found (all_found rest)

-- `max` of the sequences
unfoldable pub latest : List Delivery → Result MemoryError ℕ
latest [] = err value_error
latest (d ∷ []) = ok d.sequence
latest (d ∷ rest) = map_ok (max d.sequence) (latest rest)

-- the loop over the aliases
unfoldable pub store_aliases : String → List Delivery → Ops → Ops
unfolding insert_alias insert_reason
store_aliases id [] s = s
store_aliases id (d ∷ ds) s = store_aliases id ds (record s {
  aliases =
      insert_alias
        (record {
          legacy_delivery_id = d.delivery_id;
          delivery_id = id;
          legacy_sequence = d.sequence;
          reason = d.reason;
        })
        s.aliases;
  reasons = insert_reason (record { delivery_id = id; reason = d.reason }) s.reasons;
})

-- the insert of the logical row, or the update of its trace
unfoldable pub store_logical : DeliveryEnv → Trace → Logical → Ops → Ops
unfolding insert_logical is_new_logical retrace_logical
store_logical env trace d s =
    if is_new_logical d s.logical
    then record s { logical = insert_logical d s.logical }
    else if trace.is_supplied
    then record s { logical = retrace_logical env trace.text d.delivery_id s.logical }
    else s

delivery_receipt : DeliveryEnv → Note → Trace → String → String → ℕ → Receipt
delivery_receipt env note trace id recipient count = record {
  trace_id = trace.text;
  phase = "delivery";
  operation_id = id;
  subject = note.author;
  status = "queued";
  created_at = env.now;
  metadata = obj (
      entry "noteId" (str note.id)
        (entry "recipient" (str recipient) (entry "count" (int false count) no_entries)));
}

-- the rows that follow the deliveries of a recipient
unfoldable pub finish_recipient :
    DeliveryEnv → Note → Trace → Logical → List Delivery → ℕ → Bool → Ops → Ops
unfolding store_logical store_aliases raise_high_water delivery_receipt insert_receipt
finish_recipient env note trace d aliases count is_new s =
    let s1 = store_aliases d.delivery_id aliases (store_logical env trace d s) in
    let s2 : Ops = record s1 { high_water = raise_high_water d.sequence s1.high_water } in
    if is_new
    then record s2 {
      receipts =
          insert_receipt (delivery_receipt env note trace d.delivery_id d.recipient count)
            s2.receipts;
    }
    else s2

unfoldable pub logical_row : DeliveryEnv → String → Trace → String → ℕ → Logical
unfolding logical_delivery_id
logical_row env note_id trace recipient sequence = record {
  sequence = sequence;
  delivery_id = logical_delivery_id env note_id recipient;
  note_id = note_id;
  recipient = recipient;
  trace_id = trace.text;
  created_at = env.now;
}

-- the rows for one recipient, on the deliveries that were found
unfoldable pub deliver_found :
    DeliveryEnv → Note → Trace → String → ℕ → List (Option Delivery) → Exec MemoryError Ops ℕ
unfolding all_found latest logical_row is_new_logical finish_recipient
deliver_found env note trace recipient count found = do
  aliases ← lift (all_found found)
  sequence ← lift (latest aliases)
  let d = logical_row env note.id trace recipient sequence
  is_new ← gets (λ s. is_new_logical d s.logical)
  modify (finish_recipient env note trace d aliases count is_new)
  pure (if is_new then 1 else 0)

-- the deliveries to one recipient, and how many rows are new
unfoldable pub deliver_to :
    DeliveryEnv → Note → Trace → String → List String → Exec MemoryError Ops ℕ
unfolding sort_by store_reasons deliver_found
deliver_to env note trace recipient reasons = do
  found ← store_reasons env note.id trace recipient (sort_by text_leb reasons)
  deliver_found env note trace recipient (length reasons) found

unfoldable pub deliver_all :
    DeliveryEnv → Note → Trace → List (String × List String) → Exec MemoryError Ops ℕ
unfolding deliver_to
deliver_all env note trace [] = pure 0
deliver_all env note trace ((recipient, reasons) ∷ rest) = do
  inserted ← deliver_to env note trace recipient reasons
  more ← deliver_all env note trace rest
  pure (inserted + more)

-- the recipients with their reasons, in order
unfoldable pub recipients_of : List Route → List (String × List String)
unfolding group_by_recipient sort_routes sort_by
recipients_of routes =
    sort_by (λ (a b : String × List String). text_leb a.0 b.0)
      (group_by_recipient [] (sort_routes routes))

-- `apply`: `_generate_deliveries_for_note` on a connection
unfoldable pub generate_for_note : DeliveryEnv → Option String → Note → Exec MemoryError Ops ℕ
unfolding snapshotted_targets recipients_of trace_for deliver_all
generate_for_note env trace note = do
  routes ← snapshotted_targets env.now note
  deliver_all env note (trace_for env note.id trace) (recipients_of routes)

-- `generate_deliveries`, over the reading of the note's file
unfoldable pub generate_deliveries :
    DeliveryEnv
    → Bool
    → (String → Result MemoryError Note)
    → String
    → Option String
    → Exec MemoryError Ops ℕ
unfolding generate_for_note
generate_deliveries env enabled read id trace =
    if not enabled
    then pure 0
    else do note ← lift (read id); transaction (generate_for_note env trace note)

unfoldable pub generate_each : DeliveryEnv → List Note → Exec MemoryError Ops ℕ
unfolding generate_for_note
generate_each env [] = pure 0
generate_each env (note ∷ notes) = do
  inserted ← generate_for_note env none note
  more ← generate_each env notes
  pure (inserted + more)

-- `_generate_all_deliveries`, over the notes that were scanned
unfoldable pub generate_all : DeliveryEnv → List Note → Exec MemoryError Ops ℕ
unfolding generate_each
generate_all env notes = transaction (generate_each env notes)
