-- ===== src/Store/Outbox.antt =====
-- The terminal outbox of `HubStore`: reading what is pending, and acknowledging it.
use a2a_superhub.Prelude.{
  String, Bool, true, false, Option, none, some, List, [], ◌∷◌, ◌==◌, any, select, sort_by,
  text_leb, if◌then◌else◌, ok, Exec,
}
use a2a_superhub.Models.{Exn}
use a2a_superhub.Store.Tables.{Store, OutboxRow, OperationId, same_operation}

is_pending : OutboxRow → Bool
is_pending row = elim row.acknowledged_at [ none ↦ true | some _ ↦ false ]

-- `ORDER BY created_at, operation_id`; the order of two operation ids is a parameter, `le`
unfoldable pub list_terminal_outbox :
    (OperationId → OperationId → Bool) → Bool → Store → List OutboxRow
unfolding is_pending sort_by
list_terminal_outbox le pending_only s =
    sort_by
      (λ a b.
        if a.created_at == b.created_at
        then le a.operation_id b.operation_id
        else text_leb a.created_at b.created_at)
      (if pending_only then select is_pending s.outbox else s.outbox)

coalesce : Option String → String → Option String
coalesce none at = some at
coalesce (some old) at = some old

-- `UPDATE … SET acknowledged_at = COALESCE(acknowledged_at, ?) WHERE operation_id = ?`
unfoldable pub acknowledge_rows : OperationId → String → List OutboxRow → List OutboxRow
unfolding same_operation coalesce
acknowledge_rows id at [] = []
acknowledge_rows id at (row ∷ rows) =
    (if same_operation row.operation_id id
      then record row { acknowledged_at = coalesce row.acknowledged_at at }
      else row)
    ∷ acknowledge_rows id at rows

or_now : Option String → String → String
or_now none now = now
or_now (some text) now = if text == "" then now else text

-- `rowcount == 1`: the operation id is the primary key, so at most one row matches
unfoldable pub acknowledge_terminal_outbox :
    String → OperationId → Option String → Exec Exn Store Bool
unfolding acknowledge_rows or_now
acknowledge_terminal_outbox now id acknowledged_at s = (
  ok (any (λ row. same_operation row.operation_id id) s.outbox),
  record s { outbox = acknowledge_rows id (or_now acknowledged_at now) s.outbox },
)
