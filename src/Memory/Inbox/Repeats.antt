-- ===== src/Memory/Inbox/Repeats.antt =====
-- Acknowledging one cursor twice.
use a2a_superhub.Memory.Inbox.Positions.{
  acknowledged-cursors, acked-advance, acked-acknowledged, acknowledge_inbox-state,
}
use a2a_superhub.Memory.Inbox.Outcome.{Accepts, acknowledged, acknowledge_inbox-accepted, respond}
use a2a_superhub.Memory.Inbox.Cursor.{Token}
use a2a_superhub.Auth.Bearer.{Principal}
use a2a_superhub.Memory.Ops.{Ops, acked, Issued}
use a2a_superhub.Memory.Inbox.Acknowledge.{InboxEnv, acknowledge_inbox, move_cursor, commit_ack}
use a2a_superhub.Prelude.{refl, ◌≡◌, String, ltb, false, ok, max, arith, inl, inr}

-- A cursor that has been committed passes the checks again.
Accepts-again :
    (env env' : InboxEnv) (p : Principal) (consumer token : String) (s : Ops) (t : Token)
    (row : Issued)
    → env'.codec ≡ env.codec
    → Accepts env p consumer token s t row
    → Accepts env' p consumer token (acknowledged env p consumer token t row s) t row
      × (ltb
            (acked p.subject consumer (acknowledged env p consumer token t row s).cursors)
            t.sequence
          ≡ false)
Accepts-again env env' p consumer token s t row codec h =
    let tables = acknowledged-cursors env p consumer token t row s in
    let passed : ltb (acked p.subject consumer (acknowledged env p consumer token t row s).cursors)
          t.sequence
        ≡ false =
      rw
        (
          tables.0,
          acked-advance p.subject consumer (max (acked p.subject consumer s.cursors) t.sequence)
              env.now s.cursors,
        )
        (ground arith) in
    (
      record {
        allowed = h.allowed;
        decoded = rw codec h.decoded;
        issued = rw (codec, tables.1) h.issued;
        version = h.version;
        binding = h.binding;
        purpose = ground (arith, passed);
      },
      passed,
    )

-- what a second acknowledgement leaves: only the time of the position is new
unfoldable pub IsUnmoved : Ops → Ops → Type 0
IsUnmoved s s' =
    (s' ≡ record s { cursors = s'.cursors })
    × ((q k : String) → acked q k s'.cursors ≡ acked q k s.cursors)

acknowledged-IsUnmoved :
    (env : InboxEnv) (p : Principal) (consumer token : String) (s : Ops) (t : Token) (row : Issued)
    → ltb (acked p.subject consumer s.cursors) t.sequence ≡ false
    → IsUnmoved s (acknowledged env p consumer token t row s)
unfolding IsUnmoved acknowledged move_cursor commit_ack
acknowledged-IsUnmoved env p consumer token s t row passed =
    let kept : acknowledged env p consumer token t row s
        ≡ move_cursor env p.subject consumer (max (acked p.subject consumer s.cursors) t.sequence)
            s =
      rw (acknowledged, commit_ack, passed) refl in
    (
      rw (kept, move_cursor) refl,
      λ q k. elim (acked-acknowledged env p consumer token t row s q k) [
        | inl (other, same) ↦ same
        | inr (q_is, k_is, moved) ↦
            let passed' : ltb (acked q k s.cursors) t.sequence ≡ false = rw (q_is, k_is) passed in
            ground (arith, moved)
      ],
    )

-- When a call has been made with a cursor that passes every check, its answer lost to the failpoint
-- after the commit or not, the next call with that cursor, with the same codec and no failpoint,
-- answers that nothing was acknowledged. It leaves every table as the first call did, receipts
-- included, but the positions, and these stand where they stood for every consumer.
pub acknowledge_inbox_again :
    (env env' : InboxEnv) (p : Principal) (consumer token : String) (s : Ops) (t : Token)
    (row : Issued)
    → env'.codec ≡ env.codec
    → env'.failpoint "after_ack_commit_before_response" ≡ false
    → Accepts env p consumer token s t row
    → (s' : Ops) × (acknowledge_inbox env' p consumer token
          (acknowledge_inbox env p consumer token s).1
        ≡ (ok false, s'))
      × IsUnmoved (acknowledge_inbox env p consumer token s).1 s'
unfolding respond
acknowledge_inbox_again env env' p consumer token s t row codec answers h =
    let s1 = acknowledged env p consumer token t row s in
    let left = acknowledge_inbox-state env p consumer token s t row h in
    let (h', passed) = Accepts-again env env' p consumer token s t row codec h in
    (
      acknowledged env' p consumer token t row s1,
      rw
          (
            left,
            acknowledge_inbox-accepted env' p consumer token s1 t row h',
            passed,
            respond,
            answers,
          )
          refl,
      rw left (acknowledged-IsUnmoved env' p consumer token s1 t row passed),
    )
