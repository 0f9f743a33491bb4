-- ===== src/Memory/Inbox/Positions.antt =====
-- The positions of consumers: how an acknowledgement moves them.
use a2a_superhub.Memory.Notes.{MemoryError}
use a2a_superhub.Memory.Inbox.Cursor.{Token, decode_cursor}
use a2a_superhub.Auth.Bearer.{Principal}
use a2a_superhub.Memory.Inbox.Outcome.{
  acknowledged, respond, acknowledge_inbox-cases, acknowledge_inbox-accepted, Accepts,
}
use a2a_superhub.Memory.Inbox.Acknowledge.{
  receive_all, InboxEnv, commit_ack, move_cursor, receive, receipt_rows, acknowledge_inbox,
  find_issued,
}
use a2a_superhub.Memory.Ops.{acked, advance, ConsumerCursor, Logical, Ops, Issued}
use a2a_superhub.Prelude.{
  refl, String, ℕ, List, ◌≡◌, ◌==◌, max, ◌&&◌, ◌∷◌, arith, false, Bool-cases, eq_iff, inl, ltb, [],
  inr, ◌⊎◌, Bool, sym, ◌<◌, ok, some, ap, Result, ◌∙◌,
}

pub acked-advance :
    (p c : String) (n : ℕ) (now : String) (cs : List ConsumerCursor)
    → acked p c (advance p c n now cs) ≡ max (acked p c cs) n
unfolding acked advance
acked-advance p c n now [] = ground (arith, (eq_iff p p).1 refl, (eq_iff c c).1 refl)
acked-advance p c n now (x ∷ xs) = ground (arith, acked-advance p c n now xs)

acked-advance_other :
    (p c q k : String) (n : ℕ) (now : String) (cs : List ConsumerCursor)
    → (p == q && c == k) ≡ false
    → acked q k (advance p c n now cs) ≡ acked q k cs
unfolding acked advance
acked-advance_other p c q k n now [] h = rw h refl
acked-advance_other p c q k n now (x ∷ xs) h =
    elim (Bool-cases (x.principal == p && x.consumer_id == c)) [
      | inl e ↦
          let other : (x.principal == q && x.consumer_id == k) ≡ false =
            ground (arith, eq_iff x.principal p, eq_iff x.consumer_id c) in
          rw (e, other) refl
      | inr e ↦ ground (arith, acked-advance_other p c q k n now xs h)
    ]

receive_all-cursors :
    (env : InboxEnv) (p c hash : String) (ds : List Logical) (s : Ops)
    → ((receive_all env p c hash ds s).cursors ≡ s.cursors)
      × ((receive_all env p c hash ds s).issued ≡ s.issued)
unfolding receive_all
receive_all-cursors env p c hash [] s = (refl, refl)
receive_all-cursors env p c hash (d ∷ ds) s =
    receive_all-cursors env p c hash ds (receive env p c hash d s)

-- the tables that an accepted cursor leaves
pub acknowledged-cursors :
    (env : InboxEnv) (p : Principal) (consumer token : String) (t : Token) (row : Issued) (s : Ops)
    → ((acknowledged env p consumer token t row s).cursors
        ≡ advance p.subject consumer
            (max (acked p.subject consumer s.cursors) t.sequence)
            env.now
            s.cursors)
      × ((acknowledged env p consumer token t row s).issued ≡ s.issued)
unfolding acknowledged commit_ack move_cursor
acknowledged-cursors env p consumer token t row s =
    elim (Bool-cases (ltb (acked p.subject consumer s.cursors) t.sequence)) [
      | inr e ↦ rw (e, acknowledged, commit_ack) (refl, refl)
      | inl e ↦
          let kept =
            receive_all-cursors env p.subject consumer (env.codec.digest token)
              (receipt_rows row.delivery_model (max (acked p.subject consumer s.cursors) t.sequence)
                (env.codec.digest token) s)
              s in
          rw (e, acknowledged, commit_ack, kept.0, kept.1) (refl, refl)
    ]

respond-state : (env : InboxEnv) (b : Bool) (s : Ops) → (respond env b s).1 ≡ s
unfolding respond
respond-state env b s = elim (Bool-cases (env.failpoint "after_ack_commit_before_response")) [
  | inl e ↦ rw e refl
  | inr e ↦ rw e refl
]

-- the state after a call whose cursor is accepted, whatever the failpoint does
pub acknowledge_inbox-state :
    (env : InboxEnv) (p : Principal) (consumer token : String) (s : Ops) (t : Token) (row : Issued)
    → Accepts env p consumer token s t row
    → (acknowledge_inbox env p consumer token s).1 ≡ acknowledged env p consumer token t row s
acknowledge_inbox-state env p consumer token s t row h =
    ap (λ (x : Result MemoryError Bool × Ops). x.1)
      (acknowledge_inbox-accepted env p consumer token s t row h)
    ∙ respond-state env (ltb (acked p.subject consumer s.cursors) t.sequence)
        (acknowledged env p consumer token t row s)

-- the position that an accepted cursor leaves to any consumer
pub acked-acknowledged :
    (env : InboxEnv) (p : Principal) (consumer token : String) (t : Token) (row : Issued) (s : Ops)
    (q k : String)
    → ((p.subject == q && consumer == k) ≡ false)
        × (acked q k (acknowledged env p consumer token t row s).cursors ≡ acked q k s.cursors)
      ⊎ (q ≡ p.subject)
        × (k ≡ consumer)
        × (acked q k (acknowledged env p consumer token t row s).cursors
            ≡ max (acked q k s.cursors) t.sequence)
acked-acknowledged env p consumer token t row s q k =
    let current = acked p.subject consumer s.cursors in
    elim (Bool-cases (p.subject == q && consumer == k)) [
      | inr other ↦ inl (
        other,
        rw (acknowledged-cursors env p consumer token t row s).0 (
            acked-advance_other p.subject consumer q k (max current t.sequence) env.now s.cursors
              other),
      )
      | inl own ↦
          let q_is : p.subject ≡ q = ground (arith, eq_iff p.subject q) in
          let k_is : consumer ≡ k = ground (arith, eq_iff consumer k) in
          let moved : acked p.subject consumer (acknowledged env p consumer token t row s).cursors
              ≡ max current (max current t.sequence) =
            rw (acknowledged-cursors env p consumer token t row s).0
              (acked-advance p.subject consumer (max current t.sequence) env.now s.cursors) in
          inr (sym q_is, sym k_is, rw (← q_is, ← k_is) (omega (arith, moved)))
    ]

-- Whatever a call of `acknowledge_inbox` does, raising included, the position of a consumer of a
-- principal stays, or it is the caller's own and moves up, to the sequence of a token that decodes
-- for the caller and that the ledger of issued cursors has for them.
pub acknowledge_inbox_moves_own_position :
    (env : InboxEnv) (p : Principal) (consumer token : String) (s : Ops) (q k : String)
    → (acked q k (acknowledge_inbox env p consumer token s).1.cursors ≡ acked q k s.cursors)
      ⊎ ((q ≡ p.subject)
          × (k ≡ consumer)
          × (acked q k s.cursors < acked q k (acknowledge_inbox env p consumer token s).1.cursors)
          × (t : Token) × (row : Issued) × (acked q k
                (acknowledge_inbox env p consumer token s).1.cursors
              ≡ t.sequence)
          × (decode_cursor env.codec token p.subject consumer ≡ ok t)
          × (find_issued (env.codec.digest token) p.subject consumer t.sequence s.issued
              ≡ some row))
acknowledge_inbox_moves_own_position env p consumer token s q k =
    elim (acknowledge_inbox-cases env p consumer token s) [
      | inl (e, refused) ↦ inl (rw refused refl)
      | inr (t, row, h) ↦
          let left = acknowledge_inbox-state env p consumer token s t row h in
          elim (acked-acknowledged env p consumer token t row s q k) [
            | inl (other, same) ↦ inl (rw left same)
            | inr (q_is, k_is, moved) ↦ elim (Bool-cases (ltb (acked q k s.cursors) t.sequence)) [
              | inr stays ↦ inl (rw left (ground (arith, moved)))
              | inl moves ↦ inr (
                  rw left (
                    q_is,
                    k_is,
                    ground (arith, moved),
                    t,
                    row,
                    ground (arith, moved),
                    h.decoded,
                    h.issued,
                  ))
            ]
          ]
    ]
