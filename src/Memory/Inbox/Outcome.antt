-- ===== src/Memory/Inbox/Outcome.antt =====
-- What a call of `acknowledge_inbox` does: it is refused and changes nothing, or a cursor that was
-- issued to the caller is committed.
use a2a_superhub.Models.{runtime_error}
use a2a_superhub.Memory.Notes.{
  MemoryError, runtime_error, cursor_invalid, forbidden, cursor_refresh_required,
}
use a2a_superhub.Memory.Inbox.Cursor.{Token, decode_cursor}
use a2a_superhub.Memory.Ops.{Ops, DeliveryModel, Issued, acked, unknown_kind}
use a2a_superhub.Auth.Bearer.{Principal}
use a2a_superhub.Memory.Inbox.Acknowledge.{
  InboxEnv, commit_ack, acknowledge_inbox, acknowledge_token, acknowledge_issued, may_use_inbox,
  find_issued, same_model, same_kind,
}
use a2a_superhub.Prelude.{
  false, refl, ℕ, String, Bool, ◌≡◌, Result, ok, ltb, true, if◌then◌else◌, Bool-cases, err, inl,
  some, inr, eqb, ◌&&◌, not, ◌||◌, false, raise_if, ◌⊎◌, ◌>>◌, pure, Result-cases, Option-cases,
}

-- the cursor passes every check
pub record Accepts (env : InboxEnv) (p : Principal) (consumer token : String) (s : Ops) (t : Token)
    (row : Issued) : Type 0 where
  pub allowed : may_use_inbox p consumer ≡ true
  pub decoded : decode_cursor env.codec token p.subject consumer ≡ ok t
  pub issued :
      find_issued (env.codec.digest token) p.subject consumer t.sequence s.issued ≡ some row
  pub version : eqb row.token_version t.version ≡ true
  pub binding :
      (eqb t.version 2
        && (not (same_model row.delivery_model t.model) || not (same_kind row.cursor_kind t.kind)))
      ≡ false
  pub purpose :
      (same_kind row.cursor_kind unknown_kind
        && ltb (acked p.subject consumer s.cursors) t.sequence)
      ≡ false

-- the state that an accepted cursor leaves
unfoldable pub acknowledged : InboxEnv → Principal → String → String → Token → Issued → Ops → Ops
acknowledged env p consumer token t row s =
    (commit_ack env p.subject consumer (env.codec.digest token) row.delivery_model t.sequence s).1

commit_ack-eq :
    (env : InboxEnv) (p consumer hash : String) (m : DeliveryModel) (n : ℕ) (s : Ops)
    → (commit_ack env p consumer hash m n s)
      ≡ (ok (ltb (acked p consumer s.cursors) n), (commit_ack env p consumer hash m n s).1)
unfolding commit_ack
commit_ack-eq env p consumer hash m n s = elim (Bool-cases (ltb (acked p consumer s.cursors) n)) [
  | inl e ↦ rw e refl
  | inr e ↦ rw e refl
]

-- the failpoint after the commit
unfoldable pub respond : InboxEnv → Bool → Ops → Result MemoryError Bool × Ops
respond env advanced s =
    if env.failpoint "after_ack_commit_before_response"
    then (err runtime_error, s)
    else (ok advanced, s)

respond-eq :
    (env : InboxEnv) (advanced : Bool) (s : Ops)
    → (raise_if {S = Ops} (env.failpoint "after_ack_commit_before_response") runtime_error
          >> pure advanced)
        s
      ≡ respond env advanced s
unfolding respond
respond-eq env advanced s = elim (Bool-cases (env.failpoint "after_ack_commit_before_response")) [
  | inl e ↦ rw e refl
  | inr e ↦ rw e refl
]

pub acknowledge_inbox-accepted :
    (env : InboxEnv) (p : Principal) (consumer token : String) (s : Ops) (t : Token) (row : Issued)
    → Accepts env p consumer token s t row
    → acknowledge_inbox env p consumer token s
      ≡ respond env
          (ltb (acked p.subject consumer s.cursors) t.sequence)
          (acknowledged env p consumer token t row s)
unfolding acknowledge_inbox acknowledge_token acknowledge_issued acknowledged
acknowledge_inbox-accepted env p consumer token s t row h =
    rw
      (
        h.allowed,
        h.decoded,
        h.issued,
        h.version,
        h.binding,
        h.purpose,
        commit_ack-eq env p.subject consumer (env.codec.digest token) row.delivery_model t.sequence
            s,
      )
      (respond-eq env (ltb (acked p.subject consumer s.cursors) t.sequence)
        (acknowledged env p consumer token t row s))

-- the state does not change
abbrev pub Refused : Result MemoryError Bool × Ops → Ops → Type 0
Refused result s = (e : MemoryError) × (result ≡ (err e, s))

acknowledge_issued-cases :
    (env : InboxEnv) (p consumer hash : String) (t : Token) (row : Issued) (s : Ops)
    → Refused (acknowledge_issued env p consumer hash t (some row) s) s
      ⊎ ((eqb row.token_version t.version ≡ true)
          × ((eqb t.version 2
                && (not (same_model row.delivery_model t.model)
                    || not (same_kind row.cursor_kind t.kind)))
              ≡ false)
          × ((same_kind row.cursor_kind unknown_kind && ltb (acked p consumer s.cursors) t.sequence)
              ≡ false))
unfolding acknowledge_issued
acknowledge_issued-cases env p consumer hash t row s =
    elim (Bool-cases (eqb row.token_version t.version)) [
      | inr e ↦ inl (cursor_invalid, rw e refl)
      | inl e ↦
          elim (Bool-cases (
            eqb t.version 2
            && (not (same_model row.delivery_model t.model)
                || not (same_kind row.cursor_kind t.kind)))) [
                  | inl e' ↦ inl (cursor_invalid, rw (e, e') refl)
                  | inr e' ↦
                      elim (Bool-cases (
                        same_kind row.cursor_kind unknown_kind
                        && ltb (acked p consumer s.cursors) t.sequence)) [
                          | inl e'' ↦ inl (cursor_refresh_required, rw (e, e', e'') refl)
                          | inr e'' ↦ inr (e, e', e'')
                        ]
                ]
    ]

pub acknowledge_inbox-cases :
    (env : InboxEnv) (p : Principal) (consumer token : String) (s : Ops)
    → Refused (acknowledge_inbox env p consumer token s) s
      ⊎ ((t : Token) × (row : Issued) × Accepts env p consumer token s t row)
unfolding acknowledge_inbox acknowledge_token
acknowledge_inbox-cases env p consumer token s = elim (Bool-cases (may_use_inbox p consumer)) [
  | inr e ↦ inl (forbidden, rw e refl)
  | inl e ↦ elim (Result-cases (decode_cursor env.codec token p.subject consumer)) [
    | inl (x, no_token) ↦ inl (x, rw (e, no_token) refl)
    | inr (t, found) ↦
        elim (Option-cases
          (find_issued (env.codec.digest token) p.subject consumer t.sequence s.issued)) [
            | inl none_issued ↦ inl (cursor_invalid, rw (e, found, none_issued) refl)
            | inr (row, issued) ↦
                elim (acknowledge_issued-cases env p.subject consumer (env.codec.digest token) t row
                  s) [
                    | inl (x, refused) ↦ inl (x, rw (e, found, issued, refused) refl)
                    | inr (version, binding, purpose) ↦ inr (
                      t,
                      row,
                      record {
                        allowed = e;
                        decoded = found;
                        issued = issued;
                        version = version;
                        binding = binding;
                        purpose = purpose;
                      },
                    )
                  ]
          ]
  ]
]
