-- ===== src/Memory/Delivery/Tests.antt =====
-- Deliveries of a note about one agent and directed to another.
use a2a_superhub.Memory.Delivery.Backfill.{backfill_logical_deliveries}
use a2a_superhub.Memory.Delivery.Targets.{first_deliveries_reach_targets}
use a2a_superhub.Text.{has_char}
use a2a_superhub.Memory.Delivery.Rows.{DeliveryEnv}
use a2a_superhub.Auth.Bearer.{after_prefix}
use a2a_superhub.Memory.Delivery.Frozen.{later_deliveries_reach_first_targets}
use Prim.Native.String.{[], String}
use a2a_superhub.Memory.Delivery.Order.{is_for}
use a2a_superhub.Memory.Delivery.Routes.{find_snapshot}
use a2a_superhub.Prelude.{
  List, false, none, any, ◌∷◌, ◌≡◌, arith, [], String, ℕ, ok, some, true, ◌⊎◌, ◌==◌, refl,
}
use a2a_superhub.Memory.Ops.{Ops, Logical, empty}
use a2a_superhub.Memory.Notes.{Note}
use a2a_superhub.Memory.Delivery.Runs.{deliver_run, Generation, for_all, backfills}
use a2a_superhub.Memory.Delivery.Generate.{generate_for_note}

-- what a test by evaluation opens
program : Unit {0}
unfolding generate_for_note deliver_run
program = tt

abbrev env : DeliveryEnv
env = record {
  now = "2026-01-01T00:00:00Z";
  digest = λ text. text;
  is_generated_trace = λ trace. false;
  skipped = λ id. 0;
}

abbrev note : Note
note = record {
  id = "note_1";
  kind = "handoff";
  title = "Release";
  author = "agent.alpha";
  visibility = "direct:agent.beta";
  recorded_at = "2026-01-01T00:00:00Z";
  project = none;
  participants = [];
  about = "agent.gamma" ∷ "agent.alpha" ∷ [];
  supersedes = none;
  relations = [];
  body = "Done.";
}

-- a later version that is about another agent
abbrev edited : Note
edited = record note { about = "agent.delta" ∷ [] }

abbrev delivered : Ops
delivered = (generate_for_note env none note empty).1

-- beta, directed and handed off to, has one row with the sequence of the later reason
sequences : List Logical → List (String × ℕ)
sequences [] = []
sequences (d ∷ ds) = (d.recipient, d.sequence) ∷ sequences ds

generate_for_note-delivered :
    ((generate_for_note env none note empty).0 ≡ ok 2)
    × (sequences delivered.logical ≡ ("agent.beta", 2) ∷ ("agent.gamma", 3) ∷ [])
unfolding generate_for_note sequences
generate_for_note-delivered = (refl, refl)

-- again, and for the edited note, nothing is new
generate_for_note-again :
    ((generate_for_note env none note delivered).0 ≡ ok 0)
    × ((generate_for_note env none edited delivered).0 ≡ ok 0)
    × (sequences (generate_for_note env none edited delivered).1.logical
        ≡ ("agent.beta", 2) ∷ ("agent.gamma", 3) ∷ [])
unfolding generate_for_note sequences
generate_for_note-again = (refl, refl, refl)

-- a generation for the edited note alone comes between
abbrev edits : List Generation
edits = for_all env (edited ∷ []) ∷ backfills env ∷ []

later_deliveries_reach_first_targets_example :
    (any (is_for "note_1" "agent.gamma") (deliver_run edits delivered).logical ≡ true)
    ⊎ (("note_1" ≡ note.id)
        × (("agent.gamma" == "agent.alpha") ≡ false)
        × ((any (λ subject. subject == "agent.gamma") ("agent.gamma" ∷ "agent.alpha" ∷ []) ≡ true)
            ⊎ (after_prefix "direct:" "direct:agent.beta" ≡ some "agent.gamma")))
unfolding generate_for_note deliver_run find_snapshot
later_deliveries_reach_first_targets_example =
    later_deliveries_reach_first_targets [] edits env env none none note edited "note_1"
      "agent.gamma" refl refl refl

first_deliveries_reach_targets_example :
    (any (is_for "note_1" "agent.beta") [] ≡ true)
    ⊎ ((note.id ≡ note.id)
        × (("agent.beta" == "agent.alpha") ≡ false)
        × ((any (λ subject. subject == "agent.beta") ("agent.gamma" ∷ "agent.alpha" ∷ []) ≡ true)
            ⊎ (after_prefix "direct:" "direct:agent.beta" ≡ some "agent.beta")))
unfolding generate_for_note find_snapshot
first_deliveries_reach_targets_example =
    first_deliveries_reach_targets env none note empty "note_1" "agent.beta" (omega arith) refl refl

-- the separator of the texts that are hashed is the character 0
has_char-separator : has_char 0 "\0" ≡ true
unfolding has_char
has_char-separator = refl

-- a backfill gives rows that were written without logical ones the sequence of the last in a group
backfill-delivered :
    sequences (backfill_logical_deliveries env (record delivered { logical = [] })).logical
    ≡ ("agent.beta", 2) ∷ ("agent.gamma", 3) ∷ []
unfolding generate_for_note sequences backfill_logical_deliveries
backfill-delivered = refl
