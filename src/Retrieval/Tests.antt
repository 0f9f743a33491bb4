-- ===== src/Retrieval/Tests.antt =====
-- Cuts of small texts.
use a2a_superhub.Text.{count_chars}
use a2a_superhub.Retrieval.Cover.{IsCover, deterministic_chunks-covers}
use a2a_superhub.Prelude.{String, List, ℕ, ◌≡◌, pos, ◌∷◌, ok, err, [], refl, some, arith}
use a2a_superhub.Retrieval.{
  deterministic_chunks, ChunkNote, chunk_text, spans, invalid_chunk_size, make_chunks, count_chars,
}
use Prim.Native.String.{String, []}

program : Unit {0}
unfolding deterministic_chunks spans
program = tt

abbrev note : ChunkNote
note = record {
  id = "n1";
  title = "";
  author = "agent.alpha";
  project = "";
  tags = "x" ∷ "y" ∷ [];
  relative_path = "";
  body = "one two three four five\r\nsix seven eight nine ten ";
}

abbrev digest : String → ℕ → String → String
digest id ordinal content = id

chunk_text-note :
    chunk_text note ≡ "n1\nagent.alpha\nx y\none two three four five\nsix seven eight nine ten"
unfolding chunk_text
chunk_text-note = refl

-- chunks of at most 40 characters that overlap by 5, cut at spaces and line ends
deterministic_chunks-note :
    deterministic_chunks digest note (pos 40) (pos 5)
    ≡ ok (
        some (
          record {
            chunk_id = "chk_n1";
            note_id = "n1";
            ordinal = 0;
            text = "n1\nagent.alpha\nx y\none two three four";
          }
          ∷ record {
            chunk_id = "chk_n1";
            note_id = "n1";
            ordinal = 1;
            text = "four five\nsix seven eight nine ten";
          }
          ∷ []))
unfolding deterministic_chunks
deterministic_chunks-note = refl

deterministic_chunks-invalid :
    deterministic_chunks digest note (pos 40) (pos 40) ≡ err invalid_chunk_size
unfolding deterministic_chunks
deterministic_chunks-invalid = refl

deterministic_chunks-covers_example :
    (slices : List (ℕ × ℕ)) × (deterministic_chunks digest note (pos 40) (pos 5)
      ≡ ok (some (make_chunks digest "n1" (chunk_text note) 0 slices)))
    × IsCover (count_chars (chunk_text note)) 40 0 slices
deterministic_chunks-covers_example =
    deterministic_chunks-covers digest note 40 5 (omega arith) (omega arith)
