-- ===== src/Artifacts/Checks.antt =====
-- The checks of arguments. An argument that comes from a request is a JSON value.
use a2a_superhub.Memory.Notes.{is_principal_id}
use a2a_superhub.Artifacts.Tables.{ArtifactEnv, ArtifactExn, artifact_error}
use a2a_superhub.Text.{is_hex_of, count_chars, has_char}
use a2a_superhub.Json.{Value, ◌or◌, obj, entry, str, bool, no_entries, null}
use a2a_superhub.Auth.Bearer.{after_prefix}
use a2a_superhub.Prelude.{
  false, some, none, String, Result, Option, Bool, ◌==◌, if◌then◌else◌, ok, ◌||◌, not, map_ok, err,
  ltb,
}

unfoldable pub is_artifact_id : String → Bool
unfolding after_prefix is_hex_of
is_artifact_id text = elim (after_prefix "art_" text) [
  | none ↦ false
  | some rest ↦ is_hex_of 32 rest
]

unfoldable pub is_upload_id : String → Bool
unfolding after_prefix is_hex_of
is_upload_id text = elim (after_prefix "upl_" text) [ none ↦ false | some rest ↦ is_hex_of 32 rest ]

-- `VISIBILITY.fullmatch`
unfoldable pub is_visibility : String → Bool
unfolding after_prefix is_principal_id
is_visibility text =
    text == "private"
    || text == "shared"
    || elim (after_prefix "direct:" text) [ none ↦ false | some rest ↦ is_principal_id rest ]

unfoldable pub validate_visibility : Value → Result ArtifactExn String
unfolding is_visibility
validate_visibility (str text) = if not (is_visibility text) then err artifact_error else ok text
validate_visibility _ = err artifact_error

-- `_validate_digest`, of a text
unfoldable pub validate_digest : ArtifactEnv → String → Result ArtifactExn String
unfolding is_hex_of
validate_digest env text =
    let folded = env.casefold text in
    if not (is_hex_of 64 folded) then err artifact_error else ok folded

-- `self._validate_digest(text) if text else None`
unfoldable pub validate_expected : ArtifactEnv → Option String → Result ArtifactExn (Option String)
unfolding validate_digest
validate_expected env none = ok none
validate_expected env (some text) =
    if text == "" then ok none else map_ok some (validate_digest env text)

unfoldable pub validate_filename : Value → Result ArtifactExn (Option String)
unfolding count_chars has_char
validate_filename null = ok none
validate_filename (str text) =
    if text == "" || ltb 255 (count_chars text) || has_char 0 text
    then err artifact_error
    else ok (some text)
validate_filename _ = err artifact_error

unfoldable pub validate_media_type : Value → Result ArtifactExn String
unfolding count_chars has_char
validate_media_type (str text) =
    if text == "" || ltb 255 (count_chars text) || has_char 13 text || has_char 10 text
    then err artifact_error
    else ok text
validate_media_type _ = err artifact_error

-- `policy or {"rawTranscript": False, "containsSecrets": False}`
unfoldable pub policy_or_default : Value → Value
unfolding ◌or◌
policy_or_default policy =
    policy
    or obj (entry "rawTranscript" (bool false) (entry "containsSecrets" (bool false) no_entries))
