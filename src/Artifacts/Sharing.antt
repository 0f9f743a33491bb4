-- ===== src/Artifacts/Sharing.antt =====
-- Who can read an artifact and who can share it: `can_read`, `require_read`, `set_visibility`,
-- `list_manifests`.
use a2a_superhub.Json.{Value}
use a2a_superhub.Artifacts.Tables.{
  Manifest, ArtifactEnv, ArtifactStore, ArtifactExn, artifact_missing, artifact_access,
}
use Prim.Native.String.{String}
use a2a_superhub.Artifacts.Checks.{validate_visibility}
use a2a_superhub.Dict.{put}
use a2a_superhub.Artifacts.Content.{get_manifest}
use a2a_superhub.Auth.Bearer.{has, Principal}
use Prim.Native.String
use a2a_superhub.Prelude.{
  none, some, [], ◌∷◌, ◌>>=◌, ◌>>◌, pure, lift, raise_if, modify, Option, sort_by, Bool, Result,
  List, String, ◌&&◌, ◌||◌, Exec, if◌then◌else◌, ◌==◌, err, raise, ok, text_leb, not, ◌+◌,
}

unfoldable pub can_read : Manifest → Principal → Bool
unfolding has
can_read m p =
    has p "artifact.read"
    && (has p "hub.admin"
        || has p "artifact.admin"
        || m.created_by == p.subject
        || m.visibility == "shared"
        || m.visibility == String.◌++◌ "direct:" p.subject)

unfoldable pub readable_or_missing : Principal → Option Manifest → Result ArtifactExn Manifest
unfolding can_read
readable_or_missing p none = err artifact_missing
readable_or_missing p (some m) = if not (can_read m p) then err artifact_missing else ok m

unfoldable pub require_read : String → Principal → ArtifactStore → Result ArtifactExn Manifest
unfolding get_manifest readable_or_missing
require_read id p s = elim (get_manifest id s) [
  | err e ↦ err e
  | ok manifest ↦ readable_or_missing p manifest
]

-- the owner with the scope to write, or an administrator
unfoldable pub may_change : Manifest → Principal → Bool
unfolding has
may_change m p =
    has p "hub.admin"
    || has p "artifact.admin"
    || (has p "artifact.write" && m.created_by == p.subject)

unfoldable pub may_share : Principal → Bool
unfolding has
may_share p = has p "artifact.share" || has p "hub.admin" || has p "artifact.admin"

-- the part of `set_visibility` under the lock
unfoldable pub change_visibility :
    ArtifactEnv
    → String
    → String
    → Principal
    → Option Manifest
    → Exec ArtifactExn ArtifactStore Manifest
unfolding may_change may_share put
change_visibility env id visibility p none = raise artifact_missing
change_visibility env id visibility p (some m) = do
  raise_if (not (may_change m p)) artifact_access
  raise_if (not (visibility == "private") && not (may_share p)) artifact_access
  let changed : Manifest = record m {
    visibility = visibility;
    policy_revision = m.policy_revision + 1;
    updated_at = some env.now;
  }
  modify (λ s. record s { manifests = put id (some changed) s.manifests })
  pure changed

unfoldable pub set_visibility :
    ArtifactEnv → String → Value → Principal → Exec ArtifactExn ArtifactStore Manifest
unfolding validate_visibility get_manifest change_visibility
set_visibility env id visibility p = do
  text ← lift (validate_visibility visibility)
  manifest ← (λ s. lift (get_manifest id s) s)
  change_visibility env id text p manifest

unfoldable pub listed : Option Principal → Option Manifest → List Manifest → List Manifest
unfolding can_read
listed p none rest = rest
listed none (some m) rest = m ∷ rest
listed (some p) (some m) rest = if can_read m p then m ∷ rest else rest

unfoldable pub collect :
    Option Principal
    → Result ArtifactExn (Option Manifest)
    → Result ArtifactExn (List Manifest)
    → Result ArtifactExn (List Manifest)
unfolding listed
collect p (err e) rest = err e
collect p (ok m) (err e) = err e
collect p (ok m) (ok rest) = ok (listed p m rest)

unfoldable pub list_from :
    Option Principal
    → List (String × Option Manifest)
    → ArtifactStore
    → Result ArtifactExn (List Manifest)
unfolding get_manifest collect
list_from p [] s = ok []
list_from p ((id, file) ∷ rest) s = collect p (get_manifest id s) (list_from p rest s)

-- `list_manifests`, in the order of the file names
unfoldable pub list_manifests :
    Option Principal → ArtifactStore → Result ArtifactExn (List Manifest)
unfolding list_from sort_by
list_manifests p s =
    list_from p (sort_by (λ (a b : String × Option Manifest). text_leb a.0 b.0) s.manifests) s
