-- ===== src/Artifacts/Visibility.antt =====
-- Who can have changed the visibility of an artifact.
use a2a_superhub.Artifacts.Content.{get_manifest}
use a2a_superhub.Artifacts.Runs.{ArtifactCall, shares}
use a2a_superhub.Artifacts.Tables.{Manifest, ArtifactStore}
use a2a_superhub.Auth.Bearer.{Principal, has}
use a2a_superhub.Json.{str}
use a2a_superhub.Prelude.{String, ◌⊎◌, List, ◌≡◌, true, ◌∷◌, [], some, ok}

-- one of the scopes of an administrator
abbrev IsAdmin : Principal → Type 0
IsAdmin p = (has p "hub.admin" ≡ true) ⊎ (has p "artifact.admin" ≡ true)

-- a principal can give the artifact this visibility: an administrator, or its owner with the scope
-- to write, who also has the scope to share if the artifact is not to be private
abbrev pub IsAllowed : Principal → Manifest → Type 0
IsAllowed p m =
    IsAdmin p
    ⊎ ((has p "artifact.write" ≡ true)
        × (m.created_by ≡ p.subject)
        × ((m.visibility ≡ "private") ⊎ (has p "artifact.share" ≡ true)))

-- the call asks for the visibility of the manifest, from a principal who can give it
abbrev pub Asks : Manifest → ArtifactCall → Type 0
Asks m (shares env id visibility p) =
    (id ≡ m.artifact_id) × (visibility ≡ str m.visibility) × IsAllowed p m
Asks m _ = ⊥

abbrev pub AsksOne : Manifest → List ArtifactCall → Type 0
AsksOne m [] = ⊥
AsksOne m (c ∷ cs) = Asks m c ⊎ AsksOne m cs

-- the same artifact: bytes, owner and all else but what a change of the visibility writes
abbrev pub SameArtifact : Manifest → Manifest → Type 0
SameArtifact old m = m ≡ record old {
  visibility = m.visibility;
  policy_revision = m.policy_revision;
  updated_at = m.updated_at;
}

-- what one call leaves of an artifact
abbrev Left : String → Manifest → ArtifactCall → ArtifactStore → Type 0
Left id old c s =
    (m : Manifest) × (get_manifest id s ≡ ok (some m)) × SameArtifact old m × ((m ≡ old) ⊎ Asks m c)
