-- ===== src/Artifacts/Addressed.antt =====
-- The store is addressed by content: what is under a digest has that digest.
use a2a_superhub.Artifacts.Steps.{IsFor}
use a2a_superhub.Dict.Laws.{lookup-put_cases, lookup-put, lookup-put_other}
use a2a_superhub.Dict.{lookup, put}
use a2a_superhub.Artifacts.Content.{store_blob, artifact_id_of, store_artifact}
use a2a_superhub.Artifacts.Tables.{Bytes, Manifest, ArtifactStore, artifact_conflict}
use a2a_superhub.Prelude.{
  refl, none, some, List, String, ℕ, ◌≡◌, length, Option, Option-cases, ◌⊎◌, ◌≤◌, inr, inl,
  Bool-cases, ◌==◌, eq_iff, sym, ◌∙◌, Preserves, Preserves-raise_if, not,
}

-- the bytes of a blob file
abbrev IsBlob : (Bytes → String) → ℕ → String → Bytes → Type 0
IsBlob digest limit key content = (digest content ≡ key) × (length content ≤ limit)

-- The manifest in a file: it stands under its identifier, which is that of its digest; there is a
-- blob with that digest; and its size is that of bytes with that digest.
abbrev pub IsFiled : (Bytes → String) → ℕ → List (String × Bytes) → String → Manifest → Type 0
IsFiled digest limit blobs id m =
    (m.artifact_id ≡ id)
    × (id ≡ artifact_id_of m.sha256)
    × ((content : Bytes) × (lookup m.sha256 blobs ≡ some content))
    × ((content : Bytes) × (digest content ≡ m.sha256)
        × (m.size_bytes ≡ length content)
        × (length content ≤ limit))

pub record IsAddressed (digest : Bytes → String) (limit : ℕ) (s : ArtifactStore) : Type 0 where
  pub bounded : s.max_artifact_bytes ≡ limit
  pub blobs :
      (key : String) (content : Bytes)
      → lookup key s.blobs ≡ some content
      → IsBlob digest limit key content
  pub manifests :
      (id : String) (file : Option Manifest)
      → lookup id s.manifests ≡ some file
      → (m : Manifest) × (file ≡ some m) × IsFiled digest limit s.blobs id m

-- A blob that is there stays when another is stored.
store_blob-keeps :
    (digest : String) (content : Bytes) (blobs : List (String × Bytes)) (key : String) (old : Bytes)
    → lookup key blobs ≡ some old
    → lookup key (store_blob digest content blobs) ≡ some old
unfolding store_blob
store_blob-keeps digest content blobs key old h = elim (Option-cases (lookup digest blobs)) [
  | inr (there, e) ↦ rw (store_blob, e) h
  | inl e ↦ elim (Bool-cases (digest == key)) [
    | inl same ↦
        let e' : lookup key blobs ≡ none = rw (← (eq_iff digest key).0 same) e in
        let clash : none ≡ some old = sym e' ∙ h in cc
    | inr other ↦ rw (store_blob, e) (lookup-put_other key digest content blobs other ∙ h)
  ]
]

-- after it is stored, there is a blob under the digest: a new one, or the one that was there
pub store_blob-has :
    (digest : String) (content : Bytes) (blobs : List (String × Bytes))
    → (lookup digest (store_blob digest content blobs) ≡ some content)
      ⊎ ((old : Bytes) × (lookup digest blobs ≡ some old)
          × (lookup digest (store_blob digest content blobs) ≡ some old))
unfolding store_blob
store_blob-has digest content blobs = elim (Option-cases (lookup digest blobs)) [
  | inr (there, e) ↦ inr (there, e, store_blob-keeps digest content blobs digest there e)
  | inl e ↦ inl (rw (store_blob, e) (lookup-put digest content blobs))
]

store_blob_cases :
    (digest : String) (content : Bytes) (blobs : List (String × Bytes)) (key : String)
    (found : Bytes)
    → lookup key (store_blob digest content blobs) ≡ some found
    → ((digest ≡ key) × (found ≡ content)) ⊎ (lookup key blobs ≡ some found)
unfolding store_blob
store_blob_cases digest content blobs key found h = elim (Option-cases (lookup digest blobs)) [
  | inr (there, e) ↦ inr (rw (store_blob, e) at h)
  | inl e ↦ lookup-put_cases key digest content found blobs (rw (store_blob, e) at h)
]

module _ (digest : Bytes → String) (limit : ℕ) where
  -- storing a blob under its own digest
  store_blob-IsAddressed :
      (content : Bytes) (s : ArtifactStore)
      → length content ≤ limit
      → IsAddressed digest limit s
      → IsAddressed digest limit (record s { blobs = store_blob (digest content) content s.blobs })
  store_blob-IsAddressed content s small h = record {
    bounded = h.bounded;
    blobs = λ key found e. elim (store_blob_cases (digest content) content s.blobs key found e) [
      | inl (k, c) ↦ rw c (k, small)
      | inr old ↦ h.blobs key found old
    ];
    manifests = λ id file e.
        let (m, is_m, (a, b, (c, found), sized)) = h.manifests id file e in
        (
          m,
          is_m,
          (a, b, (c, store_blob-keeps (digest content) content s.blobs m.sha256 c found), sized),
        );
  }

  -- writing a manifest that is filed
  pub put_manifest-IsAddressed :
      (id : String) (m : Manifest) (s : ArtifactStore)
      → IsFiled digest limit s.blobs id m
      → IsAddressed digest limit s
      → IsAddressed digest limit (record s { manifests = put id (some m) s.manifests })
  put_manifest-IsAddressed id m s filed h = record {
    bounded = h.bounded;
    blobs = h.blobs;
    manifests = λ key file e. elim (lookup-put_cases key id (some m) file s.manifests e) [
      | inl (k, f) ↦ (m, f, rw k at filed)
      | inr old ↦ h.manifests key file old
    ];
  }

  -- the blob that is stored, and its manifest
  pub store_artifact-IsAddressed :
      (created_by : String) (content : Bytes) (m : Manifest) (existing : Option Manifest)
      → length content ≤ limit
      → IsFor digest content m
      → Preserves
          (IsAddressed digest limit)
          (store_artifact (digest content) created_by content m existing)
  unfolding store_artifact
  store_artifact-IsAddressed created_by content m none small (id, sha, size) s h =
      let blobs = store_blob (digest content) content s.blobs in
      let s1 : ArtifactStore = record s { blobs = blobs } in
      let stored =
        elim (store_blob-has (digest content) content s.blobs)
          as (λ _. (c : Bytes) × (lookup (digest content) blobs ≡ some c)) [
            | inl e ↦ (content, e)
            | inr (old, before, after) ↦ (old, after)
          ] in
      put_manifest-IsAddressed m.artifact_id m s1
        (refl, rw sha id, rw sha stored, (content, sym sha, size, small))
        (store_blob-IsAddressed content s small h)
  store_artifact-IsAddressed created_by content m (some existing) small made s h =
      Preserves-raise_if (IsAddressed digest limit) (not (existing.sha256 == digest content))
        artifact_conflict _
        (λ _.
          Preserves-raise_if (IsAddressed digest limit) (not (existing.created_by == created_by))
            artifact_conflict _ (λ _ s h. store_blob-IsAddressed content s small h))
        s h
