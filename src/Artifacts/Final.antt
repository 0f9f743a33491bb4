-- ===== src/Artifacts/Final.antt =====
-- A completed upload stays as it is, whatever is called.
use a2a_superhub.Artifacts.Checks.{
  validate_visibility, validate_filename, validate_media_type, validate_digest, validate_expected,
}
use a2a_superhub.Dict.Laws.{lookup-put_other}
use a2a_superhub.Json.{Value}
use a2a_superhub.Auth.Bearer.{Principal}
use a2a_superhub.Artifacts.Content.{PutRequest, put_stream, get_manifest}
use a2a_superhub.Artifacts.Sharing.{change_visibility, set_visibility, may_change, may_share}
use a2a_superhub.Dict.{lookup}
use a2a_superhub.Artifacts.Uploading.{IsFreshRun, IsFresh, put_stream-SameUploads, get_upload-there}
use a2a_superhub.Artifacts.Runs.{
  run, perform, ArtifactCall, puts_stream, initiates, puts_chunk, commits, cancels, shares,
}
use a2a_superhub.Artifacts.Tables.{
  Session, ArtifactEnv, completed, ArtifactStore, Bytes, UploadStatus, Manifest, artifact_conflict,
  canceled, artifact_access, pending,
}
use a2a_superhub.Artifacts.Uploads.{
  save_session, is_pending, is_completed, get_upload, initiate_upload, store_chunk, put_chunk,
  commit_chunks, commit_session, commit_upload, cancel_upload, put_request, UploadRequest, gather,
  validate_size, validate_chunk_size, chunk_index, expected_size, same_digest, find_chunk,
}
use mathlib.Core.Option.{some-injective}
use a2a_superhub.Prelude.{
  none, some, [], ◌∷◌, String, ◌≡◌, Option, not, false, List, ◌==◌, ok, ℕ, ℤ, Preserves, Bool-cases,
  ◌⊎◌, Preserves-after, Preserves-check, ◌∙◌, inr, inl, eq_iff, eqb, ◌&&◌, sym, ap, length,
}

-- a session of another upload is saved
save_session-other :
    (y : Session) (id : String) (file : Option Session) (s : ArtifactStore)
    → lookup id s.sessions ≡ some file
    → (y.upload_id == id) ≡ false
    → lookup id (save_session y s).sessions ≡ some file
unfolding save_session
save_session-other y id file s h other =
    lookup-put_other id y.upload_id (some y) s.sessions other ∙ h

not_pending : (x : Session) → x.status ≡ completed → not (is_pending x.status) ≡ false → ⊥
unfolding is_pending
not_pending x done h = let h' : not (is_pending completed) ≡ false = rw done at h in cc

not_completed : (x : Session) → x.status ≡ completed → is_completed x.status ≡ false → ⊥
unfolding is_completed
not_completed x done h = let h' : is_completed completed ≡ false = rw done at h in cc

-- a new identifier is not that of a session
fresh_apart :
    (x : Session) (env : ArtifactEnv) (s : ArtifactStore)
    → lookup env.new_upload_id s.sessions ≡ none
    → lookup x.upload_id s.sessions ≡ some (some x)
    → (env.new_upload_id == x.upload_id) ≡ false
fresh_apart x env s fresh h = elim (Bool-cases (env.new_upload_id == x.upload_id)) [
  | inr other ↦ other
  | inl e ↦
      let same : env.new_upload_id ≡ x.upload_id = (eq_iff env.new_upload_id x.upload_id).0 e in
      let clash : none ≡ some (some x) =
        sym fresh ∙ ap (λ (k : String). lookup k s.sessions) same ∙ h in
      cc
]

module _ (x : Session) (done : x.status ≡ completed) where
  -- the file of the completed session
  abbrev Stays : ArtifactStore → Type 0
  Stays s = lookup x.upload_id s.sessions ≡ some (some x)

  -- another session than the completed one
  other_upload :
      (y : Session) (id : String) (s : ArtifactStore)
      → Stays s
      → get_upload id s ≡ ok y
      → (y ≡ x) ⊎ ((y.upload_id == x.upload_id) ≡ false)
  other_upload y id s h found = elim (Bool-cases (y.upload_id == x.upload_id)) [
    | inr other ↦ inr other
    | inl same ↦
        let there = get_upload-there id y s found in
        let there' : lookup x.upload_id s.sessions ≡ some (some y) =
          ap (λ (k : String). lookup k s.sessions) (sym ((eq_iff y.upload_id x.upload_id).0 same))
          ∙ there in
        inl (some-injective y x (some-injective _ _ (sym there' ∙ h)))
  ]

  module _ (env : ArtifactEnv) where
    put_stream-Stays :
        (source : List (Option Bytes)) (request : PutRequest)
        → Preserves Stays (put_stream env source request)
    put_stream-Stays source request s h =
        let (_, sessions, _) = put_stream-SameUploads env source request s in rw sessions h

    initiate_upload-Stays :
        (request : UploadRequest) (s : ArtifactStore)
        → lookup env.new_upload_id s.sessions ≡ none
        → Stays s
        → Stays (initiate_upload env request s).1
    unfolding initiate_upload
    initiate_upload-Stays request s fresh h =
        let apart : (env.new_upload_id == x.upload_id) ≡ false = fresh_apart x env s fresh h in
        Preserves-after Stays _ (validate_size s.max_artifact_bytes request.size_bytes, s) h
          (λ size _.
            Preserves-after Stays _ (validate_chunk_size s.max_artifact_bytes request.chunk_size, s)
              h
              (λ chunk _.
                Preserves-after Stays _ (validate_filename request.filename, s) h
                  (λ filename _.
                    Preserves-after Stays _ (validate_media_type request.media_type, s) h
                      (λ media_type _.
                        Preserves-after Stays _ (validate_digest env request.sha256, s) h
                          (λ sha256 _.
                            Preserves-after Stays _ (validate_visibility request.visibility, s) h
                              (λ visibility _.
                                save_session-other _ x.upload_id (some x) s h apart))))))

    store_chunk-Stays :
        (y : Session) (i : ℕ) (content : Bytes) (file : Option Bytes) (s : ArtifactStore)
        → (y.upload_id == x.upload_id) ≡ false
        → Stays s
        → Stays (store_chunk env y i content file s).1
    unfolding store_chunk
    store_chunk-Stays y i content none s other h =
        save_session-other (record y { updated_at = env.now }) x.upload_id (some x) s h other
    store_chunk-Stays y i content (some old) s other h =
        Preserves-check Stays (not (env.digest old == env.digest content)) artifact_conflict _ s h
          (λ _. h)

    put_chunk-Stays :
        (id : String) (index : ℤ) (content : Bytes) (expected : Option String)
        → Preserves Stays (put_chunk env id index content expected)
    unfolding put_chunk
    put_chunk-Stays id index content expected s h =
        Preserves-after Stays _ (get_upload id s, s) h
          (λ y found.
            Preserves-check Stays (not (is_pending y.status)) artifact_conflict _ s h (λ open_now.
              Preserves-after Stays _ (chunk_index y.chunk_count index, s) h
                (λ i _.
                  Preserves-check Stays (not (eqb (length content) (expected_size y i)))
                    artifact_conflict _ s h
                    (λ _.
                      Preserves-after Stays _ (validate_expected env expected, s) h
                        (λ digest _.
                          Preserves-check Stays (not (same_digest digest (env.digest content)))
                            artifact_conflict _ s h
                            (λ _. elim (other_upload y id s h found) [
                              | inl same ↦ absurd (not_pending x done (rw same at open_now))
                              | inr other ↦
                                  store_chunk-Stays y i content (find_chunk id i s.chunks) s other h
                            ]))))))

    commit_chunks-Stays :
        (y : Session) (gathered : Option (List (Option Bytes))) (s : ArtifactStore)
        → (y.upload_id == x.upload_id) ≡ false
        → Stays s
        → Stays (commit_chunks env y gathered s).1
    unfolding commit_chunks
    commit_chunks-Stays y none s other h = h
    commit_chunks-Stays y (some contents) s other h =
        let h1 = put_stream-Stays contents (put_request y) s h in
        Preserves-after Stays _ (put_stream env contents (put_request y) s) h1 (λ m _.
          save_session-other _ x.upload_id (some x) (put_stream env contents (put_request y) s).1 h1
            other)

    commit_session-Stays :
        (y : Session) (status : UploadStatus) (s : ArtifactStore)
        → (y.upload_id == x.upload_id) ≡ false
        → Stays s
        → Stays (commit_session env y status s).1
    unfolding commit_session
    commit_session-Stays y completed s other h = h
    commit_session-Stays y canceled s other h = h
    commit_session-Stays y pending s other h =
        commit_chunks-Stays y (gather y.upload_id 0 y.chunk_count s.chunks) s other h

    commit_session-completed :
        (y : Session) (status : UploadStatus) (s : ArtifactStore)
        → status ≡ completed
        → Stays s
        → Stays (commit_session env y status s).1
    unfolding commit_session
    commit_session-completed y completed s e h = h
    commit_session-completed y canceled s e h = h
    commit_session-completed y pending s e h = cc

    commit_upload-Stays : (id : String) → Preserves Stays (commit_upload env id)
    unfolding commit_upload
    commit_upload-Stays id s h =
        Preserves-after Stays _ (get_upload id s, s) h
          (λ y found. elim (other_upload y id s h found) [
            | inr other ↦ commit_session-Stays y y.status s other h
            | inl same ↦
                commit_session-completed y y.status s (ap (λ (z : Session). z.status) same ∙ done) h
          ])

    cancel_upload-Stays : (id : String) → Preserves Stays (cancel_upload env id)
    unfolding cancel_upload
    cancel_upload-Stays id s h =
        Preserves-after Stays _ (get_upload id s, s) h
          (λ y found.
            Preserves-check Stays (is_completed y.status) artifact_conflict _ s h (λ open_now.
              elim (other_upload y id s h found) [
                | inl same ↦ absurd (not_completed x done (rw same at open_now))
                | inr other ↦
                    save_session-other (record y { status = canceled; updated_at = env.now })
                      x.upload_id (some x) s h other
              ]))

    change_visibility-Stays :
        (id visibility : String) (p : Principal) (manifest : Option Manifest)
        → Preserves Stays (change_visibility env id visibility p manifest)
    unfolding change_visibility
    change_visibility-Stays id visibility p none s h = h
    change_visibility-Stays id visibility p (some m) s h =
        Preserves-check Stays (not (may_change m p)) artifact_access _ s h (λ _.
          Preserves-check Stays (not (visibility == "private") && not (may_share p)) artifact_access
            _ s h (λ _. h))

    set_visibility-Stays :
        (id : String) (visibility : Value) (p : Principal)
        → Preserves Stays (set_visibility env id visibility p)
    unfolding set_visibility
    set_visibility-Stays id visibility p s h =
        Preserves-after Stays _ (validate_visibility visibility, s) h
          (λ text _.
            Preserves-after Stays _ (get_manifest id s, s) h
              (λ manifest _. change_visibility-Stays id text p manifest s h))

  perform-Stays :
      (digest : Bytes → String) (c : ArtifactCall) (s : ArtifactStore)
      → IsFresh c s
      → Stays s
      → Stays (perform digest c s)
  unfolding perform IsFresh
  perform-Stays digest (puts_stream env source request) s _ h =
      put_stream-Stays (record env { digest = digest }) source request s h
  perform-Stays digest (initiates env request) s fresh h =
      initiate_upload-Stays (record env { digest = digest }) request s fresh h
  perform-Stays digest (puts_chunk env id index content expected) s _ h =
      put_chunk-Stays (record env { digest = digest }) id index content expected s h
  perform-Stays digest (commits env id) s _ h =
      commit_upload-Stays (record env { digest = digest }) id s h
  perform-Stays digest (cancels env id) s _ h =
      cancel_upload-Stays (record env { digest = digest }) id s h
  perform-Stays digest (shares env id visibility p) s _ h =
      set_visibility-Stays (record env { digest = digest }) id visibility p s h

-- Once an upload is completed, no calls change its session, where each initiation takes an
-- identifier that no session has: further chunks, commits and cancellations included.
pub completed_upload_is_final :
    (digest : Bytes → String) (x : Session) (calls : List ArtifactCall) (s : ArtifactStore)
    → x.status ≡ completed
    → IsFreshRun digest calls s
    → lookup x.upload_id s.sessions ≡ some (some x)
    → lookup x.upload_id (run digest calls s).sessions ≡ some (some x)
unfolding run IsFreshRun
completed_upload_is_final digest x [] s done _ h = h
completed_upload_is_final digest x (c ∷ cs) s done (fresh, rest) h =
    completed_upload_is_final digest x cs (perform digest c s) done rest
      (perform-Stays x done digest c s fresh h)
