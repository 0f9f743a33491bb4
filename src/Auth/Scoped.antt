-- ===== src/Auth/Scoped.antt =====
-- What the validation of the registry means for the principals that are let in.
use a2a_superhub.Prelude.{
  ◌∷◌, Result-cases, refl, [], ◌≡◌, Option, String, List, true, ok, elem, ok-and_then, Bool-cases,
  false, inl, ◌==◌, inr, some, err, ◌||◌, not, arith, none,
}
use a2a_superhub.Auth.Grants.{Granted, InRegistry, check-Granted}
use a2a_superhub.Json.{Value, Fields, str, obj, get, arr, item, bool, int, real, null, no_items}
use Prim.Native.String.{String}
use a2a_superhub.Memory.Notes.{is_principal_id}
use a2a_superhub.Auth.Registry.{
  read_subject, read_kind, read_token_id, allowed_scopes, read_scopes, read_principal, read_entry,
  load_registry, is_token_id, is_subset, allowed_kinds, has_doubles, get_or, invalid_registry,
  scope_texts,
}
use a2a_superhub.Auth.Bearer.{Principal, Registry, all_legacy_scopes, check}

-- a principal as the registry allows them
abbrev pub IsAllowed : Principal → Type 0
IsAllowed p =
    (is_principal_id p.subject ≡ true)
    × (elem p.kind allowed_kinds ≡ true)
    × (is_token_id p.token_id ≡ true)
    × (is_subset p.scopes all_legacy_scopes ≡ true)
    × (has_doubles p.scopes ≡ false)

read_subject-ok : (v : Value) (s : String) → read_subject v ≡ ok s → is_principal_id s ≡ true
unfolding read_subject
read_subject-ok (str text) s h = elim (Bool-cases (is_principal_id text)) [
  | inl e ↦ let h' : ok text ≡ ok s = rw e at h in let same : text ≡ s = cc in rw same at e
  | inr e ↦ let h' : err invalid_registry ≡ ok s = rw e at h in absurd (cc)
]
read_subject-ok null s h = cc
read_subject-ok (bool b) s h = cc
read_subject-ok (int b n) s h = cc
read_subject-ok (real x) s h = cc
read_subject-ok (arr x) s h = cc
read_subject-ok (obj x) s h = cc

read_kind-ok : (v : Value) (s : String) → read_kind v ≡ ok s → elem s allowed_kinds ≡ true
unfolding read_kind
read_kind-ok (str text) s h = elim (Bool-cases (elem text allowed_kinds)) [
  | inl e ↦ let h' : ok text ≡ ok s = rw e at h in let same : text ≡ s = cc in rw same at e
  | inr e ↦ let h' : err invalid_registry ≡ ok s = rw e at h in absurd (cc)
]
read_kind-ok null s h = cc
read_kind-ok (bool b) s h = cc
read_kind-ok (int b n) s h = cc
read_kind-ok (real x) s h = cc
read_kind-ok (arr x) s h = cc
read_kind-ok (obj x) s h = cc

read_token_id-ok : (v : Value) (s : String) → read_token_id v ≡ ok s → is_token_id s ≡ true
unfolding read_token_id
read_token_id-ok (str text) s h = elim (Bool-cases (is_token_id text)) [
  | inl e ↦ let h' : ok text ≡ ok s = rw e at h in let same : text ≡ s = cc in rw same at e
  | inr e ↦ let h' : err invalid_registry ≡ ok s = rw e at h in absurd (cc)
]
read_token_id-ok null s h = cc
read_token_id-ok (bool b) s h = cc
read_token_id-ok (int b n) s h = cc
read_token_id-ok (real x) s h = cc
read_token_id-ok (arr x) s h = cc
read_token_id-ok (obj x) s h = cc

allowed_scopes-ok :
    (texts : Option (List String)) (scopes : List String)
    → allowed_scopes texts ≡ ok scopes
    → (is_subset scopes all_legacy_scopes ≡ true) × (has_doubles scopes ≡ false)
unfolding allowed_scopes
allowed_scopes-ok none scopes h = cc
allowed_scopes-ok (some xs) scopes h =
    elim (Bool-cases (has_doubles xs || not (is_subset xs all_legacy_scopes))) [
      | inl e ↦ let h' : err invalid_registry ≡ ok scopes = rw e at h in absurd (cc)
      | inr e ↦
          let h' : ok xs ≡ ok scopes = rw e at h in
          let same : xs ≡ scopes = cc in rw (← same) (ground (arith, e), ground (arith, e))
    ]

read_scopes-ok :
    (v : Value) (scopes : List String)
    → read_scopes v ≡ ok scopes
    → (is_subset scopes all_legacy_scopes ≡ true) × (has_doubles scopes ≡ false)
unfolding read_scopes
read_scopes-ok (arr no_items) scopes h = cc
read_scopes-ok (arr (item v rest)) scopes h =
    let (texts, _, h') = ok-and_then (scope_texts (item v rest)) allowed_scopes scopes h in
    allowed_scopes-ok texts scopes h'
read_scopes-ok (str text) scopes h = cc
read_scopes-ok null scopes h = cc
read_scopes-ok (bool b) scopes h = cc
read_scopes-ok (int b n) scopes h = cc
read_scopes-ok (real x) scopes h = cc
read_scopes-ok (obj x) scopes h = cc

read_principal-IsAllowed :
    (fields : Fields) (p : Principal) → read_principal fields ≡ ok p → IsAllowed p
unfolding read_principal
read_principal-IsAllowed fields p h =
    let (subject, a, h1) = ok-and_then (read_subject (get fields "subject")) _ p h in
    let (kind, b, h2) = ok-and_then (read_kind (get_or fields "kind" (str "agent"))) _ p h1 in
    let (token_id, c, h3) =
      ok-and_then (read_token_id (get_or fields "tokenId" (str "tok_static"))) _ p h2 in
    let (scopes, d, h4) = ok-and_then (read_scopes (get fields "scopes")) _ p h3 in
    let same : record { subject = subject; kind = kind; token_id = token_id; scopes = scopes } ≡ p =
      cc in
    let (subset, single) = read_scopes-ok (get fields "scopes") scopes d in
    rw (← same) (
      read_subject-ok (get fields "subject") subject a,
      read_kind-ok (get_or fields "kind" (str "agent")) kind b,
      read_token_id-ok (get_or fields "tokenId" (str "tok_static")) token_id c,
      subset,
      single,
    )

read_entry-IsAllowed :
    (token : String) (v : Value) (p : Principal) → read_entry token v ≡ ok p → IsAllowed p
unfolding read_entry
read_entry-IsAllowed token (obj fields) p h = elim (Bool-cases (token == "")) [
  | inl e ↦ let h' : err invalid_registry ≡ ok p = rw e at h in absurd (cc)
  | inr e ↦ read_principal-IsAllowed fields p (rw e at h)
]
read_entry-IsAllowed token null p h = cc
read_entry-IsAllowed token (bool b) p h = cc
read_entry-IsAllowed token (int b n) p h = cc
read_entry-IsAllowed token (real x) p h = cc
read_entry-IsAllowed token (str x) p h = cc
read_entry-IsAllowed token (arr x) p h = cc

load_registry-IsAllowed :
    (entries : List (String × Value)) (registry : Registry) (token : String) (p : Principal)
    → load_registry entries ≡ ok registry
    → InRegistry token p registry
    → IsAllowed p
unfolding load_registry
load_registry-IsAllowed [] registry token p h there =
    let same : [] ≡ registry = cc in
    let there' : InRegistry token p [] = rw (← same) at there in absurd there'
load_registry-IsAllowed ((candidate, v) ∷ rest) registry token p h there =
    let (q, entry, h1) = ok-and_then (read_entry candidate v) _ registry h in
    elim (Result-cases (load_registry rest)) [
      | inl (e, bad) ↦ let h2 : err e ≡ ok registry = rw bad at h1 in absurd (cc)
      | inr (later, good) ↦
          let h2 : ok ((candidate, q) ∷ later) ≡ ok registry = rw good at h1 in
          let same : (candidate, q) ∷ later ≡ registry = cc in
          let there' : InRegistry token p ((candidate, q) ∷ later) = rw (← same) at there in
          elim there' [
            | inl (_, is_q) ↦ rw is_q at (read_entry-IsAllowed candidate v q entry)
            | inr after ↦ load_registry-IsAllowed rest later token p good after
          ]
    ]

-- Whoever `check` lets in by a registry that was loaded has a subject and a token identifier of the
-- right form, one of the allowed kinds, and only the known scopes, none twice; the local operator
-- included.
pub check-IsAllowed :
    (entries : List (String × Value)) (registry : Registry)
    (configured_token header : Option String) (p : Principal)
    → load_registry entries ≡ ok registry
    → check (record { token = configured_token; principals = registry }) header ≡ some p
    → IsAllowed p
unfolding Granted is_principal_id is_token_id is_subset all_legacy_scopes has_doubles
check-IsAllowed entries registry configured_token header p loaded h =
    elim (check-Granted (record { token = configured_token; principals = registry }) header p h) [
      | inl (token, _, there) ↦ load_registry-IsAllowed entries registry token p loaded there
      | inr (inl (_, _, _, is_operator)) ↦ rw is_operator (refl, refl, refl, refl, refl)
      | inr (inr (_, _, is_operator)) ↦ rw is_operator (refl, refl, refl, refl, refl)
    ]
