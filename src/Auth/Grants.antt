-- ===== src/Auth/Grants.antt =====
-- Whom `BearerAuth.check` lets in.
use Prim.Native.String
use text.Mathlib.TextLemmas.{head-eq_of_cons-eq, nil-append, cons-append}
use a2a_superhub.Prelude.{
  String, ◌≡◌, refl, ◌⊎◌, inl, inr, false, Option, none, some, [], ◌∷◌, ◌==◌, eq_iff, Bool-cases,
  Option-cases, if◌then◌else◌, arith, ap, ◌∙◌,
}
use a2a_superhub.Auth.Bearer.{
  Principal, Registry, BearerAuth, local_operator, after_prefix, configured, legacy, unregistered,
  from_registry, check, is_set,
}

after_prefix-some : (p s : String) {r : String} → after_prefix p s ≡ some r → s ≡ String.◌++◌ p r
unfolding after_prefix
after_prefix-some String.[] s {r} h = ground (arith, nil-append r)
after_prefix-some (String.◌∷◌ c p) String.[] h = cc
after_prefix-some (String.◌∷◌ c p) (String.◌∷◌ d s) {r} h =
    elim (Bool-cases (String.◌∷◌ c "" == String.◌∷◌ d "")) [
      | inl same ↦
          let e : c ≡ d = head-eq_of_cons-eq ((eq_iff _ _).0 same) in
          rw (e, cons-append) (ap (String.◌∷◌ d) (after_prefix-some p s (rw same at h)))
      | inr other ↦ cc (rw other at h)
    ]

-- the registry holds the token with the principal
abbrev pub InRegistry : String → Principal → Registry → Type 0
InRegistry token p [] = ⊥
InRegistry token p ((candidate, config) ∷ rest) =
    ((candidate ≡ token) × (config ≡ p)) ⊎ InRegistry token p rest

configured-some :
    (raw : String) (found : Option Principal) (reg : Registry) {p : Principal}
    → configured raw found reg ≡ some p
    → (found ≡ some p) ⊎ InRegistry raw p reg
unfolding configured
configured-some raw found [] h = inl h
configured-some raw found ((candidate, config) ∷ rest) {p} h =
    elim (configured-some raw (if raw == candidate then some config else found) rest h) [
      | inr later ↦ inr (inr later)
      | inl here ↦ ground (arith, eq_iff raw candidate)
    ]

-- What lets a request in as a principal.
unfoldable pub Granted : BearerAuth → Option String → Principal → Type 0
unfolding is_set
Granted auth header p =
    ((token : String) × (header ≡ some (String.◌++◌ "Bearer " token))
      × InRegistry token p auth.principals)
    ⊎ (((token : String) × (header ≡ some (String.◌++◌ "Bearer " token))
          × (auth.token ≡ some token)
          × (p ≡ local_operator "tok_legacy"))
        ⊎ ((is_set auth.token ≡ false) × (auth.principals ≡ []) × (p ≡ local_operator "tok_local")))

from_registry-some :
    (auth : BearerAuth) (header : Option String) {p : Principal}
    → from_registry auth header ≡ some p
    → (token : String) × (header ≡ some (String.◌++◌ "Bearer " token))
      × InRegistry token p auth.principals
unfolding from_registry
from_registry-some auth none h = cc
from_registry-some auth (some header) {p} h = elim (Option-cases (after_prefix "Bearer " header)) [
  | inl other ↦ cc (rw other at h)
  | inr (raw, stripped) ↦ (
    raw,
    ap some (after_prefix-some "Bearer " header stripped),
    elim (configured-some raw none auth.principals (rw stripped at h)) [
      | inl impossible ↦ cc
      | inr listed ↦ listed
    ],
  )
]

legacy-some :
    (auth : BearerAuth) (header : Option String) {p : Principal}
    → legacy auth header ≡ some p
    → (token : String) × (header ≡ some (String.◌++◌ "Bearer " token))
      × (auth.token ≡ some token)
      × (p ≡ local_operator "tok_legacy")
unfolding legacy
legacy-some auth none h = cc
legacy-some auth (some header) h = elim (Option-cases auth.token) [
  | inl unset ↦ cc (rw unset at h)
  | inr (token, set) ↦ elim (Bool-cases (header == String.◌++◌ "Bearer " token)) [
    | inl same ↦
        (token, ap some ((eq_iff header (String.◌++◌ "Bearer " token)).0 same), set, ground arith)
    | inr other ↦ ground arith
  ]
]

unregistered-some :
    (auth : BearerAuth) (header : Option String) (reg : Registry) {p : Principal}
    → auth.principals ≡ reg
    → unregistered auth header reg ≡ some p
    → Granted auth header p
unfolding unregistered is_set Granted
unregistered-some auth header [] {p} none_listed h = elim (Bool-cases (is_set auth.token)) [
  | inl set ↦ inr (inl (legacy-some auth header (rw set at h)))
  | inr unset ↦ inr (inr (unset, none_listed, cc (rw unset at h)))
]
unregistered-some auth header (_ ∷ _) listed h = inr (inl (legacy-some auth header h))

-- `check` returns a principal only for a token of the registry, as that token's principal; for the
-- configured token, as the operator; or, where no token is set and the registry is empty, as the
-- operator.
pub check-Granted :
    (auth : BearerAuth) (header : Option String) (p : Principal)
    → check auth header ≡ some p
    → Granted auth header p
unfolding check Granted
check-Granted auth header p h = elim (Option-cases (from_registry auth header)) [
  | inr (q, found) ↦ inl (from_registry-some auth header (found ∙ rw found at h))
  | inl other ↦ unregistered-some auth header auth.principals refl (rw other at h)
]

-- With an empty text as the configured token, which `check` tells from no token only by `is None`,
-- the header `Bearer ` with nothing behind it is let in as the operator, though a registry is
-- configured and no token of it is empty.
pub empty_token_lets_in :
    (entry : String × Principal) (rest : Registry)
    → configured "" none (entry ∷ rest) ≡ none
    → check (record { token = some ""; principals = entry ∷ rest }) (some "Bearer ")
      ≡ some (local_operator "tok_legacy")
unfolding check after_prefix
empty_token_lets_in entry rest no_empty = rw no_empty
