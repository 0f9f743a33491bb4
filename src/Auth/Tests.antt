-- ===== src/Auth/Tests.antt =====
-- Tokens and the limiter at concrete inputs.
use a2a_superhub.Auth.Scoped.{IsAllowed, check-IsAllowed}
use a2a_superhub.Auth.Registry.{load_registry, invalid_registry, unhashable}
use a2a_superhub.Json.{Value, obj, entry, str, arr, item, no_items, no_entries}
use a2a_superhub.Prelude.{String, ◌≡◌, refl, some, List, [], ◌∷◌, max, arith, ℕ, none, ok, err}
use a2a_superhub.Auth.Bearer.{Principal, Registry, BearerAuth, local_operator, configured, check}
use a2a_superhub.Auth.Grants.{Granted, check-Granted, empty_token_lets_in}
use a2a_superhub.Auth.Limiter.{limiter, allow}
use a2a_superhub.Auth.Limiter.Window.{accepted, ideal, allow-ideal}

abbrev alpha : Principal
alpha = record {
  subject = "agent.alpha";
  kind = "agent";
  token_id = "tok_alpha";
  scopes = "memory.read" ∷ [];
}

abbrev registry : Registry
registry = ("s3cret", alpha) ∷ []

abbrev auth : BearerAuth
auth = record { token = some ""; principals = registry }

check-alpha : check auth (some "Bearer s3cret") ≡ some alpha
unfolding check
check-alpha = refl

check-Granted_example : Granted auth (some "Bearer s3cret") alpha
check-Granted_example = check-Granted auth (some "Bearer s3cret") alpha check-alpha

empty_token_lets_in_example : check auth (some "Bearer ") ≡ some (local_operator "tok_legacy")
unfolding configured
empty_token_lets_in_example = empty_token_lets_in ("s3cret", alpha) [] refl

abbrev visits : List (String × ℕ)
visits = ("a", 1) ∷ ("a", 3) ∷ ("b", 3) ∷ ("a", 4) ∷ ("a", 12) ∷ []

-- two calls in a window of 10 ticks
accepted-visits : accepted "a" visits (limiter 2 10) ≡ 1 ∷ 3 ∷ 12 ∷ []
unfolding accepted limiter allow
accepted-visits = refl

allow-ideal_example : accepted "a" visits (limiter 2 10) ≡ ideal "a" (max 1 2) (max 1 10) [] visits
allow-ideal_example = allow-ideal "a" 2 10 visits (omega arith)

abbrev entries : List (String × Value)
entries =
    (
      "s3cret",
      obj (
          entry "subject" (str "agent.alpha") (
            entry "tokenId" (str "tok_alpha")
              (entry "scopes" (arr (item (str "memory.read") no_items)) no_entries))),
    )
    ∷ []

abbrev loaded : Registry
loaded =
    (
      "s3cret",
      record {
        subject = "agent.alpha";
        kind = "agent";
        token_id = "tok_alpha";
        scopes = "memory.read" ∷ [];
      },
    )
    ∷ []

load_registry-entries : load_registry entries ≡ ok loaded
unfolding load_registry
load_registry-entries = refl

-- a scope that is not known is refused, and an object where a scope stands raises
load_registry-refused :
    (load_registry (
        (
          "t",
          obj (
              entry "subject"
                (str "a")
                (entry "scopes" (arr (item (str "all") no_items)) no_entries)),
        )
        ∷ [])
      ≡ err invalid_registry)
    × (load_registry (
          (
            "t",
            obj (
                entry "subject"
                  (str "a")
                  (entry "scopes" (arr (item (obj no_entries) no_items)) no_entries)),
          )
          ∷ [])
        ≡ err unhashable)
unfolding load_registry
load_registry-refused = (refl, refl)

check-loaded :
    check (record { token = none; principals = loaded }) (some "Bearer s3cret")
    ≡ some (record {
      subject = "agent.alpha";
      kind = "agent";
      token_id = "tok_alpha";
      scopes = "memory.read" ∷ [];
    })
unfolding check
check-loaded = refl

check-IsAllowed_example : IsAllowed (record {
  subject = "agent.alpha";
  kind = "agent";
  token_id = "tok_alpha";
  scopes = "memory.read" ∷ [];
})
check-IsAllowed_example =
    check-IsAllowed entries loaded none (some "Bearer s3cret") _ load_registry-entries check-loaded
