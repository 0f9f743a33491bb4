-- ===== src/Auth/Limiter/Window.antt =====
-- The limiter against an ideal one that remembers every call that it has allowed.
use a2a_superhub.Prelude.{
  ℕ, ◌+◌, ◌≤◌, max, String, ◌≡◌, refl, true, false, List, [], ◌∷◌, ◌++◌, ◌==◌, ltb, leb, length,
  if◌then◌else◌, arith, eq_iff, eq_refl, Bool-cases, inl, inr, suc, sym, ◌∙◌, ap,
}
use a2a_superhub.Auth.Limiter.{Limiter, limiter, bucket_of, set_bucket, expire, admit, allow}

-- the times stand in order, from `low` on and up to `last`
abbrev pub IsOrdered : ℕ → ℕ → List ℕ → Type 0
IsOrdered low last [] = Unit
IsOrdered low last (t ∷ ts) = (low ≤ t) × (t ≤ last) × IsOrdered t last ts

module _ (window : ℕ) where
  -- how many of the times are no more than the window before `now`
  unfoldable pub recent : ℕ → List ℕ → ℕ
  recent now [] = 0
  recent now (t ∷ ts) = let rest = recent now ts in if leb now (t + window) then suc rest else rest

  recent-append : (now : ℕ) (xs ys : List ℕ) → recent now (xs ++ ys) ≡ recent now xs + recent now ys
  unfolding recent
  recent-append now [] ys = omega arith
  recent-append now (x ∷ xs) ys = ground (arith, recent-append now xs ys)

  recent-all :
      (now low last : ℕ) (ts : List ℕ)
      → now ≤ low + window
      → IsOrdered low last ts
      → recent now ts ≡ length ts
  unfolding recent
  recent-all now low last [] h o = refl
  recent-all now low last (t ∷ ts) h o = ground (arith, recent-all now t last ts (omega arith) o.2)

  -- what `expire` leaves is what is recent
  length-expire :
      (now low last : ℕ) (ts : List ℕ)
      → IsOrdered low last ts
      → length (expire now window ts) ≡ recent now ts
  unfolding recent expire
  length-expire now low last [] o = refl
  length-expire now low last (t ∷ ts) o = elim (Bool-cases (ltb (t + window) now)) [
    | inl old ↦ ground (arith, length-expire now t last ts o.2)
    | inr new ↦ ground (arith, recent-all now t last ts (ground arith) o.2)
  ]

  -- what has expired stays out of the window
  recent-expire :
      (now later : ℕ) (ts : List ℕ)
      → now ≤ later
      → recent later (expire now window ts) ≡ recent later ts
  unfolding recent expire
  recent-expire now later [] h = refl
  recent-expire now later (t ∷ ts) h = ground (arith, recent-expire now later ts h)

  IsOrdered-lower :
      (low low' last : ℕ) (ts : List ℕ)
      → low ≤ low'
      → IsOrdered low' last ts
      → IsOrdered low last ts
  IsOrdered-lower low low' last [] h o = tt
  IsOrdered-lower low low' last (t ∷ ts) h o = (omega arith, o.1, o.2)

  IsOrdered-append :
      (low last now : ℕ) (ts : List ℕ)
      → IsOrdered low last ts
      → low ≤ now
      → last ≤ now
      → IsOrdered low now (ts ++ now ∷ [])
  IsOrdered-append low last now [] o h k = (h, omega arith, tt)
  IsOrdered-append low last now (t ∷ ts) o h k =
      (o.0, omega arith, IsOrdered-append t last now ts o.2 (omega arith) k)

  IsOrdered-later :
      (low last now : ℕ) (ts : List ℕ) → last ≤ now → IsOrdered low last ts → IsOrdered low now ts
  IsOrdered-later low last now [] h o = tt
  IsOrdered-later low last now (t ∷ ts) h o =
      (o.0, omega arith, IsOrdered-later t last now ts h o.2)

  IsOrdered-expire :
      (now low last : ℕ) (ts : List ℕ)
      → IsOrdered low last ts
      → IsOrdered low last (expire now window ts)
  unfolding expire
  IsOrdered-expire now low last [] o = tt
  IsOrdered-expire now low last (t ∷ ts) o = ground (
    arith,
    IsOrdered-lower low t last (expire now window ts) o.0 (IsOrdered-expire now t last ts o.2),
  )

bucket_of-set_bucket_self :
    (key : String) (bucket : List ℕ) (d : List (String × List ℕ))
    → bucket_of key (set_bucket key bucket d) ≡ bucket
unfolding bucket_of set_bucket
bucket_of-set_bucket_self key bucket [] = ground (arith, eq_refl key)
bucket_of-set_bucket_self key bucket (x ∷ xs) =
    ground (arith, eq_refl key, bucket_of-set_bucket_self key bucket xs)

bucket_of-set_bucket_ne :
    (k key : String) (bucket : List ℕ) (d : List (String × List ℕ))
    → (k == key) ≡ false
    → bucket_of key (set_bucket k bucket d) ≡ bucket_of key d
unfolding bucket_of set_bucket
bucket_of-set_bucket_ne k key bucket [] h = ground arith
bucket_of-set_bucket_ne k key bucket (x ∷ xs) h =
    ground
      (arith, bucket_of-set_bucket_ne k key bucket xs h, eq_iff x.0 k, eq_iff x.0 key, eq_iff k key)

window-allow : (k : String) (now : ℕ) (l : Limiter) → (allow k now l).1.window ≡ l.window
unfolding allow
window-allow k now l = refl

limit-allow : (k : String) (now : ℕ) (l : Limiter) → (allow k now l).1.limit ≡ l.limit
unfolding allow
limit-allow k now l = refl

-- the calls come in the order of their times
abbrev pub IsTimed : ℕ → List (String × ℕ) → Type 0
IsTimed last [] = Unit
IsTimed last ((k, now) ∷ calls) = (last ≤ now) × IsTimed now calls

module _ (key : String) where
  -- the times of the calls with the key that the limiter allows
  unfoldable pub accepted : List (String × ℕ) → Limiter → List ℕ
  accepted [] l = []
  accepted ((k, now) ∷ calls) l =
      let rest = accepted calls (allow k now l).1 in
      if k == key then (if (allow k now l).0 then now ∷ rest else rest) else rest

  -- the same of a limiter that keeps every time, and counts those in the window
  unfoldable pub ideal : ℕ → ℕ → List ℕ → List (String × ℕ) → List ℕ
  unfolding recent
  ideal limit window past [] = []
  ideal limit window past ((k, now) ∷ calls) =
      let more = ideal limit window (past ++ now ∷ []) calls in
      let same = ideal limit window past calls in
      if k == key then (if ltb (recent window now past) limit then now ∷ more else same) else same

  record IsTracking (l : Limiter) (past : List ℕ) (last : ℕ) : Type 0 where
    ordered : IsOrdered 0 last (bucket_of key l.events)
    counts :
        (now : ℕ)
        → last ≤ now
        → recent l.window now past ≡ recent l.window now (bucket_of key l.events)

  module _ (now : ℕ) (l : Limiter) (past : List ℕ) (last : ℕ) (timed : last ≤ now)
      (h : IsTracking l past last) where
    abbrev live : List ℕ
    live = expire now l.window (bucket_of key l.events)

    length-live : length live ≡ recent l.window now past
    length-live =
        length-expire l.window now 0 last (bucket_of key l.events) h.ordered
        ∙ sym (h.counts now timed)

    allow-recent : (allow key now l).0 ≡ ltb (recent l.window now past) l.limit
    unfolding allow
    allow-recent = ground (arith, length-live)

    live-counts :
        (later : ℕ) → now ≤ later → recent l.window later past ≡ recent l.window later live
    live-counts later k =
        h.counts later (omega arith)
        ∙ sym (recent-expire l.window now later (bucket_of key l.events) k)

    live-IsOrdered : IsOrdered 0 last live
    live-IsOrdered = IsOrdered-expire l.window now 0 last (bucket_of key l.events) h.ordered

    bucket-refused :
        ltb (recent l.window now past) l.limit ≡ false
        → bucket_of key (allow key now l).1.events ≡ live
    unfolding allow
    bucket-refused no_room =
        bucket_of-set_bucket_self key (admit l.limit l.window now (bucket_of key l.events)).1
          l.events
        ∙ ground (arith, length-live)

    bucket-allowed :
        ltb (recent l.window now past) l.limit ≡ true
        → bucket_of key (allow key now l).1.events ≡ live ++ now ∷ []
    unfolding allow
    bucket-allowed room =
        bucket_of-set_bucket_self key (admit l.limit l.window now (bucket_of key l.events)).1
          l.events
        ∙ ground (arith, length-live)

    refused-IsTracking :
        ltb (recent l.window now past) l.limit ≡ false → IsTracking (allow key now l).1 past now
    refused-IsTracking no_room = record {
      ordered =
          rw (bucket-refused no_room)
            (IsOrdered-later l.window 0 last now live timed live-IsOrdered);
      counts = λ later below.
          rw (bucket-refused no_room, window-allow key now l) (live-counts later below);
    }

    allowed-IsTracking :
        ltb (recent l.window now past) l.limit ≡ true
        → IsTracking (allow key now l).1 (past ++ now ∷ []) now
    allowed-IsTracking room = record {
      ordered =
          rw (bucket-allowed room)
            (IsOrdered-append l.window 0 last now live live-IsOrdered (omega arith) timed);
      counts = λ later below.
          rw
            (
              bucket-allowed room,
              window-allow key now l,
              recent-append l.window later past (now ∷ []),
              recent-append l.window later live (now ∷ []),
            )
            (ap (λ n. n + recent l.window later (now ∷ [])) (live-counts later below));
    }

    other-IsTracking : (k : String) → (k == key) ≡ false → IsTracking (allow k now l).1 past now
    unfolding allow
    other-IsTracking k other = record {
      ordered =
          rw (bucket_of-set_bucket_ne, other)
            (IsOrdered-later l.window 0 last now (bucket_of key l.events) timed h.ordered);
      counts = λ later below. rw (bucket_of-set_bucket_ne, other) (h.counts later (omega arith));
    }

  accepted-ideal' :
      (k : String) (now : ℕ) (l : Limiter) (calls : List (String × ℕ)) (past : List ℕ)
      → accepted calls (allow k now l).1
        ≡ ideal (allow k now l).1.limit (allow k now l).1.window past calls
      → accepted calls (allow k now l).1 ≡ ideal l.limit l.window past calls
  accepted-ideal' k now l calls past h = rw (limit-allow k now l, window-allow k now l) at h

  accepted-ideal :
      (calls : List (String × ℕ)) (l : Limiter) (past : List ℕ) (last : ℕ)
      → IsTimed last calls
      → IsTracking l past last
      → accepted calls l ≡ ideal l.limit l.window past calls
  unfolding accepted ideal
  accepted-ideal [] l past last timed h = refl
  accepted-ideal ((k, now) ∷ calls) l past last timed h = elim (Bool-cases (k == key)) [
    | inl same ↦
        rw ((eq_iff k key).0 same, eq_refl key)
          (elim (Bool-cases (ltb (recent l.window now past) l.limit)) [
            | inl room ↦
                rw (room, allow-recent now l past last timed.0 h, room)
                  (ap (◌∷◌ now) (
                    accepted-ideal' key now l calls (past ++ now ∷ []) (
                      accepted-ideal calls (allow key now l).1 (past ++ now ∷ []) now timed.1
                        (allowed-IsTracking now l past last timed.0 h room))))
            | inr no_room ↦
                rw (no_room, allow-recent now l past last timed.0 h, no_room)
                  (accepted-ideal' key now l calls past (
                    accepted-ideal calls (allow key now l).1 past now timed.1
                      (refused-IsTracking now l past last timed.0 h no_room)))
          ])
    | inr other ↦ rw other (
        accepted-ideal' k now l calls past (
          accepted-ideal calls (allow k now l).1 past now timed.1
            (other-IsTracking now l past last timed.0 h k other)))
  ]

-- Over any calls whose times do not go back, whatever their keys, a fresh limiter allows just those
-- calls of a key for which fewer than `limit` calls of that key were allowed in the window that ends
-- with the call; a limit or a window of 0 counts as 1. So forgetting the times that have expired
-- changes no answer, and no window holds more than `limit` allowed calls.
pub allow-ideal :
    (key : String) (limit window : ℕ) (calls : List (String × ℕ))
    → IsTimed 0 calls
    → accepted key calls (limiter limit window) ≡ ideal key (max 1 limit) (max 1 window) [] calls
unfolding limiter bucket_of recent
allow-ideal key limit window calls timed =
    accepted-ideal key calls (limiter limit window) [] 0 timed
      (record { ordered = tt; counts = λ now below. refl })
