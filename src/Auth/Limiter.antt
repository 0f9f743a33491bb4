-- ===== src/Auth/Limiter.antt =====
-- `FixedWindowLimiter`. Times are ticks of the clock; the buckets are the dict of deques.
pub mod Window
use a2a_superhub.Prelude.{
  ℕ, ◌+◌, max, String, Bool, true, false, List, [], ◌∷◌, ◌++◌, ◌==◌, ltb, leb, length,
  if◌then◌else◌,
}

pub record Limiter : Type 0 where
  pub limit : ℕ
  pub window : ℕ
  pub events : List (String × List ℕ)

-- `FixedWindowLimiter(limit, window_seconds)`
unfoldable pub limiter : ℕ → ℕ → Limiter
limiter limit window = record { limit = max 1 limit; window = max 1 window; events = [] }

-- `self._events[key]`, a defaultdict
unfoldable pub bucket_of : String → List (String × List ℕ) → List ℕ
bucket_of key [] = []
bucket_of key ((k, bucket) ∷ rest) = if k == key then bucket else bucket_of key rest

unfoldable pub set_bucket : String → List ℕ → List (String × List ℕ) → List (String × List ℕ)
set_bucket key bucket [] = (key, bucket) ∷ []
set_bucket key bucket ((k, old) ∷ rest) =
    if k == key then (key, bucket) ∷ rest else (k, old) ∷ set_bucket key bucket rest

-- `while bucket and now - bucket[0] > self.window_seconds: bucket.popleft()`
unfoldable pub expire : ℕ → ℕ → List ℕ → List ℕ
expire now window [] = []
expire now window (t ∷ bucket) =
    let rest = expire now window bucket in if ltb (t + window) now then rest else t ∷ bucket

-- one call on a bucket: whether it is allowed, and the bucket after it
unfoldable pub admit : ℕ → ℕ → ℕ → List ℕ → Bool × List ℕ
unfolding expire
admit limit window now bucket =
    let live = expire now window bucket in
    if leb limit (length live) then (false, live) else (true, live ++ now ∷ [])

-- `FixedWindowLimiter.allow`
unfoldable pub allow : String → ℕ → Limiter → Bool × Limiter
unfolding bucket_of set_bucket admit
allow key now l =
    let (allowed, bucket) = admit l.limit l.window now (bucket_of key l.events) in
    (allowed, record l { events = set_bucket key bucket l.events })
