-- ===== src/RateLimit.antt =====
-- The sliding-window rate limiter of daemon/peer/ratelimit.go. The clock is an argument of each
-- call. `range` over `hits` visits each key once and only rewrites or deletes the visited key, so
-- the sweep is a recursion on the entries.
pub mod Prune
pub mod Refinement
pub mod Budget
use sharing.Base.{
  ℕ, ◌+◌, ◌-◌, String, Bool, true, false, Option, none, some, List, [], ◌∷◌, ◌++◌, ltb, leb, length,
  str_eq, if◌then◌else◌,
}
use sharing.Base.Dict.{Dict, get, put}
use sharing.Base.Int.{ℤ, sub_ℕ}
use sharing.Base.Time.{after}

abbrev sweep_threshold : ℕ
sweep_threshold = 1024

-- `rateLimiter`
pub record RateLimiter : Type 0 where
  pub limit : ℕ
  pub window : ℕ
  pub hits : Dict (List ℕ)

-- `newRateLimiter`
unfoldable pub new_rate_limiter : ℕ → ℕ → RateLimiter
new_rate_limiter limit window = record { limit = limit; window = window; hits = [] }

-- `prune`
unfoldable pub prune : List ℕ → ℤ → List ℕ
prune [] cutoff = []
prune (t ∷ times) cutoff =
    let rest = prune times cutoff in if after t cutoff then t ∷ rest else rest

-- `r.hits[key]`, which is the nil slice for a missing key.
abbrev pub or_nil : Option (List ℕ) → List ℕ
or_nil none = []
or_nil (some times) = times

unfoldable pub hits_of : RateLimiter → String → List ℕ
hits_of r key = or_nil (get r.hits key)

-- What becomes of one entry in the sweep.
unfoldable sweep_entry : String → List ℕ → Dict (List ℕ) → Dict (List ℕ)
sweep_entry k [] rest = rest
sweep_entry k (t ∷ kept) rest = (k, t ∷ kept) ∷ rest

-- `sweepLocked`
unfoldable pub sweep_locked : Dict (List ℕ) → ℤ → String → Dict (List ℕ)
unfolding sweep_entry
sweep_locked [] cutoff keep = []
sweep_locked ((k, times) ∷ hits) cutoff keep =
    let rest = sweep_locked hits cutoff keep in
    if str_eq k keep then (k, times) ∷ rest else sweep_entry k (prune times cutoff) rest

-- `allow`
unfoldable pub allow : RateLimiter → String → ℕ → RateLimiter × Bool
unfolding hits_of
allow r key now =
    let cutoff = sub_ℕ now r.window in
    let kept = prune (hits_of r key) cutoff in
    if leb r.limit (length kept)
    then (record r { hits = put r.hits key kept }, false)
    else let hits' = put r.hits key (kept ++ now ∷ []) in
      (
        record r {
          hits =
              if ltb sweep_threshold (length hits') then sweep_locked hits' cutoff key else hits';
        },
        true,
      )

-- `remaining`
unfoldable pub remaining : RateLimiter → String → ℕ → RateLimiter × ℕ
unfolding hits_of
remaining r key now =
    let kept = prune (hits_of r key) (sub_ℕ now r.window) in
    (
      record r { hits = put r.hits key kept },
      if leb r.limit (length kept) then 0 else r.limit - length kept,
    )
