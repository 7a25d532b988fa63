-- ===== src/RateLimit/Refinement.antt =====
-- The rate limiter against its specification: one that forgets nothing and sweeps nothing.
use sharing.Base.{
  ℕ, ◌≤◌, String, ◌≡◌, refl, Bool, List, [], ◌∷◌, ◌++◌, length, arith, ltb, ◌+◌, str_eq, eq_iff,
  if◌then◌else◌, ◌&&◌,
}
use mathlib.Core.List.{append-nil}
use sharing.Base.Dict.{get, put, get-put, IsMap, put-IsMap}
use sharing.Base.Int.{sub_ℕ}
use sharing.RateLimit.{RateLimiter, new_rate_limiter, prune, hits_of, allow}
use sharing.RateLimit.Prune.{prune-append, prune-prune, prune-sweep_locked, sweep_locked-IsMap}

-- The times at which a key was granted an attempt.
unfoldable pub times : String → List (String × ℕ) → List ℕ
times k [] = []
times k ((j, t) ∷ log) = let rest = times k log in if str_eq j k then t ∷ rest else rest

-- How many of the times lie less than `window` before `now`.
unfoldable pub recent : ℕ → ℕ → List ℕ → ℕ
recent now window [] = 0
recent now window (t ∷ ts) =
    let rest = recent now window ts in if ltb now (t + window) then rest + 1 else rest

-- The specification keeps the log of all granted attempts, and grants one exactly if the key has
-- fewer than `limit` of them in the window that ends now.
unfoldable pub grants : ℕ → ℕ → List (String × ℕ) → String → ℕ → Bool
grants limit window log key now = ltb (recent now window (times key log)) limit

-- The answers to a sequence of attempts, each a source key and a time.
unfoldable pub spec_run : ℕ → ℕ → List (String × ℕ) → List (String × ℕ) → List Bool
spec_run limit window log [] = []
spec_run limit window log ((k, t) ∷ attempts) =
    let b = grants limit window log k t in
    b ∷ spec_run limit window (if b then log ++ (k, t) ∷ [] else log) attempts

unfoldable pub run : RateLimiter → List (String × ℕ) → List Bool
run r [] = []
run r ((k, t) ∷ attempts) = let (r', b) = allow r k t in b ∷ run r' attempts

-- The clock does not run backwards.
abbrev pub IsMonotone : ℕ → List (String × ℕ) → Type 0
IsMonotone last [] = Unit
IsMonotone last ((k, t) ∷ attempts) = (last ≤ t) × IsMonotone t attempts

pub times-append :
    (k : String) (log log' : List (String × ℕ))
    → times k (log ++ log') ≡ times k log ++ times k log'
unfolding times
times-append k [] log' = refl
times-append k ((j, t) ∷ log) log' = ground (arith, times-append k log log')

-- The limiter's state and the log have the same times in every window that ends now or later.
record Simulates (r : RateLimiter) (log : List (String × ℕ)) (last : ℕ) : Type 0 where
  pub is_map : IsMap r.hits
  pub agree :
      (k : String) (n : ℕ)
      → last ≤ n
      → prune (hits_of r k) (sub_ℕ n r.window) ≡ prune (times k log) (sub_ℕ n r.window)

length-prune :
    (now window : ℕ) (ts : List ℕ) → length (prune ts (sub_ℕ now window)) ≡ recent now window ts
unfolding prune recent
length-prune now window [] = refl
length-prune now window (t ∷ ts) = ground (arith, length-prune now window ts)

grants_agree :
    {r : RateLimiter} {log : List (String × ℕ)} {last : ℕ} (k : String) (now : ℕ)
    → Simulates r log last
    → last ≤ now
    → (allow r k now).1 ≡ grants r.limit r.window log k now
unfolding allow grants hits_of
grants_agree {r} {log} k now s h =
    ground (arith, s.agree k now h, length-prune now r.window (times k log))

allow_fixed :
    (r : RateLimiter) (k : String) (now : ℕ)
    → ((allow r k now).0.limit ≡ r.limit) × ((allow r k now).0.window ≡ r.window)
unfolding allow
allow_fixed r k now = ground arith

allow-IsMap : (r : RateLimiter) (k : String) (now : ℕ) → IsMap r.hits → IsMap (allow r k now).0.hits
unfolding allow
allow-IsMap r k now u =
    let c = sub_ℕ now r.window in
    let kept = prune (hits_of r k) c in
    let hits' = put r.hits k (kept ++ now ∷ []) in
    ground (
      arith,
      put-IsMap r.hits k kept u,
      put-IsMap r.hits k (kept ++ now ∷ []) u,
      sweep_locked-IsMap hits' k c (put-IsMap r.hits k (kept ++ now ∷ []) u),
    )

-- What `allow` leaves in the window of key `j`, at and after the attempt.
prune-allow :
    (r : RateLimiter) (k j : String) (now n : ℕ)
    → now ≤ n
    → IsMap r.hits
    → prune (hits_of (allow r k now).0 j) (sub_ℕ n r.window) ≡ (
        if str_eq k j && (allow r k now).1
        then prune (hits_of r j) (sub_ℕ n r.window) ++ prune (now ∷ []) (sub_ℕ n r.window)
        else prune (hits_of r j) (sub_ℕ n r.window))
unfolding allow
prune-allow r k j now n h u =
    let c = sub_ℕ now r.window in
    let kept = prune (hits_of r k) c in
    let hits' = put r.hits k (kept ++ now ∷ []) in
    ground (
      arith,
      eq_iff k j,
      get-put r.hits k j kept,
      get-put r.hits k j (kept ++ now ∷ []),
      prune-prune (hits_of r k) r.window now n h,
      prune-append kept (now ∷ []) (sub_ℕ n r.window),
      prune-sweep_locked hits' k j r.window now n h (put-IsMap r.hits k (kept ++ now ∷ []) u),
    )

-- The log after an attempt with answer `b`.
abbrev pub logged : List (String × ℕ) → String → ℕ → Bool → List (String × ℕ)
logged log k t b = if b then log ++ (k, t) ∷ [] else log

prune-times-logged :
    (log : List (String × ℕ)) (k j : String) (now n w : ℕ) (b : Bool)
    → prune (times j (logged log k now b)) (sub_ℕ n w) ≡ (
        if str_eq k j && b
        then prune (times j log) (sub_ℕ n w) ++ prune (now ∷ []) (sub_ℕ n w)
        else prune (times j log) (sub_ℕ n w))
unfolding times
prune-times-logged log k j now n w b = ground (
  arith,
  times-append j log ((k, now) ∷ []),
  append-nil (times j log),
  prune-append (times j log) (now ∷ []) (sub_ℕ n w),
)

allow-Simulates :
    {r : RateLimiter} {log : List (String × ℕ)} {last : ℕ} (k : String) (now : ℕ)
    → Simulates r log last
    → last ≤ now
    → Simulates (allow r k now).0 (logged log k now (allow r k now).1) now
allow-Simulates {r} {log} k now s h = record {
  is_map = allow-IsMap r k now s.is_map;
  agree = λ j n hn. rw (allow_fixed r k now).1 (
      rw (prune-allow r k j now n hn s.is_map) (
        rw (prune-times-logged log k j now n r.window (allow r k now).1)
          (rw (s.agree j n (omega arith)) refl)));
}

run-spec_run :
    (r : RateLimiter) (log attempts : List (String × ℕ)) (last : ℕ)
    → Simulates r log last
    → IsMonotone last attempts
    → run r attempts ≡ spec_run r.limit r.window log attempts
unfolding run spec_run
run-spec_run r log [] last s m = refl
run-spec_run r log ((k, t) ∷ attempts) last s m = ground (
  arith,
  grants_agree k t s m.0,
  allow_fixed r k t,
  run-spec_run (allow r k t).0 (logged log k t (allow r k t).1) attempts t
      (allow-Simulates k t s m.0) m.1,
)

-- Over any attempts from any sources at times that do not decrease, the limiter gives the answers
-- of the specification.
pub run-eq-spec_run :
    (limit window : ℕ) (attempts : List (String × ℕ))
    → IsMonotone 0 attempts
    → run (new_rate_limiter limit window) attempts ≡ spec_run limit window [] attempts
unfolding new_rate_limiter
run-eq-spec_run limit window attempts m =
    run-spec_run (new_rate_limiter limit window) [] attempts 0
      (unfold times hits_of get in record { is_map = tt; agree = λ k n h. refl }) m
