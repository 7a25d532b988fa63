-- ===== src/RateLimit/Budget.antt =====
-- The budget that the limiter enforces: in every window of the configured length, wherever it lies,
-- a source is granted at most `limit` attempts.
use sharing.Base.{
  ℕ, ◌+◌, ◌≤◌, String, ◌≡◌, Bool, List, [], ◌∷◌, ◌++◌, arith, leb, ltb, eq_iff, if◌then◌else◌, ◌&&◌,
}
use mathlib.Core.List.{append_assoc, append-nil}
use sharing.RateLimit.{new_rate_limiter}
use sharing.RateLimit.Refinement.{
  recent, times, times-append, grants, spec_run, run, IsMonotone, run-eq-spec_run, logged,
}

-- How many of the times lie after `c` and at or before `c + w`.
unfoldable pub within : ℕ → ℕ → List ℕ → ℕ
within c w [] = 0
within c w (t ∷ ts) =
    let rest = within c w ts in if ltb c t && leb t (c + w) then rest + 1 else rest

-- The attempts that were answered with `true`.
unfoldable pub granted : List (String × ℕ) → List Bool → List (String × ℕ)
granted [] answers = []
granted (a ∷ attempts) [] = []
granted (a ∷ attempts) (b ∷ answers) =
    let rest = granted attempts answers in if b then a ∷ rest else rest

within-append : (c w : ℕ) (xs ys : List ℕ) → within c w (xs ++ ys) ≡ within c w xs + within c w ys
unfolding within
within-append c w [] ys = omega arith
within-append c w (x ∷ xs) ys = ground (arith, within-append c w xs ys)

-- A window that contains `now` starts no earlier than the specification's own window at `now`.
within-le-recent : (c w now : ℕ) (ts : List ℕ) → now ≤ c + w → within c w ts ≤ recent now w ts
unfolding within recent
within-le-recent c w now [] h = omega arith
within-le-recent c w now (t ∷ ts) h = ground (arith, within-le-recent c w now ts h)

-- One more answer of the specification keeps the budget.
within-logged :
    (limit w : ℕ) (log : List (String × ℕ)) (k j : String) (now c : ℕ)
    → within c w (times j log) ≤ limit
    → within c w (times j (logged log k now (grants limit w log k now))) ≤ limit
unfolding grants times within
within-logged limit w log k j now c h = ground (
  arith,
  eq_iff k j,
  times-append j log ((k, now) ∷ []),
  append-nil (times j log),
  within-append c w (times j log) (now ∷ []),
  within-le-recent c w now (times j log),
)

-- The attempts granted so far, and those that the specification grants from now on.
within-spec_run :
    (limit w : ℕ) (log attempts : List (String × ℕ)) (j : String) (c : ℕ)
    → within c w (times j log) ≤ limit
    → within c w (times j (log ++ granted attempts (spec_run limit w log attempts))) ≤ limit
unfolding spec_run granted
within-spec_run limit w log [] j c h = rw (append-nil log) h
within-spec_run limit w log ((k, t) ∷ attempts) j c h =
    let b = grants limit w log k t in
    ground (
      arith,
      append_assoc log ((k, t) ∷ [])
          (granted attempts (spec_run limit w (logged log k t b) attempts)),
      within-spec_run limit w (logged log k t b) attempts j c (within-logged limit w log k j t c h),
    )

-- Over any attempts at times that do not decrease, any source `j` and any window of the configured
-- length, which need not end at an attempt, at most `limit` attempts of `j` in it were granted.
pub within-granted-le-limit :
    (limit window : ℕ) (attempts : List (String × ℕ)) (j : String) (c : ℕ)
    → IsMonotone 0 attempts
    → within c window (times j (granted attempts (run (new_rate_limiter limit window) attempts)))
      ≤ limit
within-granted-le-limit limit window attempts j c m =
    rw (run-eq-spec_run limit window attempts m)
      (within-spec_run limit window [] attempts j c (unfold times within in omega arith))
