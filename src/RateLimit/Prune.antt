-- ===== src/RateLimit/Prune.antt =====
-- `prune` of daemon/peer/ratelimit.go: pruning at an earlier cutoff first changes nothing.
use sharing.Base.{ℕ, ◌≤◌, String, ◌≡◌, refl, List, [], ◌∷◌, ◌++◌, arith, eq_iff, none}
use sharing.Base.Dict.{Dict, get, IsMap}
use sharing.Base.Int.{ℤ, sub_ℕ}
use sharing.RateLimit.{prune, or_nil, sweep_locked}

pub prune-append : (xs ys : List ℕ) (c : ℤ) → prune (xs ++ ys) c ≡ prune xs c ++ prune ys c
unfolding prune
prune-append [] ys c = refl
prune-append (x ∷ xs) ys c = ground (arith, prune-append xs ys c)

-- The window only moves forward: what is outside at `m` is outside at every later `n`.
pub prune-prune :
    (xs : List ℕ) (w m n : ℕ)
    → m ≤ n
    → prune (prune xs (sub_ℕ m w)) (sub_ℕ n w) ≡ prune xs (sub_ℕ n w)
unfolding prune
prune-prune [] w m n h = refl
prune-prune (x ∷ xs) w m n h = ground (arith, prune-prune xs w m n h)

-- A key that is absent stays absent.
get-sweep_locked-none :
    (hits : Dict (List ℕ)) (keep k : String) (c : ℤ)
    → get hits k ≡ none
    → get (sweep_locked hits c keep) k ≡ none
unfolding get sweep_locked
get-sweep_locked-none [] keep k c h = refl
get-sweep_locked-none ((j, times) ∷ hits) keep k c h =
    ground (arith, get-sweep_locked-none hits keep k c)

-- The sweep hides nothing: at and after the moment of the sweep each key has the same times in the
-- window as before.
pub prune-sweep_locked :
    (hits : Dict (List ℕ)) (keep k : String) (w m n : ℕ)
    → m ≤ n
    → IsMap hits
    → prune (or_nil (get (sweep_locked hits (sub_ℕ m w) keep) k)) (sub_ℕ n w)
      ≡ prune (or_nil (get hits k)) (sub_ℕ n w)
unfolding get sweep_locked prune
prune-sweep_locked [] keep k w m n h u = refl
prune-sweep_locked ((j, times) ∷ hits) keep k w m n h u = ground (
  arith,
  eq_iff j k,
  prune-prune times w m n h,
  prune-sweep_locked hits keep k w m n h u.1,
  get-sweep_locked-none hits keep j (sub_ℕ m w) u.0,
)

pub sweep_locked-IsMap :
    (hits : Dict (List ℕ)) (keep : String) (c : ℤ) → IsMap hits → IsMap (sweep_locked hits c keep)
unfolding sweep_locked
sweep_locked-IsMap [] keep c u = tt
sweep_locked-IsMap ((j, times) ∷ hits) keep c u =
    ground (arith, get-sweep_locked-none hits keep j c u.0, sweep_locked-IsMap hits keep c u.1)
