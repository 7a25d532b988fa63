-- ===== src/Base/Dict.antt =====
-- Go's `map[string]V`: an association list whose keys are set in place, so that a key that is set
-- twice occurs once. `range` over a map visits the entries in an unspecified order; the program
-- sorts what it collects so, or treats each entry on its own.
use Prim.Native.String.{String}
use mathlib.Core.Path.{◌≡◌, refl, subst₂, ap}
use mathlib.Core.Bool.{Bool, true, false}
use mathlib.Core.List.{List, [], ◌∷◌}
use mathlib.Core.Option.{Option, none, some}
use text.Mathlib.Text.{◌==◌}
use text.Mathlib.TextEquality.{eq_iff}
use text.Mathlib.TextPositions.{eq_refl}
use native.Mathlib.Omega.{arith}
use mathlib.Core.Logic.{inl, inr}
use sharing.Base.Tests.{if◌then◌else◌, Bool-cases}

abbrev pub Dict {ℓ} : Type ℓ → Type ℓ
Dict V = List (String × V)

-- A key that is the key of some entry.
abbrev pub is_some {ℓ} : {A : Type ℓ} → Option A → Bool
is_some none = false
is_some (some a) = true

module _ {ℓ} {V : Type ℓ} where
  -- `m[k]`
  unfoldable pub get : Dict V → String → Option V
  get [] k = none
  get ((j, v) ∷ m) k = if j == k then some v else get m k

  -- `m[k] = v`
  unfoldable pub put : Dict V → String → V → Dict V
  put [] k v = (k, v) ∷ []
  put ((j, w) ∷ m) k v = if j == k then (j, v) ∷ m else (j, w) ∷ put m k v

  -- `delete(m, k)`
  unfoldable pub delete : Dict V → String → Dict V
  delete [] k = []
  delete ((j, v) ∷ m) k = let rest = delete m k in if j == k then rest else (j, v) ∷ rest

  -- The values, in the order of the entries.
  unfoldable pub values : Dict V → List V
  values [] = []
  values ((j, v) ∷ m) = v ∷ values m

  -- The keys, in the order of the entries.
  unfoldable pub keys : Dict V → List String
  keys [] = []
  keys ((j, v) ∷ m) = j ∷ keys m

  pub get-put :
      (m : Dict V) (k j : String) (v : V) → get (put m k v) j ≡ (if k == j then some v else get m j)
  unfolding get put
  get-put [] k j v = refl
  get-put ((i, w) ∷ m) k j v = ground (arith, get-put m k j v, eq_iff i k, eq_iff i j, eq_iff k j)

  pub get-delete :
      (m : Dict V) (k j : String) → get (delete m k) j ≡ (if k == j then none else get m j)
  unfolding get delete
  get-delete [] k j = ground arith
  get-delete ((i, w) ∷ m) k j = ground (arith, get-delete m k j, eq_iff i k, eq_iff i j, eq_iff k j)

-- No key occurs twice.
abbrev pub IsMap {ℓ} : {V : Type ℓ} → Dict V → Type ℓ
IsMap [] = Unit
IsMap ((j, v) ∷ m) = (get m j ≡ none) × IsMap m

module _ {ℓ} {V : Type ℓ} where
  pub put-IsMap : (m : Dict V) (k : String) (v : V) → IsMap m → IsMap (put m k v)
  unfolding put get
  put-IsMap [] k v h = (refl, tt)
  put-IsMap ((j, w) ∷ m) k v h = elim (Bool-cases (j == k)) [
    | inl e ↦ rw e h
    | inr e ↦
        rw e
          (rw (get-put m k j v) (ground (arith, h.0, eq_iff j k, eq_iff k j)), put-IsMap m k v h.1)
  ]

  pub delete-IsMap : (m : Dict V) (k : String) → IsMap m → IsMap (delete m k)
  unfolding delete
  delete-IsMap [] k h = tt
  delete-IsMap ((j, w) ∷ m) k h = elim (Bool-cases (j == k)) [
    | inl e ↦ rw e (delete-IsMap m k h.1)
    | inr e ↦ rw e (rw (get-delete m k j) (ground (arith, h.0)), delete-IsMap m k h.1)
  ]

-- Each entry satisfies the predicate.
abbrev pub All {ℓ κ} : {V : Type ℓ} → (String → V → Type κ) → Dict V → Type κ
All P [] = Unit
All P ((k, v) ∷ m) = P k v × All P m

module _ {ℓ κ} {V : Type ℓ} (P : String → V → Type κ) where
  pub All-put : (m : Dict V) (k : String) (v : V) → All P m → P k v → All P (put m k v)
  unfolding put
  All-put [] k v h p = (p, tt)
  All-put ((j, w) ∷ m) k v h p = elim (Bool-cases (j == k)) [
    | inl e ↦ rw e (rw ((eq_iff j k).0 e) p, h.1)
    | inr e ↦ rw e (h.0, All-put m k v h.1 p)
  ]

  pub All-delete : (m : Dict V) (k : String) → All P m → All P (delete m k)
  unfolding delete
  All-delete [] k h = tt
  All-delete ((j, w) ∷ m) k h = elim (Bool-cases (j == k)) [
    | inl e ↦ rw e (All-delete m k h.1)
    | inr e ↦ rw e (h.0, All-delete m k h.1)
  ]

  pub All-get : (m : Dict V) (k : String) (v : V) → All P m → get m k ≡ some v → P k v
  unfolding get
  All-get [] k v h e = cc e
  All-get ((j, w) ∷ m) k v h e = elim (Bool-cases (j == k)) [
    | inl q ↦ let same : w ≡ v = ground arith in subst₂ P ((eq_iff j k).0 q) same h.0
    | inr q ↦ All-get m k v h.1 (ground arith)
  ]

  -- What holds of whatever can be looked up holds of each entry.
  pub All-of_get :
      (m : Dict V) → IsMap m → ((k : String) (v : V) → get m k ≡ some v → P k v) → All P m
  unfolding get
  All-of_get [] u h = tt
  All-of_get ((j, v) ∷ m) u h = (
    h j v (rw (eq_refl j)),
    All-of_get m u.1 (λ k w e. h k w (elim (Bool-cases (j == k)) [
      | inl q ↦ cc (u.0, ap (get m) ((eq_iff j k).0 q), e)
      | inr q ↦ rw q e
    ])),
  )
