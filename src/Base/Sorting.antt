-- ===== src/Base/Sorting.antt =====
-- `sort.Slice`. The program sorts elements of different keys by orders under which two of them are
-- never equal, so that there is one sorted order, whatever the algorithm.
use Prim.Native.String.{String}
use mathlib.Core.Path.{◌≡◌, refl, ◌∙◌}
use mathlib.Core.Bool.{Bool, true, false}
use mathlib.Core.List.{List, [], ◌∷◌, ◌++◌}
use mathlib.Core.Option.{Option, none, some}
use mathlib.Core.Logic.{inl, inr}
use text.Mathlib.Text.{◌==◌}
use text.Mathlib.TextEquality.{eq_iff}
use native.Mathlib.Omega.{arith}
use sharing.Base.Tests.{if◌then◌else◌, Bool-cases}
use sharing.Base.Lists.{All}
use sharing.Base.Dict
use sharing.Base.Dict.{Dict, get, values, IsMap}

module _ {ℓ} {A : Type ℓ} where
  unfoldable pub insert : (A → A → Bool) → A → List A → List A
  insert less x [] = x ∷ []
  insert less x (y ∷ ys) = if less y x then y ∷ insert less x ys else x ∷ y ∷ ys

  unfoldable pub sort : (A → A → Bool) → List A → List A
  sort less [] = []
  sort less (x ∷ xs) = insert less x (sort less xs)

  -- The last element with the key.
  unfoldable pub find : (A → String) → String → List A → Option A
  find key k [] = none
  find key k (x ∷ xs) = elim (find key k xs) [
    | none ↦ if key x == k then some x else none
    | some y ↦ some y
  ]

-- No two elements have the same key.
abbrev pub Distinct {ℓ} : {A : Type ℓ} → (A → String) → List A → Type ℓ
Distinct key [] = Unit
Distinct key (x ∷ xs) = (find key (key x) xs ≡ none) × Distinct key xs

-- No element comes before one that it is greater than, as `sort.SliceIsSorted` has it.
abbrev pub IsSorted {ℓ} : {A : Type ℓ} → (A → A → Bool) → List A → Type 0
IsSorted less [] = Unit
IsSorted less (x ∷ []) = Unit
IsSorted less (x ∷ y ∷ ys) = (less y x ≡ false) × IsSorted less (y ∷ ys)

module _ {ℓ} {A : Type ℓ} (less : A → A → Bool) (key : A → String) where
  pub find-insert :
      (x : A) (xs : List A) (k : String)
      → find key (key x) xs ≡ none
      → find key k (insert less x xs) ≡ find key k (x ∷ xs)
  unfolding find insert
  find-insert x [] k h = refl
  find-insert x (y ∷ ys) k h =
      ground (arith, eq_iff (key y) (key x), eq_iff (key y) k, eq_iff (key x) k, find-insert x ys k)

  pub find-sort :
      (xs : List A) (k : String) → Distinct key xs → find key k (sort less xs) ≡ find key k xs
  unfolding find sort
  find-sort [] k d = refl
  find-sort (x ∷ xs) k d =
      let fresh : find key (key x) (sort less xs) ≡ none = find-sort xs (key x) d.1 ∙ d.0 in
      rw (find-insert x (sort less xs) k fresh, find, find-sort xs k d.1)

  insert-Distinct :
      (x : A) (xs : List A)
      → find key (key x) xs ≡ none
      → Distinct key xs
      → Distinct key (insert less x xs)
  unfolding insert find
  insert-Distinct x [] h d = (refl, tt)
  insert-Distinct x (y ∷ ys) h d = elim (Bool-cases (less y x)) [
    | inl e ↦
        let fresh : find key (key x) ys ≡ none = ground arith in
        rw e (
          find-insert x ys (key y) fresh
              ∙ ground (arith, d.0, eq_iff (key x) (key y), eq_iff (key y) (key x)),
          insert-Distinct x ys fresh d.1,
        )
    | inr e ↦ rw e (h, d)
  ]

  pub sort-Distinct : (xs : List A) → Distinct key xs → Distinct key (sort less xs)
  unfolding sort
  sort-Distinct [] d = tt
  sort-Distinct (x ∷ xs) d =
      insert-Distinct x (sort less xs) (find-sort xs (key x) d.1 ∙ d.0) (sort-Distinct xs d.1)

-- One of two results, the second where both are there.
abbrev pub orelse {ℓ} : {A : Type ℓ} → Option A → Option A → Option A
orelse none o = o
orelse (some p) o = some p

module _ {ℓ} {A : Type ℓ} (key : A → String) where
  pub find-append :
      (xs ys : List A) (k : String) → find key k (xs ++ ys) ≡ orelse (find key k ys) (find key k xs)
  unfolding find
  find-append [] ys k = ground arith
  find-append (x ∷ xs) ys k = ground (arith, find-append xs ys k)

  pub append-Distinct :
      (xs ys : List A)
      → All (λ x. find key (key x) ys ≡ none) xs
      → Distinct key xs
      → Distinct key ys
      → Distinct key (xs ++ ys)
  append-Distinct [] ys h d e = e
  append-Distinct (x ∷ xs) ys h d e =
      (find-append xs ys (key x) ∙ rw (h.0, d.0), append-Distinct xs ys h.1 d.1 e)

module _ {ℓ} {A : Type ℓ} (less : A → A → Bool)
    (asymm : (x y : A) → less x y ≡ true → less y x ≡ false) where
  tail-IsSorted : (y : A) (ys : List A) → IsSorted less (y ∷ ys) → IsSorted less ys
  tail-IsSorted y [] s = tt
  tail-IsSorted y (z ∷ zs) s = s.1

  after_head :
      (x y : A) (ys : List A)
      → less y x ≡ true
      → IsSorted less (y ∷ ys)
      → IsSorted less (insert less x ys)
      → IsSorted less (y ∷ insert less x ys)
  unfolding insert
  after_head x y [] e s t = (asymm y x e, tt)
  after_head x y (z ∷ zs) e s t = elim (Bool-cases (less z x)) [
    | inl q ↦ rw q (s.0, rw q at t)
    | inr q ↦ rw q (asymm y x e, (q, s.1))
  ]

  insert-IsSorted : (x : A) (xs : List A) → IsSorted less xs → IsSorted less (insert less x xs)
  unfolding insert
  insert-IsSorted x [] s = tt
  insert-IsSorted x (y ∷ ys) s = elim (Bool-cases (less y x)) [
    | inl e ↦ rw e (after_head x y ys e s (insert-IsSorted x ys (tail-IsSorted y ys s)))
    | inr e ↦ rw e (e, s)
  ]

  pub sort-IsSorted : (xs : List A) → IsSorted less (sort less xs)
  unfolding sort
  sort-IsSorted [] = tt
  sort-IsSorted (x ∷ xs) = insert-IsSorted x (sort less xs) (sort-IsSorted xs)

module _ {ℓ κ} {A : Type ℓ} (less : A → A → Bool) (P : A → Type κ) where
  insert-All : (x : A) (xs : List A) → P x → All P xs → All P (insert less x xs)
  unfolding insert
  insert-All x [] h hs = (h, tt)
  insert-All x (y ∷ ys) h hs = elim (Bool-cases (less y x)) [
    | inl e ↦ rw e (hs.0, insert-All x ys h hs.1)
    | inr e ↦ rw e (h, hs)
  ]

  pub sort-All : (xs : List A) → All P xs → All P (sort less xs)
  unfolding sort
  sort-All [] hs = tt
  sort-All (x ∷ xs) hs = insert-All x (sort less xs) hs.0 (sort-All xs hs.1)

module _ {ℓ} {V : Type ℓ} (key : V → String) where
  pub find-values :
      (m : Dict V) (k : String)
      → IsMap m
      → Dict.All (λ j v. key v ≡ j) m
      → find key k (values m) ≡ get m k
  unfolding find values get
  find-values [] k u h = refl
  find-values ((j, v) ∷ m) k u h =
      let fresh : find key j (values m) ≡ none = find-values m j u.1 h.1 ∙ u.0 in
      ground (arith, find-values m k u.1 h.1, eq_iff (key v) k, eq_iff j k)

  pub values-Distinct :
      (m : Dict V) → IsMap m → Dict.All (λ j v. key v ≡ j) m → Distinct key (values m)
  unfolding values
  values-Distinct [] u h = tt
  values-Distinct ((j, v) ∷ m) u h =
      (rw h.0 (find-values m j u.1 h.1 ∙ u.0), values-Distinct m u.1 h.1)
