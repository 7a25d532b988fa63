-- ===== src/Base/Text.antt =====
-- Go's order on strings, which compares bytes: the order of the native `compare`.
use Prim.Native.Nat.{ℕ, Ordering, compare as compare_ℕ}
use Prim.Native.Char.{code}
use Prim.Native.String.{String, compare, then}
use Prim.Native.String.compare
use mathlib.Core.Path.{◌≡◌, refl}
use mathlib.Core.Bool.{Bool, true, false}
use text.Mathlib.TextEquality.{path_by_compare}
use native.Mathlib.Omega.{arith}

abbrev flip : Ordering → Ordering
flip Ordering.lt = Ordering.gt
flip Ordering.eq = Ordering.eq
flip Ordering.gt = Ordering.lt

flip-compare_ℕ : (m n : ℕ) → compare_ℕ n m ≡ flip (compare_ℕ m n)
flip-compare_ℕ m n = ground arith

flip-then : (o p : Ordering) → flip (then o p) ≡ then (flip o) (flip p)
flip-then Ordering.lt p = refl
flip-then Ordering.eq p = refl
flip-then Ordering.gt p = refl

compare-flip : (a b : String) → compare b a ≡ flip (compare a b)
compare-flip String.[] String.[] = refl
compare-flip String.[] (String.◌∷◌ d b) = rw (compare.nil-cons, compare.cons-nil)
compare-flip (String.◌∷◌ c a) String.[] = rw (compare.nil-cons, compare.cons-nil)
compare-flip (String.◌∷◌ c a) (String.◌∷◌ d b) = rw (
  compare.cons-cons c d a b,
  compare.cons-cons d c b a,
  flip-compare_ℕ (code c) (code d),
  compare-flip a b,
  flip-then,
)

-- `a > b`
unfoldable pub str_gt : String → String → Bool
str_gt a b = elim (compare a b) [ Ordering.gt ↦ true | _ ↦ false ]

-- Neither of two texts is greater only if they are equal.
pub str_gt_total : (a b : String) → str_gt a b ≡ false → str_gt b a ≡ false → a ≡ b
unfolding str_gt
str_gt_total a b h k = path_by_compare a b (ground (arith, compare-flip a b))

-- A text is greater one way round at most.
pub str_gt_asymm : (a b : String) → str_gt a b ≡ true → str_gt b a ≡ false
unfolding str_gt
str_gt_asymm a b h = ground (arith, compare-flip a b)
