-- ===== src/Discovery/Choice.antt =====
-- Which address a peer is dialed on: `pick` of daemon/discovery/browse.go.
use sharing.Base.{
  ℕ, ◌≡◌, refl, true, false, Option, none, some, List, [], ◌∷◌, ◌++◌, arith, All, Bool-cases, inl,
  inr, ◌⊎◌, ap, sym, ◌∙◌, ◌<◌, ◌≤◌,
}
use sharing.Discovery.Net.{Ip}
use sharing.Discovery.Address.{AddrPref, score, beats, pick_loop, pick}

-- What the loop chooses, in the loop's own terms; it is better than a score that is known before.
record IsFirst (p : AddrPref) (ips : List Ip) (best : Option ℕ) (ip : Ip) : Type 0 where
  before : List Ip
  after : List Ip
  split : ips ≡ before ++ ip ∷ after
  improves : beats (score p ip) best ≡ true
  better : All (λ j. beats (score p ip) (score p j) ≡ true) before
  no_worse : All (λ j. beats (score p j) (score p ip) ≡ false) after

-- What the loop returns: what was chosen before, or the first of the best.
IsChosen : AddrPref → List Ip → Option ℕ → Option Ip → Option Ip → Type 0
IsChosen p ips best chosen result =
    ((result ≡ chosen) × All (λ j. beats (score p j) best ≡ false) ips)
    ⊎ ((ip : Ip) × (result ≡ some ip) × IsFirst p ips best ip)

beats_trans : (a b c : Option ℕ) → beats a b ≡ true → beats b c ≡ true → beats a c ≡ true
unfolding beats
beats_trans a b c h k = ground arith

beats_left : (a b c : Option ℕ) → beats a b ≡ true → beats c b ≡ false → beats a c ≡ true
unfolding beats
beats_left a b c h k = ground arith

module _ (p : AddrPref) where
  pick_loop-IsChosen :
      (ips : List Ip) (best : Option ℕ) (chosen : Option Ip)
      → IsChosen p ips best chosen (pick_loop p ips best chosen)
  unfolding pick_loop IsChosen
  pick_loop-IsChosen [] best chosen = inl (refl, tt)
  pick_loop-IsChosen (x ∷ xs) best chosen = elim (Bool-cases (beats (score p x) best)) [
    | inl e ↦ rw e (elim (pick_loop-IsChosen xs (score p x) (some x)) [
      | inl (r, h) ↦ inr (
        x,
        r,
        record { before = []; after = xs; split = refl; improves = e; better = tt; no_worse = h },
      )
      | inr (ip, r, f) ↦ inr (
        ip,
        r,
        record {
          before = x ∷ f.before;
          after = f.after;
          split = ap (λ js. x ∷ js) f.split;
          improves = beats_trans (score p ip) (score p x) best f.improves e;
          better = (f.improves, f.better);
          no_worse = f.no_worse;
        },
      )
    ])
    | inr e ↦ rw e (elim (pick_loop-IsChosen xs best chosen) [
      | inl (r, h) ↦ inl (r, (refl, h))
      | inr (ip, r, f) ↦ inr (
        ip,
        r,
        record {
          before = x ∷ f.before;
          after = f.after;
          split = ap (λ js. x ∷ js) f.split;
          improves = f.improves;
          better = (beats_left (score p ip) best (score p x) f.improves e, f.better);
          no_worse = f.no_worse;
        },
      )
    ])
  ]

-- A score below, or at most, the given one; an address without a score is unusable.
abbrev Below : ℕ → Option ℕ → Type 0
Below n none = Unit {0}
Below n (some s) = s < n

abbrev AtMost : ℕ → Option ℕ → Type 0
AtMost n none = Unit {0}
AtMost n (some s) = s ≤ n

-- The first of the addresses with the highest score: it has a score, each one before it has a lower
-- score, and each one after it has none that is higher.
pub record IsFirstBest (p : AddrPref) (ips : List Ip) (ip : Ip) : Type 0 where
  pub before : List Ip
  pub after : List Ip
  pub split : ips ≡ before ++ ip ∷ after
  pub highest : ℕ
  pub scored : score p ip ≡ some highest
  pub below : All (λ j. Below highest (score p j)) before
  pub at_most : All (λ j. AtMost highest (score p j)) after

beats-Below : (n : ℕ) (o : Option ℕ) → beats (some n) o ≡ true → Below n o
unfolding beats
beats-Below n none h = tt
beats-Below n (some s) h = ground arith

beats-AtMost : (n : ℕ) (o : Option ℕ) → beats o (some n) ≡ false → AtMost n o
unfolding beats
beats-AtMost n none h = tt
beats-AtMost n (some s) h = ground arith

has_score : (o : Option ℕ) → beats o none ≡ true → (n : ℕ) × (o ≡ some n)
unfolding beats
has_score none h = cc h
has_score (some n) h = (n, refl)

module _ (p : AddrPref) (ip : Ip) (n : ℕ) (e : score p ip ≡ some n) where
  all-Below :
      (js : List Ip)
      → All (λ j. beats (score p ip) (score p j) ≡ true) js
      → All (λ j. Below n (score p j)) js
  all-Below [] h = tt
  all-Below (j ∷ js) h =
      (beats-Below n (score p j) (ap (λ o. beats o (score p j)) (sym e) ∙ h.0), all-Below js h.1)

  all-AtMost :
      (js : List Ip)
      → All (λ j. beats (score p j) (score p ip) ≡ false) js
      → All (λ j. AtMost n (score p j)) js
  all-AtMost [] h = tt
  all-AtMost (j ∷ js) h =
      (beats-AtMost n (score p j) (ap (beats (score p j)) (sym e) ∙ h.0), all-AtMost js h.1)

first_best : (p : AddrPref) (ips : List Ip) (ip : Ip) → IsFirst p ips none ip → IsFirstBest p ips ip
first_best p ips ip f =
    let (n, e) = has_score (score p ip) f.improves in
    record {
      before = f.before;
      after = f.after;
      split = f.split;
      highest = n;
      scored = e;
      below = all-Below p ip n e f.before f.better;
      at_most = all-AtMost p ip n e f.after f.no_worse;
    }

-- The address that is chosen is the first of those with the highest score among all that the peer
-- advertises, IPv4 first; none is chosen exactly if all of them are unusable.
pub pick-IsFirstBest :
    (p : AddrPref) (v4 v6 : List Ip)
    → ((pick p v4 v6 ≡ none) × All (λ j. score p j ≡ none) (v4 ++ v6))
      ⊎ ((ip : Ip) × (pick p v4 v6 ≡ some ip) × IsFirstBest p (v4 ++ v6) ip)
unfolding pick IsChosen beats
pick-IsFirstBest p v4 v6 = elim (pick_loop-IsChosen p (v4 ++ v6) none none) [
  | inl (r, h) ↦ inl (r, unusable (v4 ++ v6) h)
  | inr (ip, r, f) ↦ inr (ip, r, first_best p (v4 ++ v6) ip f)
]
  where
    unusable :
        (ips : List Ip)
        → All (λ j. beats (score p j) none ≡ false) ips
        → All (λ j. score p j ≡ none) ips
    unusable [] h = tt
    unusable (x ∷ xs) h = (ground arith, unusable xs h.1)
