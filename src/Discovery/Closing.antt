-- ===== src/Discovery/Closing.antt =====
-- What `Advertise` starts with, and what is left when the advertisement is closed:
-- daemon/discovery/advertise.go.
use sharing.Base.{
  ℕ, ◌+◌, String, ◌≡◌, Bool, true, false, not, ◌||◌, Option, none, some, List, [], arith, ltb, ◌==◌,
  ◌≤◌, Bool-cases, inl, inr, if◌then◌else◌, str_eq,
}
use sharing.Protocol.Types.{SelfDevice}
use sharing.Discovery.Advertiser.{idle, Advertiser, AdvertiserStep, advertise, advertiser_run}
use mathlib.Core.Path.{subst}
use sharing.Discovery.Registration.{
  count, held, one, in_hand, IsAccounted, advertiser_run-IsAccounted,
}

-- A guard that gives an error has not been taken.
guard_passed :
    (b : Bool) (x : Option Advertiser) (a : Advertiser)
    → (if b then none else x) ≡ some a
    → x ≡ some a
guard_passed true x a e = cc e
guard_passed false x a e = e

some_is : (x a : Advertiser) → some x ≡ some a → x ≡ a
some_is x a e = cc e

-- What `Advertise` returns.
abbrev pub started : String → Advertiser
started current = record {
  srv = some 0;
  closed = false;
  fingerprint = current;
  watch = idle;
  next = 1;
  shut = [];
}

first_accounted : (n : ℕ) → 0 + one (0 == n) + 0 ≡ one (ltb n 1)
first_accounted n = ground arith

started-IsAccounted : (current : String) → IsAccounted (started current)
started-IsAccounted current = record {
  account = first_accounted;
  none_live = λ q. cc q;
  none_kept = λ q. cc q;
}

advertise-IsAccounted :
    (cancelled registered : Bool) (fingerprint : String) (self : SelfDevice) (peer_port : ℕ)
    (a : Advertiser)
    → advertise cancelled registered fingerprint self peer_port ≡ some a
    → IsAccounted a
unfolding advertise
advertise-IsAccounted cancelled registered fingerprint self peer_port a e =
    subst IsAccounted
      (some_is (started fingerprint) a (
        guard_passed (not registered) _ a (
          guard_passed cancelled _ a (
            guard_passed (peer_port == 0 || ltb 65535 peer_port) _ a
              (guard_passed (str_eq self.id "") _ a e)))))
      (started-IsAccounted fingerprint)

held_once : (n : ℕ) (o : Option ℕ) → held n o ≤ 1
held_once n none = omega arith
held_once n (some m) = ground arith

live_or_closed : (n : ℕ) (a : Advertiser) → IsAccounted a → one a.closed + held n a.srv ≤ 1
live_or_closed n a h = elim (Bool-cases a.closed) [
  | inl c ↦ rw c (rw (h.none_live c) (omega arith))
  | inr c ↦ rw c (omega (arith, held_once n a.srv))
]

-- Whatever the order in which the network changes, zeroconf fails and the advertisement is closed,
-- even while the watcher registers again: a server that zeroconf has registered is the live one, or
-- is in the watcher's hands, or was shut down, exactly one of these and once; and none is live once
-- the advertisement is closed.
pub advertiser_run-shut :
    (cancelled registered : Bool) (fingerprint : String) (self : SelfDevice) (peer_port : ℕ)
    (a : Advertiser) (ss : List AdvertiserStep) (n : ℕ)
    → advertise cancelled registered fingerprint self peer_port ≡ some a
    → (count n (advertiser_run ss a).shut
          + held n (advertiser_run ss a).srv
          + in_hand n (advertiser_run ss a).watch
        ≡ one (ltb n (advertiser_run ss a).next))
      × (one (advertiser_run ss a).closed + held n (advertiser_run ss a).srv ≤ 1)
advertiser_run-shut cancelled registered fingerprint self peer_port a ss n e =
    let start = advertise-IsAccounted cancelled registered fingerprint self peer_port a e in
    let h = advertiser_run-IsAccounted ss a start in
    (h.account n, live_or_closed n (advertiser_run ss a) h)
