-- ===== src/Discovery/Registration.antt =====
-- No registration is leaked: daemon/discovery/advertise.go.
use sharing.Base.{
  ℕ, ◌+◌, String, ◌≡◌, refl, Bool, true, false, ◌&&◌, Option, none, some, List, [], ◌∷◌, arith, ltb,
  ◌==◌, if◌then◌else◌, str_eq, ◌∙◌, ap,
}
use sharing.Discovery.Advertiser.{
  Watch, idle, returned, taking_down, registering, adopting, Advertiser, AdvertiserStep, tick,
  advance, done, close, shut_down, healthy, on_tick, go_on, close_server, on_done, advertiser_step,
  advertiser_run, is_idle,
}

abbrev pub one : Bool → ℕ
one b = if b then 1 else 0

-- How often a server was shut down.
abbrev pub count : ℕ → List ℕ → ℕ
count n [] = 0
count n (m ∷ ms) = one (m == n) + count n ms

abbrev pub held : ℕ → Option ℕ → ℕ
held n none = 0
held n (some m) = one (m == n)

-- Whether the watcher has the server in its hands.
abbrev pub in_hand : ℕ → Watch → ℕ
in_hand n idle = 0
in_hand n returned = 0
in_hand n (taking_down old current) = held n old
in_hand n (registering current) = 0
in_hand n (adopting m current) = one (m == n)

-- Each server that was registered is live, or in the watcher's hands, or was shut down once; once the
-- advertiser is closed, none is live, nor while the watcher is at work or has returned.
pub record IsAccounted (a : Advertiser) : Type 0 where
  pub account : (n : ℕ) → count n a.shut + held n a.srv + in_hand n a.watch ≡ one (ltb n a.next)
  pub none_live : a.closed ≡ true → a.srv ≡ none
  pub none_kept : is_idle a.watch ≡ false → a.srv ≡ none

count-shut_down :
    (n : ℕ) (o : Option ℕ) (shut : List ℕ) → count n (shut_down o shut) ≡ held n o + count n shut
unfolding shut_down
count-shut_down n none shut = omega arith
count-shut_down n (some m) shut = refl

if-IsAccounted :
    (b : Bool) (x y : Advertiser)
    → (b ≡ true → IsAccounted x)
    → (b ≡ false → IsAccounted y)
    → IsAccounted (if b then x else y)
if-IsAccounted true x y h k = h refl
if-IsAccounted false x y h k = k refl

-- The server that the watcher takes is in its hands.
taken :
    (n : ℕ) (current : String) (a : Advertiser)
    → a.watch ≡ idle
    → count n a.shut + held n a.srv + in_hand n a.watch ≡ one (ltb n a.next)
    → count n a.shut + 0 + held n a.srv ≡ one (ltb n a.next)
taken n current a w h = omega (arith, h, ap (in_hand n) w)

on_tick-IsAccounted :
    (current : String) (a : Advertiser)
    → a.watch ≡ idle
    → IsAccounted a
    → IsAccounted (on_tick current a)
unfolding on_tick
on_tick-IsAccounted current a w h =
    if-IsAccounted (str_eq current a.fingerprint && healthy a) a _ (λ e. h)
      (λ e.
        if-IsAccounted a.closed a _ (λ c. h)
          (λ c. record {
            account = λ n. taken n current a w (h.account n);
            none_live = λ q. refl;
            none_kept = λ q. refl;
          }))

close_server-IsAccounted : (a : Advertiser) → IsAccounted a → IsAccounted (close_server a)
unfolding close_server
close_server-IsAccounted a h =
    if-IsAccounted a.closed a _ (λ c. h)
      (λ c. record {
        account = λ n. omega (arith, count-shut_down n a.srv a.shut, h.account n);
        none_live = λ q. refl;
        none_kept = λ q. refl;
      })

closed-close_server : (a : Advertiser) → (close_server a).closed ≡ true
unfolding close_server
closed-close_server a = ground arith

watch-close_server : (a : Advertiser) → (close_server a).watch ≡ a.watch
unfolding close_server
watch-close_server a = ground arith

on_done-IsAccounted : (a : Advertiser) → a.watch ≡ idle → IsAccounted a → IsAccounted (on_done a)
unfolding on_done
on_done-IsAccounted a w h =
    let c = close_server-IsAccounted a h in
    record {
      account = λ n. omega (arith, c.account n, ap (in_hand n) (watch-close_server a ∙ w));
      none_live = c.none_live;
      none_kept = λ q. c.none_live (closed-close_server a);
    }

go_on-IsAccounted :
    (registered : Bool) (w : Watch) (a : Advertiser)
    → a.watch ≡ w
    → IsAccounted a
    → IsAccounted (go_on registered w a)
unfolding go_on
go_on-IsAccounted registered idle a e h = h
go_on-IsAccounted registered returned a e h = h
go_on-IsAccounted registered (taking_down old current) a e h = record {
  account = λ n. omega (arith, count-shut_down n old a.shut, h.account n, ap (in_hand n) e);
  none_live = h.none_live;
  none_kept = λ q. h.none_kept (ap is_idle e);
}
go_on-IsAccounted registered (registering current) a e h =
    if-IsAccounted registered _ _
      (λ r. record {
        account = λ n. ground (arith, h.account n, ap (in_hand n) e);
        none_live = h.none_live;
        none_kept = λ q. h.none_kept (ap is_idle e);
      })
      (λ r. record {
        account = λ n. omega (arith, h.account n, ap (in_hand n) e);
        none_live = h.none_live;
        none_kept = λ q. h.none_kept (ap is_idle e);
      })
go_on-IsAccounted registered (adopting m current) a e h =
    if-IsAccounted a.closed _ _
      (λ c. record {
        account =
            λ n. omega (arith, count-shut_down n (some m) a.shut, h.account n, ap (in_hand n) e);
        none_live = h.none_live;
        none_kept = λ q. h.none_kept (ap is_idle e);
      })
      (λ c. record {
        account = λ n.
            omega (arith, h.account n, ap (in_hand n) e, ap (held n) (h.none_kept (ap is_idle e)));
        none_live = λ q. cc (q, c);
        none_kept = λ q. cc q;
      })

idle-cases : (w : Watch) → is_idle w ≡ true → w ≡ idle
idle-cases idle h = refl
idle-cases returned h = cc h
idle-cases (taking_down old current) h = cc h
idle-cases (registering current) h = cc h
idle-cases (adopting n current) h = cc h

advertiser_step-IsAccounted :
    (s : AdvertiserStep) (a : Advertiser) → IsAccounted a → IsAccounted (advertiser_step s a)
unfolding advertiser_step
advertiser_step-IsAccounted (tick current) a h =
    if-IsAccounted (is_idle a.watch) _ a
      (λ e. on_tick-IsAccounted current a (idle-cases a.watch e) h) (λ e. h)
advertiser_step-IsAccounted (advance registered) a h = go_on-IsAccounted registered a.watch a refl h
advertiser_step-IsAccounted done a h =
    if-IsAccounted (is_idle a.watch) _ a (λ e. on_done-IsAccounted a (idle-cases a.watch e) h)
      (λ e. h)
advertiser_step-IsAccounted close a h = close_server-IsAccounted a h

pub advertiser_run-IsAccounted :
    (ss : List AdvertiserStep) (a : Advertiser) → IsAccounted a → IsAccounted (advertiser_run ss a)
unfolding advertiser_run
advertiser_run-IsAccounted [] a h = h
advertiser_run-IsAccounted (s ∷ ss) a h =
    advertiser_run-IsAccounted ss (advertiser_step s a) (advertiser_step-IsAccounted s a h)
