-- ===== src/Peer/Quiet.antt =====
-- The operations on sockets of daemon/peer/conn.go and daemon/peer/peer.go against the rest of the
-- manager: its pairings, the trust store, the handler's calls.
use sharing.Base.{
  ◌∙◌, ◌==◌, true, false, str_eq, if◌then◌else◌, ℕ, String, ◌≡◌, refl, Bool, Option, none, some,
  arith,
}
use sharing.Protocol.Json.{Frame}
use sharing.Peer.State.{Table, Manager, Conn, set_conn}
use sharing.Peer.Conn.{enqueue, hard_close, close_with}
use sharing.Peer.Driver.{reject_socket, promote}
use sharing.Peer.Registry.{register_conn, evict, status_normal_closure, unregister_conn, live_conn}

pub record Quiet (m m' : Manager) : Type 0 where
  pub self : m'.self ≡ m.self
  pub trust : m'.trust ≡ m.trust
  pub limiter : m'.limiter ≡ m.limiter
  pub pending : m'.pending ≡ m.pending
  pub pairings : m'.pairings ≡ m.pairings
  pub next_pairing : m'.next_pairing ≡ m.next_pairing
  pub calls : m'.calls ≡ m.calls
  pub handshakes : m'.handshakes ≡ m.handshakes

pub Quiet-refl : (m : Manager) → Quiet m m
Quiet-refl m = record {
  self = refl;
  trust = refl;
  limiter = refl;
  pending = refl;
  pairings = refl;
  next_pairing = refl;
  calls = refl;
  handshakes = refl;
}

pub enqueue-Quiet : (c : ℕ) (f : Frame) (m : Manager) → Quiet m (enqueue c f m).0
unfolding enqueue
enqueue-Quiet c f m = ground arith

pub close_with-Quiet :
    (c status : ℕ) (reason : String) (m : Manager) → Quiet m (close_with c status reason m)
unfolding close_with
close_with-Quiet c status reason m = ground arith

pub Quiet-trans : {m m' m'' : Manager} → Quiet m m' → Quiet m' m'' → Quiet m m''
Quiet-trans {m} {m'} {m''} q r = record {
  self = r.self ∙ q.self;
  trust = r.trust ∙ q.trust;
  limiter = r.limiter ∙ q.limiter;
  pending = r.pending ∙ q.pending;
  pairings = r.pairings ∙ q.pairings;
  next_pairing = r.next_pairing ∙ q.next_pairing;
  calls = r.calls ∙ q.calls;
  handshakes = r.handshakes ∙ q.handshakes;
}

-- Both branches of a test.
if-Quiet : {m m₁ m₂ : Manager} (b : Bool) → Quiet m m₁ → Quiet m m₂ → Quiet m (if b then m₁ else m₂)
if-Quiet true q r = q
if-Quiet false q r = r

evict-Quiet : (o : Option ℕ) (c : ℕ) (m : Manager) → Quiet m (evict o c m)
unfolding evict
evict-Quiet none c m = Quiet-refl m
evict-Quiet (some old) c m =
    if-Quiet (old == c) (Quiet-refl m)
      (close_with-Quiet old status_normal_closure "replaced by a newer connection" m)

conns-Quiet : (conns : Table ℕ) (m : Manager) → Quiet m (record m { conns = conns })
conns-Quiet conns m = ground arith

set_conn-Quiet : (c : ℕ) (v : Conn) (m : Manager) → Quiet m (set_conn c v m)
set_conn-Quiet c v m = ground arith

register_conn-Quiet : (c : ℕ) (m : Manager) → Quiet m (register_conn c m)
unfolding register_conn
register_conn-Quiet c m =
    if-Quiet (str_eq (m.sockets c).remote_id "") (Quiet-refl m)
      (Quiet-trans (conns-Quiet _ m) (evict-Quiet (m.conns (m.sockets c).remote_id) c _))

-- A socket changes state and is registered.
pub hard_close-Quiet : (c : ℕ) (m : Manager) → Quiet m (hard_close c m)
unfolding hard_close
hard_close-Quiet c m = set_conn-Quiet c _ m

pub unregister_conn-Quiet : (c : ℕ) (m : Manager) → Quiet m (unregister_conn c m).0
unfolding unregister_conn
unregister_conn-Quiet c m = ground arith

pub live_conn-Quiet : (id : String) (m : Manager) → Quiet m (live_conn id m).0
unfolding live_conn
live_conn-Quiet id m = ground arith

pub reject_socket-Quiet :
    (o : Option ℕ) (reason : String) (notify : Bool) (m : Manager)
    → Quiet m (reject_socket o reason notify m)
unfolding reject_socket
reject_socket-Quiet none reason notify m = Quiet-refl m
reject_socket-Quiet (some c) reason notify m =
    Quiet-trans (if-Quiet notify (enqueue-Quiet c _ m) (Quiet-refl m)) (close_with-Quiet c _ _ _)

pub promote-Quiet :
    (o : Option ℕ) (token : String) (announce : Bool) (m : Manager)
    → Quiet m (promote o token announce m)
unfolding promote
promote-Quiet none token announce m = Quiet-refl m
promote-Quiet (some c) token announce m =
    Quiet-trans (set_conn-Quiet c _ m) (
      Quiet-trans (register_conn-Quiet c _)
        (if-Quiet announce (enqueue-Quiet c _ _) (Quiet-refl _)))
