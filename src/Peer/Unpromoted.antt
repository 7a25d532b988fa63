-- ===== src/Peer/Unpromoted.antt =====
-- The handshake of daemon/peer/listener.go against the sockets that are paired and the trust store:
-- refusing a caller, and offering it a pairing.
use sharing.Peer.Addr.{source_key}
use sharing.Trust.Store.{new_token}
use sharing.RateLimit.{RateLimiter, allow}
use sharing.Base.Dict.{is_some}
use sharing.Base.{
  ℕ, String, ◌≡◌, refl, ◌∙◌, Bool, true, false, arith, if◌then◌else◌, Option, some, none, not,
}
use sharing.Protocol.Json.{Frame}
use sharing.Protocol.Constants.{
  pair_direction_incoming, pair_reason_internal, peer_close_pair_rejected,
}
use sharing.Protocol.Code.{code}
use sharing.Peer.State.{Manager, Conn, set_conn}
use sharing.Peer.Conn.{enqueue, hard_close, close_with}
use sharing.Peer.Registry.{release, release_handshake, teardown, unregister_conn}
use sharing.Peer.Pending.{new_pairing, begin_pairing, end_pairing}
use sharing.Peer.Driver.{start_driver}
use sharing.Protocol.Wire.{marshal_peer_pair_required}
use sharing.Protocol.PeerMessages.{PeerHello, new_peer_pair_required}
use sharing.Peer.State.{Env, emit, HandlerCall}
use sharing.Peer.Listener.{serve, open_pairing, refuse, leave, offer_pairing}

-- The flag of every socket is as it was, and the trust store is as it was.
pub record Unpromoted (m m' : Manager) : Type 0 where
  pub flags : (d : ℕ) → (m'.sockets d).paired ≡ (m.sockets d).paired
  pub self : m'.self ≡ m.self
  pub store : m'.trust ≡ m.trust

pub Unpromoted-refl : (m : Manager) → Unpromoted m m
Unpromoted-refl m = record { flags = λ d. refl; self = refl; store = refl }

pub Unpromoted-trans : {m m' m'' : Manager} → Unpromoted m m' → Unpromoted m' m'' → Unpromoted m m''
Unpromoted-trans u v = record {
  flags = λ d. v.flags d ∙ u.flags d;
  self = v.self ∙ u.self;
  store = v.store ∙ u.store;
}

if-Unpromoted :
    {m m₁ m₂ : Manager} (b : Bool)
    → Unpromoted m m₁
    → Unpromoted m m₂
    → Unpromoted m (if b then m₁ else m₂)
if-Unpromoted true u v = u
if-Unpromoted false u v = v

pub set_conn-Unpromoted :
    (c : ℕ) (v : Conn) (m : Manager)
    → v.paired ≡ (m.sockets c).paired
    → Unpromoted m (set_conn c v m)
set_conn-Unpromoted c v m e = record { flags = λ d. ground arith; self = refl; store = refl }

pub enqueue-Unpromoted : (c : ℕ) (f : Frame) (m : Manager) → Unpromoted m (enqueue c f m).0
unfolding enqueue
enqueue-Unpromoted c f m = record {
  flags = λ d. ground arith;
  self = ground arith;
  store = ground arith;
}

pub close_with-Unpromoted :
    (c status : ℕ) (reason : String) (m : Manager) → Unpromoted m (close_with c status reason m)
unfolding close_with
close_with-Unpromoted c status reason m = record {
  flags = λ d. ground arith;
  self = ground arith;
  store = ground arith;
}

release-Unpromoted : (c : ℕ) (m : Manager) → Unpromoted m (release c m)
unfolding release release_handshake
release-Unpromoted c m = record {
  flags = λ d. ground arith;
  self = ground arith;
  store = ground arith;
}

teardown-Unpromoted : (c : ℕ) (m : Manager) → Unpromoted m (teardown c m)
unfolding teardown unregister_conn hard_close
teardown-Unpromoted c m = record {
  flags = λ d. ground arith;
  self = ground arith;
  store = ground arith;
}

pub leave-Unpromoted : (c : ℕ) (m : Manager) → Unpromoted m (leave c m)
leave-Unpromoted c m =
    Unpromoted-trans (release-Unpromoted c m) (teardown-Unpromoted c (release c m))

refuse-Unpromoted :
    (c : ℕ) (reason : String) (status : ℕ) (text : String) (m : Manager)
    → Unpromoted m (refuse c reason status text m)
unfolding refuse
refuse-Unpromoted c reason status text m =
    Unpromoted-trans (enqueue-Unpromoted c _ m)
      (Unpromoted-trans (close_with-Unpromoted c status text _) (leave-Unpromoted c _))

begin_pairing-Unpromoted : (p : ℕ) (m : Manager) → Unpromoted m (begin_pairing p m).0
unfolding begin_pairing
begin_pairing-Unpromoted p m = record {
  flags = λ d. ground arith;
  self = ground arith;
  store = ground arith;
}

end_pairing-Unpromoted : (p : ℕ) (m : Manager) → Unpromoted m (end_pairing p m)
unfolding end_pairing
end_pairing-Unpromoted p m = record {
  flags = λ d. ground arith;
  self = ground arith;
  store = ground arith;
}

serve-Unpromoted : (c : ℕ) (m : Manager) → Unpromoted m (serve c m)
serve-Unpromoted c m = set_conn-Unpromoted c _ m refl

-- The driver starts, the handler hears of the pairing, and the frame loop begins.
begin-Unpromoted :
    (c p : ℕ) (call call' : HandlerCall) (m : Manager)
    → Unpromoted m (serve c (start_driver p (emit call (emit call' m))))
unfolding start_driver
begin-Unpromoted c p call call' m = record {
  flags = (serve-Unpromoted c m).flags;
  self = (serve-Unpromoted c m).self;
  store = (serve-Unpromoted c m).store;
}

offered-Unpromoted :
    (id name direction digits : String) (c : Option ℕ) (m : Manager)
    → Unpromoted m
        (begin_pairing
          (new_pairing id name direction true digits c m).1
          (new_pairing id name direction true digits c m).0).0
unfolding new_pairing
offered-Unpromoted id name direction digits c m = record {
  flags = (begin_pairing-Unpromoted _ (new_pairing id name direction true digits c m).0).flags;
  self = (begin_pairing-Unpromoted _ (new_pairing id name direction true digits c m).0).self;
  store = (begin_pairing-Unpromoted _ (new_pairing id name direction true digits c m).0).store;
}

open_pairing-Unpromoted :
    (env : Env) (c : ℕ) (hello : PeerHello) (nonce : String) (m : Manager)
    → Unpromoted m (open_pairing env c hello nonce m)
unfolding open_pairing
open_pairing-Unpromoted env c hello nonce m =
    let digits = code env.sum256 m.self.id hello.device_id nonce in
    let (m₁, p) =
      new_pairing hello.device_id hello.name pair_direction_incoming true digits (some c) m in
    let m₂ = (begin_pairing p m₁).0 in
    let f = marshal_peer_pair_required (new_peer_pair_required digits nonce) in
    let m₃ = (enqueue c f m₂).0 in
    let offered =
      offered-Unpromoted hello.device_id hello.name pair_direction_incoming digits (some c) m in
    let asked = Unpromoted-trans offered (enqueue-Unpromoted c f m₂) in
    if-Unpromoted (is_some (begin_pairing p m₁).1)
      (Unpromoted-trans offered (refuse-Unpromoted c _ _ _ m₂))
      (if-Unpromoted (not (enqueue c f m₂).1)
        (Unpromoted-trans asked
          (Unpromoted-trans (end_pairing-Unpromoted p m₃) (leave-Unpromoted c (end_pairing p m₃))))
        (Unpromoted-trans asked
          (Unpromoted-trans (release-Unpromoted c m₃) (begin-Unpromoted c p _ _ (release c m₃)))))

limiter-Unpromoted : (l : RateLimiter) (m : Manager) → Unpromoted m (record m { limiter = l })
limiter-Unpromoted l m = record { flags = λ d. refl; self = refl; store = refl }

pub offer_pairing-Unpromoted :
    (env : Env) (c : ℕ) (hello : PeerHello) (m : Manager)
    → Unpromoted m (offer_pairing env c hello m)
unfolding offer_pairing
offer_pairing-Unpromoted env c hello m =
    let r = allow m.limiter (source_key (m.sockets c).remote_addr) env.now in
    let m₁ = record m { limiter = r.0 } in
    if-Unpromoted (not r.1)
      (Unpromoted-trans (limiter-Unpromoted r.0 m) (refuse-Unpromoted c _ _ _ m₁))
      (elim (new_token env.nonce_bytes)
        as (λ o. Unpromoted m (elim o [
          | none ↦ refuse c pair_reason_internal peer_close_pair_rejected "internal error" m₁
          | some nonce ↦ open_pairing env c hello nonce m₁
        ])) [
          | none ↦ Unpromoted-trans (limiter-Unpromoted r.0 m) (refuse-Unpromoted c _ _ _ m₁)
          | some nonce ↦
              Unpromoted-trans (limiter-Unpromoted r.0 m)
                (open_pairing-Unpromoted env c hello nonce m₁)
        ])
