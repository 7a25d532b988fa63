-- ===== src/Peer/Admission.antt =====
-- Who gets in through daemon/peer/listener.go: `serveInbound` makes a socket a paired one only for a
-- device that presents the token stored for it.
use sharing.Peer.Frames.{Read, frame, binary, failed}
use sharing.Trust.Store.{verify_token}
use sharing.Base.Dict.{is_some}
use sharing.Base.Int.{◌==◌}
use sharing.Base.{
  ℕ, ◌≡◌, refl, ◌∙◌, Bool, true, false, arith, if◌then◌else◌, Option, some, none, not, str_eq,
  eq_iff, ap, sym,
}
use sharing.Protocol.Json.{Frame, unmarshal}
use sharing.Protocol.Constants.{protocol_version, type_peer_hello}
use sharing.Peer.State.{Manager}
use sharing.Peer.Conn.{set_remote}
use sharing.Protocol.Wire.{peer_hello_fields, decode_envelope, Envelope}
use sharing.Protocol.PeerMessages.{PeerHello, validate_peer_hello}
use sharing.Peer.State.{Env}
use sharing.Peer.Listener.{
  check_hello, open_hello, read_hello, admit, admit_or_leave, serve_inbound, is_handshake,
}
use sharing.Peer.Unpromoted.{
  Unpromoted, Unpromoted-refl, Unpromoted-trans, set_conn-Unpromoted, enqueue-Unpromoted,
  close_with-Unpromoted, leave-Unpromoted, offer_pairing-Unpromoted,
}

-- A hello that was read from the socket: the envelope of its frame has the type peer:hello, the frame
-- decodes to it, it speaks this version of the protocol, and it is valid.
pub record HelloRead (read : Read) (hello : PeerHello) : Type 0 where
  pub data' : Frame
  pub was_read : read ≡ frame data'
  pub envelope : Envelope
  pub opened : decode_envelope data' ≡ some envelope
  pub typed : envelope.type ≡ type_peer_hello
  pub decoded : unmarshal peer_hello_fields data' ≡ some hello
  pub version : (hello.protocol_version == protocol_version) ≡ true
  pub is_valid : validate_peer_hello hello ≡ none

-- If there is a hello, it was read.
unfoldable ReadsHello : Read → Option PeerHello → Type 0
ReadsHello read none = Unit {0}
ReadsHello read (some hello) = HelloRead read hello

-- What `readHello` comes to.
record HelloResult (read : Read) (m : Manager) (r : Manager × Option PeerHello) : Type 0 where
  unpromoted : Unpromoted m r.0
  hello_read : ReadsHello read r.1

bad_hello : {read : Read} (m m' : Manager) → Unpromoted m m' → HelloResult read m (m', none)
unfolding ReadsHello
bad_hello m m' u = record { unpromoted = u; hello_read = tt }

if-HelloResult :
    {read : Read} {m : Manager} {r₁ r₂ : Manager × Option PeerHello} (b : Bool)
    → HelloResult read m r₁
    → (b ≡ false → HelloResult read m r₂)
    → HelloResult read m (if b then r₁ else r₂)
if-HelloResult true h k = h
if-HelloResult false h k = k refl

check_hello-HelloResult :
    (c : ℕ) (env : Envelope) (data' : Frame) (o : Option PeerHello) (m : Manager)
    → decode_envelope data' ≡ some env
    → env.type ≡ type_peer_hello
    → unmarshal peer_hello_fields data' ≡ o
    → HelloResult (frame data') m (check_hello c o m)
unfolding check_hello ReadsHello
check_hello-HelloResult c env data' none m opened typed e =
    bad_hello m _ (close_with-Unpromoted c _ _ m)
check_hello-HelloResult c env data' (some hello) m opened typed e =
    if-HelloResult (not (hello.protocol_version == protocol_version))
      (bad_hello m _ (Unpromoted-trans (enqueue-Unpromoted c _ m) (close_with-Unpromoted c _ _ _)))
      (λ version.
        if-HelloResult (is_some (validate_peer_hello hello))
          (bad_hello m _ (close_with-Unpromoted c _ _ m))
          (λ valid. record {
            unpromoted = Unpromoted-refl m;
            hello_read = record {
              data' = data';
              was_read = refl;
              envelope = env;
              opened = opened;
              typed = typed;
              decoded = e;
              version = ground arith;
              is_valid = ground arith;
            };
          }))

open_hello-HelloResult :
    (c : ℕ) (o : Option Envelope) (data' : Frame) (m : Manager)
    → decode_envelope data' ≡ o
    → HelloResult (frame data') m (open_hello c o data' m)
unfolding open_hello
open_hello-HelloResult c none data' m opened = bad_hello m _ (close_with-Unpromoted c _ _ m)
open_hello-HelloResult c (some env) data' m opened =
    if-HelloResult (not (str_eq env.type type_peer_hello))
      (bad_hello m _ (close_with-Unpromoted c _ _ m))
      (λ typed.
        check_hello-HelloResult c env data' _ m opened
          (ground (arith, eq_iff env.type type_peer_hello)) refl)

read_hello-HelloResult :
    (c : ℕ) (read : Read) (m : Manager) → HelloResult read m (read_hello c read m)
unfolding read_hello
read_hello-HelloResult c failed m = bad_hello m _ (close_with-Unpromoted c _ _ m)
read_hello-HelloResult c binary m = bad_hello m _ (close_with-Unpromoted c _ _ m)
read_hello-HelloResult c (frame data') m =
    open_hello-HelloResult c (decode_envelope data') data' m refl

-- What the first read of an inbound socket comes to: no socket becomes a paired one and the trust
-- store is as it was, or the frame read is a valid hello of another device with the token that is
-- stored for it.
pub data Admission (read : Read) (m m' : Manager) : Type 0 where
  kept_out : Unpromoted m m' → Admission read m m'
  authenticated :
      (hello : PeerHello)
      → HelloRead read hello
      → str_eq hello.device_id m.self.id ≡ false
      → verify_token m.trust hello.device_id hello.token ≡ true
      → Admission read m m'

if-Admission :
    {read : Read} {m m₁ m₂ : Manager} (b : Bool)
    → (b ≡ true → Admission read m m₁)
    → (b ≡ false → Admission read m m₂)
    → Admission read m (if b then m₁ else m₂)
if-Admission true h k = h refl
if-Admission false h k = k refl

admit-Admission :
    (env : Env) (c : ℕ) (read : Read) (hello : PeerHello) (m m₁ : Manager)
    → Unpromoted m m₁
    → m₁.self ≡ m.self
    → HelloRead read hello
    → Admission read m (admit env c hello m₁)
unfolding admit
admit-Admission env c read hello m m₁ u self h =
    if-Admission (str_eq hello.device_id m₁.self.id)
      (λ _. kept_out (
        Unpromoted-trans u
          (Unpromoted-trans (close_with-Unpromoted c _ _ m₁) (leave-Unpromoted c _))))
      (λ other.
        if-Admission (verify_token m₁.trust hello.device_id hello.token)
          (λ verified.
            authenticated hello h (ap (λ d. str_eq hello.device_id d.id) (sym self) ∙ other)
              (ap (λ t. verify_token t hello.device_id hello.token) (sym u.store) ∙ verified))
          (λ _. kept_out (Unpromoted-trans u (offer_pairing-Unpromoted env c hello m₁))))

admit_or_leave-Admission :
    (env : Env) (c : ℕ) (read : Read) (m : Manager) (r : Manager × Option PeerHello)
    → HelloResult read m r
    → r.0.self ≡ m.self
    → Admission read m (admit_or_leave env c r)
unfolding ReadsHello set_remote
admit_or_leave-Admission env c read m (m', none) h self =
    kept_out (Unpromoted-trans h.unpromoted (leave-Unpromoted c m'))
admit_or_leave-Admission env c read m (m', some hello) h self =
    admit-Admission env c read hello m (set_remote c hello.device_id hello.name m')
      (Unpromoted-trans h.unpromoted (set_conn-Unpromoted c _ m' refl)) self h.hello_read

-- On the first read of an inbound socket, sockets become paired ones and the trust store changes only
-- if the frame read is a valid peer:hello of this version of the protocol, from a device other than
-- this one, with the token that the trust store holds for that device.
pub serve_inbound-Admission :
    (env : Env) (c : ℕ) (read : Read) (m : Manager) → Admission read m (serve_inbound env c read m)
unfolding serve_inbound
serve_inbound-Admission env c read m =
    if-Admission (is_handshake (m.sockets c).stage)
      (λ _.
        admit_or_leave-Admission env c read m (read_hello c read m)
          (read_hello-HelloResult c read m) (read_hello-HelloResult c read m).unpromoted.self)
      (λ _. kept_out (Unpromoted-refl m))
