-- ===== src/Peer/Agreement.antt =====
-- The two screens of a pairing: what `offerPairing` of daemon/peer/listener.go shows and sends, and
-- what `pairOutbound` of daemon/peer/dialer.go makes of the frame.
use sharing.Peer.Frames.{frame}
use sharing.Protocol.Wire.RoundTrip.{pairing_frames-Carry}
use sharing.Protocol.Wire.{marshal_peer_pair_required}
use sharing.Protocol.Json.{Frame}
use sharing.Base.{
  refl, lt→ltb, arith, ℕ, ◌<◌, String, ◌≡◌, ap, sym, true, false, not, ◌&&◌, none, some, arith, ◌∷◌,
  str_eq, eq_iff, lt→ltb, ◌++◌, [], ◌∙◌,
}
use sharing.Protocol.Hex.{valid_nonce_format}
use sharing.Protocol.Code.{code, valid_code_format, code_comm, valid_code_format-code}
use sharing.Protocol.Constants.{
  pair_direction_incoming, pair_direction_outgoing, peer_state_pairing,
}
use sharing.Protocol.PeerMessages.{
  PeerHello, PeerPairRequired, new_peer_pair_required, validate_peer_pair_required,
}
use sharing.Peer.State.{Manager, on_pair_code, on_peer_state, Env, text}
use sharing.Peer.Conn.{send_buffer, enqueue}
use sharing.Peer.Registry.{release, release_handshake}
use sharing.Peer.Pending.{new_pairing, begin_pairing}
use sharing.Peer.Driver.{start_driver}
use sharing.Peer.Listener.{open_pairing}
use sharing.Peer.Dialer.{on_pair_required, outbound_answer}

validate-new_peer_pair_required :
    (digits nonce : String)
    → valid_nonce_format nonce ≡ true
    → valid_code_format digits ≡ true
    → validate_peer_pair_required (new_peer_pair_required digits nonce) ≡ none
unfolding validate_peer_pair_required new_peer_pair_required
validate-new_peer_pair_required digits nonce n d = ground arith

agrees : (d e : String) → d ≡ e → (not (str_eq d "") && not (str_eq d e)) ≡ false
agrees d e q = ground (arith, eq_iff d e)

-- The dialer shows the code that it derives itself.
on_pair_required-calls :
    (env : Env) (p c : ℕ) (msg : PeerPairRequired) (m : Manager)
    → validate_peer_pair_required msg ≡ none
    → msg.code ≡ code env.sum256 m.self.id (m.pairings p).device_id msg.nonce
    → (on_pair_required env p c (some msg) m).calls
      ≡ on_pair_code (m.pairings p).device_id (m.pairings p).name msg.code pair_direction_outgoing
        ∷ m.calls
unfolding on_pair_required start_driver
on_pair_required-calls env p c msg m valid e =
    let derived = code env.sum256 m.self.id (m.pairings p).device_id msg.nonce in
    rw (valid, agrees msg.code derived e)
      (ap
        (λ d.
          on_pair_code (m.pairings p).device_id (m.pairings p).name d pair_direction_outgoing
          ∷ m.calls)
        (sym e))

-- The responder offers the pairing, with room for the frame and no other pairing of that device.
open_pairing-calls :
    (env : Env) (c : ℕ) (hello : PeerHello) (nonce : String) (m : Manager)
    → m.pending hello.device_id ≡ none
    → (m.sockets c).cancelled ≡ false
    → (m.sockets c).unsent < send_buffer
    → (open_pairing env c hello nonce m).calls
      ≡ on_pair_code hello.device_id hello.name
          (code env.sum256 m.self.id hello.device_id nonce)
          pair_direction_incoming
        ∷ on_peer_state hello.device_id peer_state_pairing ""
        ∷ m.calls
unfolding open_pairing new_pairing begin_pairing enqueue start_driver release release_handshake
open_pairing-calls env c hello nonce m free live room =
    ground (arith, lt→ltb (m.sockets c).unsent send_buffer)

open_pairing-out :
    (env : Env) (c : ℕ) (hello : PeerHello) (nonce : String) (m : Manager)
    → m.pending hello.device_id ≡ none
    → (m.sockets c).cancelled ≡ false
    → (m.sockets c).unsent < send_buffer
    → ((open_pairing env c hello nonce m).sockets c).out
      ≡ (m.sockets c).out
        ++ text (
            marshal_peer_pair_required
              (new_peer_pair_required (code env.sum256 m.self.id hello.device_id nonce) nonce))
          ∷ []
unfolding open_pairing new_pairing begin_pairing enqueue start_driver release release_handshake
open_pairing-out env c hello nonce m free live room =
    ground (arith, lt→ltb (m.sockets c).unsent send_buffer)

-- The dialer reads the frame off the wire.
outbound_answer-calls :
    (env : Env) (p c : ℕ) (digits nonce : String) (m : Manager)
    → valid_nonce_format nonce ≡ true
    → valid_code_format digits ≡ true
    → digits ≡ code env.sum256 m.self.id (m.pairings p).device_id nonce
    → (outbound_answer env p c
        (frame (marshal_peer_pair_required (new_peer_pair_required digits nonce)))
        m).calls
      ≡ on_pair_code (m.pairings p).device_id (m.pairings p).name digits pair_direction_outgoing
        ∷ m.calls
unfolding outbound_answer new_peer_pair_required
outbound_answer-calls env p c digits nonce m n d e =
    let carried = (pairing_frames-Carry digits nonce "" "" "").0 in
    rw (carried.envelope, carried.message)
      (on_pair_required-calls env p c (new_peer_pair_required digits nonce) m
        (validate-new_peer_pair_required digits nonce n d) e)

-- A responder that has room for the frame, and no other pairing of the device that calls, shows a
-- code and queues peer:pair:required; a dialer that asked for this responder, under the id that it
-- gave in its hello, and reads this frame shows the same code, whatever the ids and the well-formed
-- nonce are, if both use the same hash.
pub open_pairing-outbound_answer :
    (env env' : Env) (c p c' : ℕ) (hello : PeerHello) (nonce : String) (m m' : Manager)
    → env'.sum256 ≡ env.sum256
    → valid_nonce_format nonce ≡ true
    → m.pending hello.device_id ≡ none
    → (m.sockets c).cancelled ≡ false
    → (m.sockets c).unsent < send_buffer
    → hello.device_id ≡ m'.self.id
    → (m'.pairings p).device_id ≡ m.self.id
    → (digits : String) × (sent : Frame) × ((open_pairing env c hello nonce m).calls
        ≡ on_pair_code hello.device_id hello.name digits pair_direction_incoming
          ∷ on_peer_state hello.device_id peer_state_pairing ""
          ∷ m.calls)
      × (((open_pairing env c hello nonce m).sockets c).out ≡ (m.sockets c).out ++ text sent ∷ [])
      × ((outbound_answer env' p c' (frame sent) m').calls
          ≡ on_pair_code
              (m'.pairings p).device_id
              (m'.pairings p).name
              digits
              pair_direction_outgoing
            ∷ m'.calls)
open_pairing-outbound_answer env env' c p c' hello nonce m m' hash n free live room dialled asked =
    let digits = code env.sum256 m.self.id hello.device_id nonce in
    let agreed =
      code_comm env.sum256 m.self.id hello.device_id nonce ∙ rw (hash, dialled, asked) refl in
    (
      digits,
      marshal_peer_pair_required (new_peer_pair_required digits nonce),
      open_pairing-calls env c hello nonce m free live room,
      open_pairing-out env c hello nonce m free live room,
      outbound_answer-calls env' p c' digits nonce m' n
          (valid_code_format-code env.sum256 m.self.id hello.device_id nonce) agreed,
    )
