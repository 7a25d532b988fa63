-- ===== src/Tests/Pairing.antt =====
-- Pairing between a laptop and a phone.
use sharing.Peer.Straggler.{Accepted, forget-drive_paired}
use sharing.Peer.Relay.{forget}
use sharing.Trust.Store.{new_token, verify_token}
use sharing.Base.{String, ◌≡◌, refl, true, false, [], ◌∷◌, ◌++◌, arith, some, none}
use sharing.Protocol.Json.{Frame}
use sharing.Protocol.Hex.{valid_nonce_format, valid_token_format, encode_to_string}
use sharing.Protocol.Constants.{
  pair_direction_incoming, pair_direction_outgoing, peer_state_pairing,
}
use sharing.Protocol.PeerMessages.{new_peer_hello}
use sharing.Protocol.Wire.{marshal_peer_hello}
use sharing.Peer.State.{Manager, ev_accept, handshake, text, on_pair_code, on_peer_state, assign}
use sharing.Peer.Driver.{drive, remote}
use sharing.Peer.Consent.{Round}
use sharing.Peer.Round.{drive-Round}
use sharing.Peer.Frames.{Read, frame}
use sharing.Peer.Listener.{serve_inbound, open_pairing}
use sharing.Peer.Dialer.{outbound_answer}
use sharing.Peer.Admission.{Admission, serve_inbound-Admission}
use sharing.Peer.Agreement.{open_pairing-outbound_answer}
use sharing.Tests.Fixtures.{
  token, nonce, env, laptop, phone, phone_store, empty_store, socket_to, pairing_with, manager,
}

-- The laptop was asked, its human has accepted, and the phone's acceptance has arrived.
abbrev asked : Manager
asked =
    manager laptop empty_store (socket_to "phone" false handshake)
      (record (pairing_with "phone" true) { local_accepted = true; remote = ev_accept ∷ [] })

drive-Round_example : Round env 0 remote asked (drive env 0 remote asked)
drive-Round_example = drive-Round env 0 remote asked refl

-- The phone calls the laptop that trusts it.
abbrev trusting : Manager
trusting = manager laptop phone_store (socket_to "" false handshake) (pairing_with "" true)

abbrev greeting : Read
greeting = frame (marshal_peer_hello (new_peer_hello phone token))

serve_inbound-Admission_example :
    Admission greeting trusting (serve_inbound env 0 greeting trusting)
serve_inbound-Admission_example = serve_inbound-Admission env 0 greeting trusting

-- The phone dials the laptop, and neither trusts the other yet.
abbrev dialled : Manager
dialled = manager laptop empty_store (socket_to "phone" false handshake) (pairing_with "" true)

abbrev dialling : Manager
dialling =
    manager phone empty_store (socket_to "laptop" false handshake) (pairing_with "laptop" false)

nonce_formed : valid_nonce_format nonce ≡ true
unfolding valid_nonce_format
nonce_formed = refl

open_pairing-outbound_answer_example :
    (digits : String) × (sent : Frame) × ((open_pairing env 0
        (new_peer_hello phone "")
        nonce
        dialled).calls
      ≡ on_pair_code
          (new_peer_hello phone "").device_id
          (new_peer_hello phone "").name
          digits
          pair_direction_incoming
        ∷ on_peer_state (new_peer_hello phone "").device_id peer_state_pairing ""
        ∷ [])
    × (((open_pairing env 0 (new_peer_hello phone "") nonce dialled).sockets 0).out
        ≡ [] ++ text sent ∷ [])
    × ((outbound_answer env 0 0 (frame sent) dialling).calls
        ≡ on_pair_code "laptop" "laptop" digits pair_direction_outgoing ∷ [])
unfolding new_peer_hello
open_pairing-outbound_answer_example =
    open_pairing-outbound_answer env env 0 0 0 (new_peer_hello phone "") nonce dialled dialling refl
      nonce_formed refl refl (omega arith) refl refl

-- The same pairing, as it is registered.
abbrev in_flight : Manager
in_flight = record asked { pending = assign (λ id. none) "phone" (some 0) }

in_flight-Accepted : Accepted 0 0 "phone" in_flight
in_flight-Accepted = record {
  device_id = refl;
  phase = refl;
  conn = refl;
  responder = refl;
  local_accepted = refl;
  rest = [];
  remote = refl;
}

token_minted : new_token env.token_bytes ≡ some token
unfolding new_token encode_to_string
token_minted = refl

token_well_formed : valid_token_format token ≡ true
unfolding valid_token_format
token_well_formed = refl

forget-drive_paired_example :
    verify_token (drive env 0 remote (forget env "phone" in_flight).0).trust "phone" token ≡ true
forget-drive_paired_example =
    forget-drive_paired env env 0 0 "phone" token in_flight refl refl in_flight-Accepted
      token_minted token_well_formed
