-- ===== src/Tests/Wire.antt =====
-- The pairing primitives and the frames at concrete inputs.
use sharing.Protocol.Constants.{signal_kind_offer, signal_kind_answer, signal_kind_ice}
use sharing.Protocol.Pushes.{validate_peer_signal-push}
use sharing.Protocol.ControlMessages.{
  offer_push, answer_push, ice_push, to_offer_push, to_answer_push, to_ice_push,
}
use sharing.Base.{ℕ, String, ◌≡◌, refl, true, List, [], ◌∷◌, ◌%◌, none, some, ◌⊎◌}
use sharing.Base.Int.{pos}
use sharing.Protocol.Constants.{
  type_peer_hello, type_peer_signal, type_peer_pair_required, type_peer_pair_accept,
  type_peer_paired, type_peer_pair_reject, code_modulus,
}
use sharing.Protocol.Code.{
  code, code_comm, valid_code_format, valid_code_format-code, code_injective, big_endian_uint32,
  material,
}
use sharing.Protocol.PeerMessages.{
  new_peer_hello, new_peer_signal_ice, new_peer_pair_required, new_peer_pair_accept,
  new_peer_paired, new_peer_pair_reject, PeerSignal, validate_peer_signal,
}
use sharing.Protocol.Wire.{
  peer_hello_fields, marshal_peer_hello, peer_signal_fields, marshal_peer_signal,
  peer_pair_required_fields, marshal_peer_pair_required, peer_pair_accept_fields,
  marshal_peer_pair_accept, peer_paired_fields, marshal_peer_paired, peer_pair_reject_fields,
  marshal_peer_pair_reject,
}
use sharing.Protocol.Wire.RoundTrip.{
  Carries, peer_hello-Carries, peer_signal_ice-Carries, pairing_frames-Carry,
}
use sharing.Tests.Fixtures.{token, nonce, phone, env}

-- The stand-in for SHA-256.
abbrev sum : String → List ℕ
sum = env.sum256

abbrev bytes : List ℕ
bytes = 0 ∷ 171 ∷ 255 ∷ []

same_code : code sum "laptop" "phone" nonce ≡ code sum "phone" "laptop" nonce
same_code = code_comm sum "laptop" "phone" nonce

valid_code_format-code_example : valid_code_format (code sum "laptop" "phone" nonce) ≡ true
valid_code_format-code_example = valid_code_format-code sum "laptop" "phone" nonce

peer_hello-Carries_example :
    Carries peer_hello_fields
      (marshal_peer_hello (new_peer_hello phone token))
      type_peer_hello
      (new_peer_hello phone token)
peer_hello-Carries_example = peer_hello-Carries phone token

peer_signal_ice-Carries_example :
    Carries peer_signal_fields
      (marshal_peer_signal (new_peer_signal_ice "phone" "candidate:1" "0" (pos 1)))
      type_peer_signal
      (new_peer_signal_ice "phone" "candidate:1" "0" (pos 1))
peer_signal_ice-Carries_example = peer_signal_ice-Carries "phone" "candidate:1" "0" (pos 1) refl

pairing_frames-Carry_example :
    Carries peer_pair_required_fields
      (marshal_peer_pair_required (new_peer_pair_required "123456" nonce))
      type_peer_pair_required
      (new_peer_pair_required "123456" nonce)
    × Carries peer_pair_accept_fields
        (marshal_peer_pair_accept (new_peer_pair_accept "phone"))
        type_peer_pair_accept
        (new_peer_pair_accept "phone")
    × Carries peer_paired_fields
        (marshal_peer_paired (new_peer_paired token))
        type_peer_paired
        (new_peer_paired token)
    × Carries peer_pair_reject_fields
        (marshal_peer_pair_reject (new_peer_pair_reject "timeout"))
        type_peer_pair_reject
        (new_peer_pair_reject "timeout")
pairing_frames-Carry_example = pairing_frames-Carry "123456" nonce "phone" token "timeout"

code_injective_example :
    big_endian_uint32 (sum (material "laptop" "phone" nonce)) % code_modulus
    ≡ big_endian_uint32 (sum (material "phone" "laptop" nonce)) % code_modulus
code_injective_example = code_injective sum "laptop" "phone" "phone" "laptop" nonce nonce same_code

abbrev candidate : PeerSignal
candidate = new_peer_signal_ice "phone" "candidate:1" "0" (pos 1)

candidate_valid : validate_peer_signal candidate ≡ none
unfolding validate_peer_signal new_peer_signal_ice
candidate_valid = refl

validate_peer_signal-push_example :
    ((candidate.kind ≡ signal_kind_offer)
      × (to_offer_push candidate ≡ some (offer_push candidate.from candidate.sdp))
      × (to_answer_push candidate ≡ none)
      × (to_ice_push candidate ≡ none))
    ⊎ (((candidate.kind ≡ signal_kind_answer)
          × (to_offer_push candidate ≡ none)
          × (to_answer_push candidate ≡ some (answer_push candidate.from candidate.sdp))
          × (to_ice_push candidate ≡ none))
        ⊎ ((candidate.kind ≡ signal_kind_ice)
            × (to_offer_push candidate ≡ none)
            × (to_answer_push candidate ≡ none)
            × (to_ice_push candidate
                ≡ some (
                    ice_push candidate.from candidate.candidate candidate.sdp_mid
                      candidate.sdp_mline_index))))
validate_peer_signal-push_example = validate_peer_signal-push candidate candidate_valid
