-- ===== src/Protocol/Pushes.antt =====
-- From a signal of the peer plane to a push of the control plane: `ToOfferPush`, `ToAnswerPush` and
-- `ToICEPush` of daemon/protocol/messages.go.
use sharing.Base.{true, false, str_eq, ap, ◌∙◌, refl, String, ◌≡◌, ◌⊎◌, none, some, arith, eq_iff}
use sharing.Protocol.Constants.{signal_kind_offer, signal_kind_answer, signal_kind_ice}
use sharing.Protocol.PeerMessages.{PeerSignal, validate_peer_signal}
use sharing.Protocol.ControlMessages.{
  offer_push, answer_push, ice_push, to_offer_push, to_answer_push, to_ice_push,
}

-- A text that is `a` is no other text.
distinct : (k a b : String) → str_eq a b ≡ false → (str_eq k a ≡ true) → str_eq k b ≡ false
distinct k a b d h = ap (λ j. str_eq j b) ((eq_iff k a).0 h) ∙ d

-- A valid signal has exactly one push, the one of its kind - an offer has an offer push, an answer an
-- answer push, a candidate an ICE push - which names its sender and carries its content.
pub validate_peer_signal-push :
    (m : PeerSignal)
    → validate_peer_signal m ≡ none
    → ((m.kind ≡ signal_kind_offer)
        × (to_offer_push m ≡ some (offer_push m.from m.sdp))
        × (to_answer_push m ≡ none)
        × (to_ice_push m ≡ none))
      ⊎ (((m.kind ≡ signal_kind_answer)
            × (to_offer_push m ≡ none)
            × (to_answer_push m ≡ some (answer_push m.from m.sdp))
            × (to_ice_push m ≡ none))
          ⊎ ((m.kind ≡ signal_kind_ice)
              × (to_offer_push m ≡ none)
              × (to_answer_push m ≡ none)
              × (to_ice_push m ≡ some (ice_push m.from m.candidate m.sdp_mid m.sdp_mline_index))))
unfolding validate_peer_signal to_offer_push to_answer_push to_ice_push
validate_peer_signal-push m h = ground (
  arith,
  eq_iff m.kind signal_kind_offer,
  eq_iff m.kind signal_kind_answer,
  eq_iff m.kind signal_kind_ice,
  distinct m.kind signal_kind_offer signal_kind_answer refl,
  distinct m.kind signal_kind_offer signal_kind_ice refl,
  distinct m.kind signal_kind_answer signal_kind_ice refl,
)
