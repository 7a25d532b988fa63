-- ===== src/Protocol/Wire/RoundTrip.antt =====
-- What one daemon writes on the peer plane is what the other reads: each frame shows its type in
-- the envelope, and decodes to the message that it was written from.
use sharing.Base.{String, true, some, ◌≡◌, refl, arith, str_eq, eq_iff, Bool-cases, inl, inr}
use sharing.Base.Int.{ℤ, fits_int64}
use sharing.Protocol.Constants.{
  type_peer_hello, type_peer_signal, type_peer_paired, type_peer_pair_accept,
  type_peer_pair_required, type_peer_pair_reject,
}
use sharing.Protocol.Json.{Frame, Members, unmarshal}
use sharing.Protocol.Types.{SelfDevice}
use sharing.Protocol.PeerMessages.{
  PeerHello, PeerSignal, new_peer_hello, new_peer_signal_ice, new_peer_pair_required,
  new_peer_pair_accept, new_peer_paired, new_peer_pair_reject,
}
use sharing.Protocol.Wire.{
  decode_envelope, peer_hello_fields, marshal_peer_hello, peer_signal_fields, marshal_peer_signal,
  peer_pair_required_fields, marshal_peer_pair_required, peer_pair_accept_fields,
  marshal_peer_pair_accept, peer_paired_fields, marshal_peer_paired, peer_pair_reject_fields,
  marshal_peer_pair_reject,
}
use mathlib.Core.Option.{Option}

-- The frame has that type, no id, and decodes to that message.
pub record Carries {A : Type 0} (fields : Members → Option A) (frame : Frame) (type : String)
    (m : A) : Type 0 where
  pub envelope : decode_envelope frame ≡ some (record { type = type; id = "" })
  pub message : unmarshal fields frame ≡ some m

hello_message :
    (m : PeerHello)
    → fits_int64 m.protocol_version ≡ true
    → unmarshal peer_hello_fields (marshal_peer_hello m) ≡ some m
unfolding unmarshal peer_hello_fields marshal_peer_hello
hello_message m h = elim (Bool-cases (str_eq m.token "")) [
  | inl e ↦ rw (e, h) (ground (arith, eq_iff m.token ""))
  | inr e ↦ rw (e, h)
]

hello_envelope :
    (self : SelfDevice) (token : String)
    → decode_envelope (marshal_peer_hello (new_peer_hello self token))
      ≡ some (record { type = type_peer_hello; id = "" })
unfolding decode_envelope marshal_peer_hello new_peer_hello
hello_envelope self token = elim (Bool-cases (str_eq token "")) [ inl e ↦ rw e | inr e ↦ rw e ]

-- The frame of a peer:hello, with a token or without, shows its type in the envelope and decodes to
-- the message that the dialer built.
pub peer_hello-Carries :
    (self : SelfDevice) (token : String)
    → Carries peer_hello_fields
        (marshal_peer_hello (new_peer_hello self token))
        type_peer_hello
        (new_peer_hello self token)
unfolding new_peer_hello
peer_hello-Carries self token = record {
  envelope = hello_envelope self token;
  message = hello_message (new_peer_hello self token) refl;
}

signal_message :
    (m : PeerSignal)
    → fits_int64 m.sdp_mline_index ≡ true
    → unmarshal peer_signal_fields (marshal_peer_signal m) ≡ some m
unfolding unmarshal peer_signal_fields marshal_peer_signal
signal_message m h = rw h

-- The frame of an ICE candidate whose index is an int64 shows its type in the envelope and decodes to
-- the message that it was written from.
pub peer_signal_ice-Carries :
    (from candidate mid : String) (index : ℤ)
    → fits_int64 index ≡ true
    → Carries peer_signal_fields
        (marshal_peer_signal (new_peer_signal_ice from candidate mid index))
        type_peer_signal
        (new_peer_signal_ice from candidate mid index)
unfolding new_peer_signal_ice
peer_signal_ice-Carries from candidate mid index h = record {
  envelope = unfold decode_envelope marshal_peer_signal in refl;
  message = signal_message (new_peer_signal_ice from candidate mid index) h;
}

-- The frames peer:pair:required, peer:pair:accept, peer:paired and peer:pair:reject, with any
-- contents, show their type in the envelope and decode to the message that they were written from.
pub pairing_frames-Carry :
    (code nonce id token reason : String)
    → Carries peer_pair_required_fields
        (marshal_peer_pair_required (new_peer_pair_required code nonce))
        type_peer_pair_required
        (new_peer_pair_required code nonce)
      × Carries peer_pair_accept_fields
          (marshal_peer_pair_accept (new_peer_pair_accept id))
          type_peer_pair_accept
          (new_peer_pair_accept id)
      × Carries peer_paired_fields
          (marshal_peer_paired (new_peer_paired token))
          type_peer_paired
          (new_peer_paired token)
      × Carries peer_pair_reject_fields
          (marshal_peer_pair_reject (new_peer_pair_reject reason))
          type_peer_pair_reject
          (new_peer_pair_reject reason)
unfolding decode_envelope unmarshal new_peer_pair_required new_peer_pair_accept new_peer_paired
    new_peer_pair_reject marshal_peer_pair_required marshal_peer_pair_accept marshal_peer_paired
    marshal_peer_pair_reject peer_pair_required_fields peer_pair_accept_fields peer_paired_fields
    peer_pair_reject_fields
pairing_frames-Carry code nonce id token reason = (
  record { envelope = refl; message = refl },
  record { envelope = refl; message = refl },
  record { envelope = refl; message = refl },
  record { envelope = refl; message = refl },
)
