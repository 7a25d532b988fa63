-- ===== src/Peer/Delivery.antt =====
-- What the frame loop of daemon/peer/peer.go hands to the application: the calls of `OnSignal` that
-- one read of a socket causes.
use sharing.Base.{
  Bool-cases, inl, inr, ℕ, String, ◌≡◌, ◌∙◌, Bool, true, false, not, Option, none, some, arith, ◌∷◌,
  str_eq, if◌then◌else◌, refl, eq_iff,
}
use sharing.Protocol.Json.{Frame, unmarshal}
use sharing.Protocol.PeerMessages.{PeerSignal, validate_peer_signal}
use sharing.Protocol.Wire.{Envelope, peer_signal_fields}
use sharing.Peer.State.{Manager}
use sharing.Protocol.Constants.{type_peer_signal}
use sharing.Base.Dict.{is_some}
use sharing.Peer.Frames.{
  Read, frame, handle_pairing_frame, binary, failed, accept_signal, handle_signal_frame,
  handle_frame, loop_round, on_read, continue_or_end, is_serving,
}
use sharing.Peer.Silent.{
  signals, Authentic, leave-Silent, SilentResult, refused, handle_pairing_frame-Silent,
}

-- What one read hands over: nothing, or one authentic message.
pub data Heard (c : ℕ) (read : Read) (m m' : Manager) : Type 0 where
  nothing : signals m'.calls ≡ signals m.calls → Heard c read m m'
  message :
      (msg : PeerSignal)
      → signals m'.calls ≡ msg ∷ signals m.calls
      → Authentic c read m msg
      → Heard c read m m'

-- The same for the result of a handler of frames.
record HeardResult (c : ℕ) (read : Read) (m : Manager) (r : Manager × Bool) : Type 0 where
  heard : Heard c read m r.0

if-HeardResult :
    {c : ℕ} {read : Read} {m : Manager} {r₁ r₂ : Manager × Bool} (b : Bool)
    → HeardResult c read m r₁
    → (b ≡ false → HeardResult c read m r₂)
    → HeardResult c read m (if b then r₁ else r₂)
if-HeardResult true h k = h
if-HeardResult false h k = k refl

abbrev SilentResult-HeardResult :
    {c : ℕ} {read : Read} {m : Manager} {r : Manager × Bool}
    → SilentResult m r
    → HeardResult c read m r
SilentResult-HeardResult s = record { heard = nothing s.silent.unheard }

-- `is_some` of a validation that found nothing.
is_some-none : {A : Type 0} (o : Option A) → is_some o ≡ false → o ≡ none
is_some-none none e = refl
is_some-none (some x) e = ground arith

str_eq-not : (s t : String) → not (str_eq s t) ≡ false → s ≡ t
str_eq-not s t e = elim (Bool-cases (str_eq s t)) [
  | inl q ↦ ground (arith, eq_iff s t)
  | inr q ↦ ground arith
]

accept_signal-HeardResult :
    (c : ℕ) (data' : Frame) (o : Option PeerSignal) (m : Manager)
    → unmarshal peer_signal_fields data' ≡ o
    → (m.sockets c).paired ≡ true
    → HeardResult c (frame data') m (accept_signal c o m)
unfolding accept_signal signals
accept_signal-HeardResult c data' none m e paired = SilentResult-HeardResult (refused c _ m)
accept_signal-HeardResult c data' (some msg) m e paired =
    if-HeardResult (is_some (validate_peer_signal msg)) (SilentResult-HeardResult (refused c _ m))
      (λ valid.
        if-HeardResult (not (str_eq msg.from (m.sockets c).remote_id))
          (SilentResult-HeardResult (refused c _ m))
          (λ same. record {
            heard = message msg refl (record {
              data' = data';
              was_read = refl;
              decoded = e;
              is_paired = paired;
              sender = str_eq-not msg.from (m.sockets c).remote_id same;
              is_valid = is_some-none (validate_peer_signal msg) valid;
            });
          }))

handle_signal_frame-HeardResult :
    (c : ℕ) (env : Envelope) (data' : Frame) (m : Manager)
    → (m.sockets c).paired ≡ true
    → HeardResult c (frame data') m (handle_signal_frame c env data' m)
unfolding handle_signal_frame
handle_signal_frame-HeardResult c env data' m paired =
    if-HeardResult (not (str_eq env.type type_peer_signal))
      (SilentResult-HeardResult (refused c _ m))
      (λ _. accept_signal-HeardResult c data' _ m refl paired)

handle_frame-HeardResult :
    (c : ℕ) (o : Option Envelope) (data' : Frame) (m : Manager)
    → HeardResult c (frame data') m (handle_frame c o data' m)
unfolding handle_frame
handle_frame-HeardResult c none data' m = SilentResult-HeardResult (refused c _ m)
handle_frame-HeardResult c (some env) data' m = go (m.sockets c).paired refl
  where
    go :
        (b : Bool)
        → (m.sockets c).paired ≡ b
        → HeardResult c
            (frame data')
            m
            (if b then handle_signal_frame c env data' m else handle_pairing_frame c env data' m)
    go true e = handle_signal_frame-HeardResult c env data' m e
    go false e = SilentResult-HeardResult (handle_pairing_frame-Silent c env data' m)

-- After a frame, the loop goes on or the socket is torn down.
continue_or_end-Heard :
    (c : ℕ) (read : Read) (m : Manager) (r : Manager × Bool)
    → HeardResult c read m r
    → Heard c read m (continue_or_end c r)
continue_or_end-Heard c read m (m', true) h = h.heard
continue_or_end-Heard c read m (m', false) h = elim h.heard [
  | nothing e ↦ nothing ((leave-Silent c m').unheard ∙ e)
  | message msg e a ↦ message msg ((leave-Silent c m').unheard ∙ e) a
]

loop_round-Heard : (c : ℕ) (read : Read) (m : Manager) → Heard c read m (loop_round c read m)
unfolding loop_round
loop_round-Heard c failed m = nothing (leave-Silent c m).unheard
loop_round-Heard c binary m =
    continue_or_end-Heard c binary m _ (SilentResult-HeardResult (refused c _ m))
loop_round-Heard c (frame data') m =
    continue_or_end-Heard c (frame data') m _ (handle_frame-HeardResult c _ data' m)

-- One read of a socket calls `OnSignal` at most once; if it does, the socket is paired, the frame
-- read decodes to the message of the call, the message is valid and its sender is the remote device
-- of the socket.
pub on_read-Heard : (c : ℕ) (read : Read) (m : Manager) → Heard c read m (on_read c read m)
unfolding on_read
on_read-Heard c read m =
    elim (is_serving (m.sockets c).stage)
      as (λ b. Heard c read m (if b then loop_round c read m else m)) [
        | true ↦ loop_round-Heard c read m
        | false ↦ nothing refl
      ]
