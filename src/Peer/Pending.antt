-- ===== src/Peer/Pending.antt =====
-- The registry of pairings in flight, and the two ways into one, of daemon/peer/pairing.go.
use sharing.Base.{
  ℕ, ◌+◌, String, Bool, true, false, Option, none, some, [], ◌∷◌, ◌++◌, length, ltb, ◌==◌, str_eq,
  if◌then◌else◌,
}
use sharing.Peer.State.{
  PairDecision, PairEvent, waiting, Manager, PeerError, no_pending_pairing, pair_in_progress,
  set_pairing, assign, store,
}

-- `newPairing`, which gives the pairing its number.
unfoldable pub new_pairing :
    String → String → String → Bool → String → Option ℕ → Manager → Manager × ℕ
new_pairing device_id name direction responder code conn m = (
  record m {
    pairings = store m.pairings m.next_pairing (record {
      device_id = device_id;
      name = name;
      direction = direction;
      responder = responder;
      code = code;
      conn = conn;
      decision = none;
      remote = [];
      done = false;
      phase = waiting;
      local_accepted = false;
      remote_accepted = false;
    });
    next_pairing = m.next_pairing + 1;
  },
  m.next_pairing,
)

abbrev pub event_buffer : ℕ
event_buffer = 4

-- `pushEvent`. With room in the buffer and the pairing done, Go chooses between two ready cases; a
-- driver that is done reads no event, so that nothing tells the cases apart.
unfoldable pub push_event : ℕ → PairEvent → Manager → Manager
push_event p ev m =
    let v = m.pairings p in
    if ltb (length v.remote) event_buffer
    then set_pairing p (record v { remote = v.remote ++ ev ∷ [] }) m
    else m

-- `beginPairing`
unfoldable pub begin_pairing : ℕ → Manager → Manager × Option PeerError
begin_pairing p m =
    let id = (m.pairings p).device_id in
    elim (m.pending id) [
      | some q ↦ (m, some pair_in_progress)
      | none ↦ (record m { pending = assign m.pending id (some p) }, none)
    ]

-- `m.pending[id] == p`
abbrev is_pairing : Option ℕ → ℕ → Bool
is_pairing none p = false
is_pairing (some q) p = q == p

-- `endPairing`
unfoldable pub end_pairing : ℕ → Manager → Manager
end_pairing p m =
    let v = m.pairings p in
    let m' =
      if is_pairing (m.pending v.device_id) p
      then record m { pending = assign m.pending v.device_id none }
      else m in
    set_pairing p (record v { done = true }) m'

-- The decision is put into the buffer, if that is empty.
unfoldable deliver : ℕ → PairDecision → Manager → Manager × Option PeerError
deliver p d m =
    let v = m.pairings p in
    if v.done then (m, some no_pending_pairing) else elim v.decision [
      | some earlier ↦ (m, some no_pending_pairing)
      | none ↦ (set_pairing p (record v { decision = some d }) m, none)
    ]

-- `Confirm`
unfoldable pub confirm : PairDecision → Manager → Manager × Option PeerError
unfolding deliver
confirm d m =
    if str_eq d.device_id "" then (m, some no_pending_pairing) else elim (m.pending d.device_id) [
      | none ↦ (m, some no_pending_pairing)
      | some p ↦ deliver p d m
    ]
