-- ===== src/Peer/Conn.antt =====
-- The write side of a peer socket, daemon/peer/conn.go. `closeWith` waits for the writer, for a
-- bounded time, before it tears the socket down; the wait is not modelled, only what is queued.
use sharing.Base.{ℕ, ◌+◌, String, Bool, true, false, [], ◌∷◌, ◌++◌, ltb, if◌then◌else◌}
use sharing.Protocol.Json.{Frame}
use sharing.Peer.State.{OutFrame, text, close, fresh, Manager, set_conn, store}

abbrev pub send_buffer : ℕ
send_buffer = 32

-- `newConn`; the socket is tracked at once.
unfoldable pub new_conn : Bool → String → Manager → Manager × ℕ
new_conn outbound remote_addr m = (
  record m {
    sockets = store m.sockets m.next_conn (record {
      outbound = outbound;
      remote_addr = remote_addr;
      remote_id = "";
      remote_name = "";
      out = [];
      unsent = 0;
      cancelled = false;
      tracked = true;
      paired = false;
      holds_slot = false;
      stage = fresh;
    });
    next_conn = m.next_conn + 1;
  },
  m.next_conn,
)

-- `setRemote`
unfoldable pub set_remote : ℕ → String → String → Manager → Manager
set_remote c id name m = set_conn c (record (m.sockets c) { remote_id = id; remote_name = name }) m

-- `hardClose`
unfoldable pub hard_close : ℕ → Manager → Manager
hard_close c m = set_conn c (record (m.sockets c) { cancelled = true; tracked = false }) m

-- `enqueueFrame`; the flag is false for `errConnClosed`.
unfoldable enqueue_frame : ℕ → OutFrame → Manager → Manager × Bool
unfolding hard_close
enqueue_frame c f m =
    let s = m.sockets c in
    if s.cancelled
    then (m, false)
    else if ltb s.unsent send_buffer
    then (set_conn c (record s { out = s.out ++ f ∷ []; unsent = s.unsent + 1 }) m, true)
    else (hard_close c m, false)

-- `enqueue`
unfoldable pub enqueue : ℕ → Frame → Manager → Manager × Bool
unfolding enqueue_frame
enqueue c frame m = enqueue_frame c (text frame) m

-- `closeWith`
unfoldable pub close_with : ℕ → ℕ → String → Manager → Manager
unfolding enqueue_frame hard_close
close_with c status reason m = hard_close c (enqueue_frame c (close status reason) m).0
