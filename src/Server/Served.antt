-- ===== src/Server/Served.antt =====
-- No frame of a client goes unanswered: `dispatch` of daemon/server/websocket.go.
use sharing.Base.{ℕ, String}
use sharing.Protocol.Constants
use sharing.Protocol.Json.{Frame}
use sharing.Trust.Disk.{Faults}
use sharing.Server.Hub.{PeerRouter, Server}
use sharing.Server.Answers.{Answered}
use sharing.Server.Asked.{Asked, AskedToForget}

module _ {P : Type 0} (router : PeerRouter P) (fails : Faults) (now c : ℕ) (s : Server P)
    (raw : Frame) where
  -- What becomes of the frame, as a request with the id.
  abbrev pub Served : String → Server P → Type 0
  Served req_id s' =
      Answered router fails now c req_id (Asked router now s raw) (AskedToForget router now s raw) s
        s'
