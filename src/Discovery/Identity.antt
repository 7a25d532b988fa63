-- ===== src/Discovery/Identity.antt =====
-- What a daemon publishes is read back by the others: daemon/discovery/mdns.go.
use Prim.Native.String.append
use sharing.Base.{String}
