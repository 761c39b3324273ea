-- ===== src/Udp/Lifecycle.antt =====
-- `Server.start` of UDPserver.py. Whether the socket can be bound is an argument.
use live_translation.Common.{Bool, true, false, not, if◌then◌else◌}
use live_translation.Udp.{Server}

-- The server, and whether `bind` raises; the server counts as running all the same.
unfoldable pub start : Bool → Server → Server × Bool
start can_bind s = if s.running then (s, false) else (record s { running = true }, not can_bind)
