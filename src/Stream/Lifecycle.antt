-- ===== src/Stream/Lifecycle.antt =====
-- Starting and stopping `Server` of StreamServer.py: its TCP server and its UDP server.
use live_translation.Common.{ℕ, Bool, false, Option, none, some, ◌==◌, if◌then◌else◌}
use live_translation.Common.Result.{Result, ok, err, ◌>>=◌}
use live_translation.Ogg.Bytes.{Bytes}
use live_translation.Tcp
use live_translation.Tcp.Server
use live_translation.Tcp.Lifecycle.{Opening}
use live_translation.Udp

-- `external_host or host`, and `external_udpport or udpport`, of the constructor; the empty host is 0.
abbrev pub external : ℕ → ℕ → ℕ
external own given = if given == 0 then own else given

abbrev pub Servers : Type 0 → Type 0
Servers F = Server.Server F × Udp.Server

-- What ends `stop`: `remove` of the TCP server raises, or the UDP server's `stop` does not return.
pub data StopFault : Type 0 where
  not_in_list : StopFault
  udp_fault : Udp.Fault → StopFault

abbrev pub tcp_stopped :
    {F : Type 0} → Option (Server.Server F) → Result StopFault (Server.Server F)
tcp_stopped none = err not_in_list
tcp_stopped (some tcp) = ok tcp

abbrev pub udp_stopped : Result Udp.Fault Udp.Server → Result StopFault Udp.Server
udp_stopped (ok udp) = ok udp
udp_stopped (err e) = err (udp_fault e)

module _ {F : Type 0} where
  -- `start`: the servers, and whether it raises.
  unfoldable pub start : Bytes → Opening → Bool → Servers F → Servers F × Bool
  start public_key opening can_bind (tcp, udp) =
      let (udp', raises) = Udp.Lifecycle.start can_bind udp in
      if tcp.running
      then ((tcp, udp), false)
      else if udp.running
      then ((tcp, udp), false)
      else ((Tcp.Lifecycle.start public_key opening tcp, udp'), raises)

  unfoldable pub stop : Servers F → Result StopFault (Servers F)
  stop (tcp, udp) = do
    tcp' ← tcp_stopped (Server.stop_server tcp)
    udp' ← udp_stopped (Udp.stop udp)
    ok (tcp', udp')
