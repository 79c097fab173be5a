-- ===== src/Lgcluster/Proxy/Channel.antt =====
-- lgcluster/proxy.go: Send, Start and Shutdown, and the channel `in` of a hundred packets.
use fim.Base.{
  ℕ, ◌≤◌, ◌<◌, ◌≡◌, Option, none, some, List, [], ◌∷◌, ◌++◌, arith, ltb, if◌then◌else◌, length,
  Writer,
}
use fim.Wire.Ksuid.{Ksuids}
use fim.Wire.Relay.{RelayPacket}
use fim.Peer.Handshake.{Conn}
use fim.Peer.Server.{Server}
use fim.Lgcluster.Cluster.{Cluster, Range}
use fim.Lgcluster.Cluster.Connecting.{ServerEntry}
use fim.Lgcluster.Cluster.Connecting

-- make(chan *wire.RelayPacket, 100)
abbrev pub in_capacity : ℕ
in_capacity = 100

-- Send, with what waits in `in`; `none` is a Send that blocks, since `in` is full.
unfoldable pub send :
    {K : Type 0} → RelayPacket K → List (RelayPacket K) → Option (List (RelayPacket K))
send pkt waiting = if ltb (length waiting) in_capacity then some (waiting ++ (pkt ∷ [])) else none

-- exit of the cluster, which is empty.
unfoldable pub exit : {K S : Type 0} → Cluster K S → Cluster K S
exit c = c

-- Shutdown
unfoldable pub shutdown : {K S : Type 0} → Cluster K S → Cluster K S
shutdown c = exit c

-- Start up to its goroutines, with the servers of the name service or its error.
unfoldable pub start_proxy :
    {K W : Type 0} ⦃ks : Ksuids K⦄ ⦃w : Writer W⦄
    → Range K
    → Option (List (ServerEntry × List (Option (Conn W))))
    → Cluster K (Server K W)
    → Cluster K (Server K W)
start_proxy r servers c = Connecting.start r servers c

-- A Send that returns had room, and the packet is behind the others.
pub send-cases :
    {K : Type 0} (pkt : RelayPacket K) (before after : List (RelayPacket K))
    → send pkt before ≡ some after
    → (length before < in_capacity) × (after ≡ before ++ (pkt ∷ []))
unfolding send
send-cases pkt before after e = ground arith

-- Where there is no room, a Send blocks.
pub send-full :
    {K : Type 0} (pkt : RelayPacket K) (waiting : List (RelayPacket K))
    → in_capacity ≤ length waiting
    → send pkt waiting ≡ none
unfolding send
send-full pkt waiting full = ground arith
