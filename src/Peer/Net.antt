-- ===== src/Peer/Net.antt =====
-- peer/net.go: GetLocalIP.
use fim.Base.{Bool, Option, none, some, List, [], ◌∷◌, if◌then◌else◌}
use fim.Wire.Buffer.{Bytes}

-- What the code looks at of a net.Addr: whether it is an *net.IPNet, and then whether its IP is a
-- loopback address, whether it has four bytes, and its text.
pub data Addr : Type 0 where
  ip_net : Bool → Bool → Bytes → Addr
  other_addr : Addr

-- The loop over the addresses.
unfoldable pub first_ip : List Addr → Bytes
first_ip [] = []
first_ip (other_addr ∷ rest) = first_ip rest
first_ip (ip_net loopback is_v4 text ∷ rest) =
    let later = first_ip rest in if loopback then later else if is_v4 then text else later

-- GetLocalIP on what net.InterfaceAddrs gives, none for its error.
unfoldable pub get_local_ip : Option (List Addr) → Bytes
get_local_ip none = []
get_local_ip (some addrs) = first_ip addrs
