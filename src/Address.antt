-- ===== src/Address.antt =====
-- fins/address.go: device addresses.
use Prim.Native.String.{String}
use omron_hostlink_fins.Common.{ℕ}

pub record FinsAddress : Type 0 where
  pub network : ℕ
  pub node : ℕ
  pub unit : ℕ

-- A `net.UDPAddr` or `net.TCPAddr`: what `net.ParseIP` made of the text, and a port.
pub record NetAddr (Ip : Type 0) : Type 0 where
  pub ip : Ip
  pub port : ℕ

pub record UdpAddress (Ip : Type 0) : Type 0 where
  pub fins_address : FinsAddress
  pub udp_address : NetAddr Ip

pub record TcpAddress (Ip : Type 0) : Type 0 where
  pub fins_address : FinsAddress
  pub tcp_address : NetAddr Ip

-- `net.ParseIP` is a parameter.
module _ {Ip : Type 0} (parse_ip : String → Ip) where
  unfoldable pub new_udp_address : String → ℕ → ℕ → ℕ → ℕ → UdpAddress Ip
  new_udp_address ip port network node unit = record {
    udp_address = record { ip = parse_ip ip; port = port };
    fins_address = record { network = network; node = node; unit = unit };
  }

  unfoldable pub new_tcp_address : String → ℕ → ℕ → ℕ → ℕ → TcpAddress Ip
  new_tcp_address ip port network node unit = record {
    tcp_address = record { ip = parse_ip ip; port = port };
    fins_address = record { network = network; node = node; unit = unit };
  }
