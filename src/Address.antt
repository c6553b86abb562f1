-- ===== src/Address.antt =====
-- src/address.cpp, inc/address.h: the two ends of a connection.
use boost_web.Common.{ℕ, Bytes, []}

pub record Address : Type 0 where
  pub host_ip : Bytes
  pub host_port : ℕ  -- unsigned short
  pub peer_ip : Bytes
  pub peer_port : ℕ  -- unsigned short

-- Address::Address()
abbrev pub default : Address
default = record { host_ip = []; host_port = 0; peer_ip = []; peer_port = 0 }

-- Address::Address(const Address &)
unfoldable pub copy : Address → Address
copy other = record {
  host_ip = other.host_ip;
  host_port = other.host_port;
  peer_ip = other.peer_ip;
  peer_port = other.peer_port;
}

-- Address::Address(Address &&): the new address, and what is left of `other`. The standard does
-- not say what a moved-from std::string holds, so the two texts left behind are arguments.
unfoldable pub move : (left_host_ip left_peer_ip : Bytes) → Address → Address × Address
move left_host_ip left_peer_ip other = (
  record {
    host_ip = other.host_ip;
    host_port = other.host_port;
    peer_ip = other.peer_ip;
    peer_port = other.peer_port;
  },
  record { host_ip = left_host_ip; host_port = 0; peer_ip = left_peer_ip; peer_port = 0 },
)
