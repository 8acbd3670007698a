-- ===== src/Common.antt =====
-- common/common.h: the constants that the gateway, the controller and the client share.
use xsky.Base.{ℕ, List, [], ◌∷◌}

-- `ROUTE_URL`
abbrev pub route_url : List ℕ
route_url =
    b'x' ∷ b's' ∷ b'k' ∷ b'y' ∷ b'.' ∷ b'x' ∷ b's' ∷ b'k' ∷ b'y' ∷ b'.' ∷ b'x' ∷ b's' ∷ b'k' ∷ b'y'
    ∷ []

abbrev pub route_config_port : ℕ
route_config_port = 0xabab

abbrev pub route_capture_port : ℕ
route_capture_port = 0xbaba

abbrev pub eth_alen : ℕ
eth_alen = 6

abbrev pub eth_type_arp : ℕ
eth_type_arp = 0x0806

abbrev pub eth_type_ipv4 : ℕ
eth_type_ipv4 = 0x0800

abbrev pub eth_type_ipv6 : ℕ
eth_type_ipv6 = 0x86dd

abbrev pub ip_version_4 : ℕ
ip_version_4 = 0x0100

abbrev pub ip_proto_tcp : ℕ
ip_proto_tcp = 6

abbrev pub ip_proto_udp : ℕ
ip_proto_udp = 17

abbrev pub ipv6_nexthdr_udp : ℕ
ipv6_nexthdr_udp = 136

abbrev pub dns_fixed_port : ℕ
dns_fixed_port = 53

abbrev pub http_fixed_port : ℕ
http_fixed_port = 80

abbrev pub https_fixed_port : ℕ
https_fixed_port = 443

-- Sizes and offsets of the structs `protocol_ipv4`, `protocol_ipv6`, `protocol_tcp` and `protocol_udp`
-- on x64 with the compiler of Visual Studio, which gives bit-fields the whole of their type: the two
-- of `protocol_ipv4` take four bytes.
abbrev pub sizeof_protocol_ipv4 : ℕ
sizeof_protocol_ipv4 = 24

abbrev pub offsetof_protocol : ℕ
offsetof_protocol = 13

abbrev pub offsetof_nexthdr : ℕ
offsetof_nexthdr = 6

abbrev pub offsetof_dest : ℕ
offsetof_dest = 2
