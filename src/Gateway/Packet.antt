-- ===== src/Gateway/Packet.antt =====
-- server/main.c: what the module reads of a socket buffer, its globals, and what common/common.c
-- gives it. That file is not in the repository, so its functions and structs are a parameter.
use xsky.Base.{ℕ, List, Bool, replicate}

-- A socket buffer. Words are as the host loads them; `payload` and `tcp_payload` are what follows a
-- UDP and a TCP header, `contents` is `data` with its `len`, `ifa_list` and `ac_list` are the
-- addresses of its device.
pub record SkBuff : Type 0 where
  pub h_dest : List ℕ
  pub h_source : List ℕ
  pub h_proto : ℕ
  pub ihl : ℕ
  pub tot_len : ℕ
  pub id : ℕ
  pub frag_off : ℕ
  pub protocol : ℕ
  pub saddr : ℕ
  pub daddr : ℕ
  pub nexthdr : ℕ
  pub saddr6 : List ℕ
  pub daddr6 : List ℕ
  pub source : ℕ
  pub dest : ℕ
  pub len : ℕ
  pub payload : List ℕ
  pub tcp_payload : List ℕ
  pub contents : List ℕ
  pub ifa_list : List ℕ
  pub ac_list : List (List ℕ)
  pub dev_addr : List ℕ

-- The fields of `config_info` that the code reads.
pub record Config : Type 0 where
  pub macs : ℕ
  pub domains : ℕ
  pub proxy : ℕ
  pub tcp : ℕ
  pub udp : ℕ
  pub dns : ℕ
  pub http : ℕ
  pub https : ℕ
  pub server_port : ℕ
  pub server_v4 : ℕ

-- The fields of `capture_info` that the code reads.
pub record Capture : Type 0 where
  pub arp : ℕ
  pub ip : ℕ
  pub icmp : ℕ
  pub tcp : ℕ
  pub udp : ℕ
  pub dns : ℕ
  pub http : ℕ
  pub https : ℕ
  pub addr : ℕ
  pub mac : List ℕ

abbrev pub zero_config : Config
zero_config = record {
  macs = 0;
  domains = 0;
  proxy = 0;
  tcp = 0;
  udp = 0;
  dns = 0;
  http = 0;
  https = 0;
  server_port = 0;
  server_v4 = 0;
}

abbrev pub zero_capture : Capture
zero_capture = record {
  arp = 0;
  ip = 0;
  icmp = 0;
  tcp = 0;
  udp = 0;
  dns = 0;
  http = 0;
  https = 0;
  addr = 0;
  mac = replicate 6 0;
}

-- common/common.c, and the kernel's `strnstr`. The structs are read from the bytes that a `memcpy`
-- takes them from.
pub record Library (H : Type 0) : Type 0 where
  pub create_hash_map : H
  pub insert_hash_map : H → List ℕ → ℕ → H
  pub ip_proto_icmp : ℕ
  pub ipv6_nexthdr_tcp : ℕ
  pub ipv6_nexthdr_icmp : ℕ
  pub sizeof_config_info : ℕ
  pub config_info : List ℕ → Config
  pub capture_info : List ℕ → Capture
  pub sizeof_mac_info : ℕ
  pub mac_info_mac : List ℕ → List ℕ
  pub mac_info_type : List ℕ → ℕ
  pub sizeof_domain_info : ℕ
  pub domain_info_strlen : List ℕ → ℕ
  pub domain_info_type : List ℕ → ℕ
  pub strnstr : List ℕ → List ℕ → ℕ → Bool
  -- What stands in a fresh buffer where its `tot_len` will be, and how many bytes can be put in the
  -- buffer that `alloc_skb` gives for so many.
  pub unset_tot_len : ℕ
  pub tailroom : ℕ → ℕ

-- `_device`
pub record Device (H : Type 0) : Type 0 where
  pub nat_map : H
  pub hash_map : H
  pub limit_map : H
  pub config : Config
  pub capture : Capture
