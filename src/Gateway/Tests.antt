-- ===== src/Gateway/Tests.antt =====
-- server/main.c: the theorems at concrete packets, with a simple hash map and layout.
use xsky.Base.{ℕ, ◌≡◌, List, [], ◌∷◌, length, byte_at, arith, All, ltb, little, some}
use xsky.Gateway.Packet.{SkBuff, zero_config, zero_capture, Library}
use xsky.Gateway.Handle.{route_init, handle_all}
use xsky.Gateway.Traffic.{HasBytes, handle_all-little}

-- A map is the list of what was inserted.
abbrev lib : Library (List (List ℕ × ℕ))
lib = record {
  create_hash_map = [];
  insert_hash_map = λ map key value. (key, value) ∷ map;
  ip_proto_icmp = 1;
  ipv6_nexthdr_tcp = 6;
  ipv6_nexthdr_icmp = 58;
  sizeof_config_info = 3;
  config_info = λ bytes. record zero_config { macs = byte_at bytes 0; proxy = byte_at bytes 1 };
  capture_info = λ bytes. record zero_capture { arp = byte_at bytes 0 };
  sizeof_mac_info = 7;
  mac_info_mac = λ bytes. bytes;
  mac_info_type = λ bytes. byte_at bytes 6;
  sizeof_domain_info = 2;
  domain_info_strlen = λ bytes. byte_at bytes 0;
  domain_info_type = λ bytes. byte_at bytes 1;
  strnstr = λ text name n. ltb 12 (length text);
  unset_tot_len = 0;
  tailroom = λ n. n;
}

-- A datagram to the device, at the config port of a big-endian host.
abbrev settings : SkBuff
settings = record {
  h_dest = 1 ∷ 2 ∷ 3 ∷ 4 ∷ 5 ∷ 6 ∷ [];
  h_source = 6 ∷ 5 ∷ 4 ∷ 3 ∷ 2 ∷ 1 ∷ [];
  h_proto = 0x0800;
  ihl = 5;
  tot_len = 37;
  id = 7;
  frag_off = 0;
  protocol = 17;
  saddr = 0x0a000002;
  daddr = 0x0a000001;
  nexthdr = 17;
  saddr6 = [];
  daddr6 = [];
  source = 5000;
  dest = 0xabab;
  len = 17;
  payload = 1 ∷ 0 ∷ 0 ∷ 9 ∷ 9 ∷ 9 ∷ 9 ∷ 9 ∷ 9 ∷ [];
  tcp_payload = [];
  contents = [];
  ifa_list = 0x0a000001 ∷ [];
  ac_list = [];
  dev_addr = 1 ∷ 2 ∷ 3 ∷ 4 ∷ 5 ∷ 6 ∷ [];
}

abbrev capture_request : SkBuff
capture_request = record settings { dest = 0xbaba }

abbrev query : SkBuff
query = record settings {
  dest = 53;
  payload = 1 ∷ 2 ∷ 1 ∷ 0 ∷ 0 ∷ 1 ∷ 0 ∷ 0 ∷ 0 ∷ 0 ∷ 0 ∷ 0 ∷ 4 ∷ b'x' ∷ [];
}

abbrev traffic : List SkBuff
traffic = query ∷ settings ∷ capture_request ∷ query ∷ []

traffic-HasBytes : All HasBytes traffic
traffic-HasBytes = ground arith

handle_all-little_example :
    handle_all lib little (route_init lib little) traffic ≡ some (route_init lib little, [])
handle_all-little_example = handle_all-little lib traffic traffic-HasBytes
