-- ===== src/Gateway/Handle.antt =====
-- server/main.c: the handlers of packets, `route_nf_handle`, `route_init` and `route_exit`.
-- Checksums, which the kernel's functions compute, are left out.
use mathlib.Core.Option
use xsky.Base.{
  ◌>>=◌, Option, none, some, ltb, ℕ, zero, suc, ◌+◌, ◌-◌, ◌||◌, ◌!=◌, byte_at, Bool, ◌*◌, ◌/◌, ◌%◌,
  ◌^◌, List, [], ◌∷◌, ◌++◌, ◌&&◌, length, take, drop, ◌==◌, ◌!=◌, if◌then◌else◌, Endian, little,
  big, htons, ntohs,
}
use xsky.Base.Kernel.{Verdict, nf_drop, nf_accept, nf_queue}
use xsky.Common.{
  eth_alen, eth_type_ipv4, eth_type_ipv6, ip_proto_udp, ipv6_nexthdr_udp, route_config_port,
  route_capture_port,
}
use xsky.Gateway.Packet.{Config, SkBuff, zero_config, zero_capture, Library, Device}
use xsky.Gateway.Classify.{
  has_type, is_local_ipv4, is_local_ipv6, skb_is_config, skb_is_set_capture, skb_is_dns,
  skb_is_get_capture, skb_is_tcp, skb_is_client_to_server, skb_is_server_to_client,
}

-- The datagram that `skb_sendto_capture` builds, words as the host stores them.
pub record Copy : Type 0 where
  pub h_dest : List ℕ
  pub h_source : List ℕ
  pub h_proto : ℕ
  pub ihl : ℕ
  pub tot_len : ℕ
  pub ttl : ℕ
  pub protocol : ℕ
  pub saddr : ℕ
  pub daddr : ℕ
  pub source : ℕ
  pub dest : ℕ
  pub len : ℕ
  pub payload : List ℕ

-- The TCP segment that `skb_sendto_client` or `skb_sendto_server` builds: `size` bytes of it are sent,
-- whatever has been written.
pub record Segment : Type 0 where
  pub h_dest : List ℕ
  pub h_source : List ℕ
  pub saddr : ℕ
  pub daddr : ℕ
  pub tot_len : ℕ
  pub source : ℕ
  pub dest : ℕ
  pub tcp_payload : List ℕ
  pub size : ℕ

-- What `dev_queue_xmit` is given.
pub data Sent : Type 0 where
  reply : SkBuff → Sent
  copy : Copy → Sent
  segment : Segment → Sent

-- What a handler does: its verdict, the globals after it, and the packets it sent.
pub record Done (H : Type 0) : Type 0 where
  pub verdict : Verdict
  pub device : Device H
  pub sent : List Sent

-- The bytes of a word, as the host stores them.
abbrev pub store16 : Endian → ℕ → List ℕ
store16 little w = (w % 256) ∷ (w / 256 % 256) ∷ []
store16 big w = (w / 256 % 256) ∷ (w % 256) ∷ []

abbrev pub store32 : Endian → ℕ → List ℕ
store32 little w = (w % 256) ∷ (w / 2 ^ 8 % 256) ∷ (w / 2 ^ 16 % 256) ∷ (w / 2 ^ 24 % 256) ∷ []
store32 big w = (w / 2 ^ 24 % 256) ∷ (w / 2 ^ 16 % 256) ∷ (w / 2 ^ 8 % 256) ∷ (w % 256) ∷ []

-- `dns_name` with the address of the device in its last four bytes.
unfoldable pub dns_name : Endian → ℕ → List ℕ
dns_name e local_ip =
    0xc0
    ∷ 0x0c
    ∷ 0x00
    ∷ 0x01
    ∷ 0x00
    ∷ 0x01
    ∷ 0x00
    ∷ 0x00
    ∷ 0x00
    ∷ 0x00
    ∷ 0x00
    ∷ 0x04
    ∷ store32 e local_ip

-- A DNS message with its `flags` and its `ancount` replaced: `tid`, `flags`, `qdcount`, `ancount`,
-- and what is behind them.
unfoldable pub answered : Endian → List ℕ → List ℕ
answered e message =
    take 2 message
    ++ (store16 e (htons e 0x8580)
        ++ (take 2 (drop 4 message) ++ (store16 e (ntohs e 1) ++ drop 8 message)))

-- The first address of the device; without one the code reads through NULL, `none`.
unfoldable pub first_address : List ℕ → Option ℕ
first_address [] = none
first_address (a ∷ rest) = some a

abbrev pub get_local_ipv4 : SkBuff → Option ℕ
get_local_ipv4 skb = first_address skb.ifa_list

-- The four words of an IPv6 source address, after the code has swapped what stands at the places of
-- the two addresses of an IPv4 header: those of its second and its third word.
unfoldable pub overwritten : List ℕ → List ℕ
overwritten saddr6 =
    take 1 saddr6 ++ (take 1 (drop 2 saddr6) ++ (take 1 (drop 1 saddr6) ++ drop 3 saddr6))

-- The packet that `skb_recv_dns` makes of the query, of which it writes the IP header as one of IPv4
-- whatever it is. The same memory read as an IPv6 header: the next header is the first byte of
-- `frag_off`, and the source address has two words swapped; the checksum, which is left out, stands
-- in its first word. The answer goes behind the packet's data.
unfoldable pub dns_reply : Endian → (local_ip : ℕ) → SkBuff → SkBuff
dns_reply e local_ip skb = record skb {
  payload = answered e skb.payload ++ dns_name e local_ip;
  nexthdr = 0x40;
  saddr6 = overwritten skb.saddr6;
  source = skb.dest;
  dest = skb.source;
  len = htons e (ntohs e skb.len + 16);
  saddr = skb.daddr;
  daddr = skb.saddr;
  id = 0;
  frag_off = htons e 0x4000;
  tot_len = htons e (ntohs e skb.tot_len + 16);
  h_source = skb.h_dest;
  h_dest = skb.h_source;
}

-- The words that the host loads from bytes.
abbrev pub load16 : Endian → List ℕ → ℕ → ℕ
load16 little bs i = byte_at bs i + byte_at bs (i + 1) * 2 ^ 8
load16 big bs i = byte_at bs i * 2 ^ 8 + byte_at bs (i + 1)

abbrev pub load32 : Endian → List ℕ → ℕ → ℕ
load32 little bs i = load16 little bs i + load16 little bs (i + 2) * 2 ^ 16
load32 big bs i = load16 big bs i * 2 ^ 16 + load16 big bs (i + 2)

-- The test that `skb_recv_client` and `skb_recv_server` share.
abbrev proxies : Config → Bool
proxies c = c.tcp != 0 || c.udp != 0 || c.dns != 0 || c.http != 0 || c.https != 0

module _ {H : Type 0} (lib : Library H) (e : Endian) where
  -- The loop of `load_config` over the MAC entries, `k` of them left, into the map before it is freed.
  unfoldable pub load_macs : (k : ℕ) → List ℕ → H → H
  load_macs zero bytes map = map
  load_macs (suc k) bytes map =
      load_macs k (drop lib.sizeof_mac_info bytes)
        (lib.insert_hash_map map (take eth_alen (lib.mac_info_mac bytes)) (lib.mac_info_type bytes))

  -- The loop over the domains: `data` does not move over the text of a domain. `none` is a copy of
  -- more than the 255 bytes of `url`.
  unfoldable pub load_domains : (k : ℕ) → List ℕ → H → Option H
  load_domains zero bytes map = some map
  load_domains (suc k) bytes map =
      let url = drop lib.sizeof_domain_info bytes in
      let size = lib.domain_info_strlen bytes in
      let rest =
        load_domains k url (lib.insert_hash_map map (take size url) (lib.domain_info_type bytes)) in
      if ltb 255 size then none else rest

  -- The map that the two loops fill is freed, and the one made first takes its place.
  unfoldable pub load_config : Device H → List ℕ → Option (Device H)
  load_config d bytes =
      let limit_map = lib.create_hash_map in
      let config = lib.config_info bytes in
      let bytes = drop lib.sizeof_config_info bytes in
      let filled = load_macs config.macs bytes d.limit_map in
      let filled =
        load_domains config.domains (drop (lib.sizeof_mac_info * config.macs) bytes) filled in
      Option.map (λ _. record d { config = config; limit_map = limit_map }) filled

  unfoldable pub load_capture : Device H → List ℕ → Option (Device H)
  load_capture d bytes = some (record d { capture = lib.capture_info bytes })

  -- In this and the handlers that follow, `none` is a crash of the kernel.
  unfoldable pub skb_recv_dns : Device H → SkBuff → Option (Done H)
  skb_recv_dns d skb =
      Option.map
        (λ local_ip. record {
          verdict = nf_queue;
          device = d;
          sent = reply (dns_reply e local_ip skb) ∷ [];
        })
        (get_local_ipv4 skb)

  -- The body that `skb_recv_config` and `skb_recv_capture` share: both test the config port.
  unfoldable pub recv_at_config_port :
      (Device H → List ℕ → Option (Device H)) → Device H → SkBuff → Option (Done H)
  recv_at_config_port load d skb =
      let loaded : Option (Done H) =
        Option.map (λ d'. record { verdict = nf_drop; device = d'; sent = [] })
          (load d skb.payload) in
      let accepted : Option (Done H) =
        some (record { verdict = nf_accept; device = d; sent = [] }) in
      if has_type e skb eth_type_ipv4
      then (if skb.protocol == htons e ip_proto_udp && is_local_ipv4 skb.ifa_list skb.daddr
          then (if skb.dest == htons e route_config_port then loaded else accepted)
          else accepted)
      else if has_type e skb eth_type_ipv6
      then (if skb.nexthdr == htons e ipv6_nexthdr_udp && is_local_ipv6 skb.ac_list skb.daddr6
          then (if skb.dest == htons e route_config_port then loaded else accepted)
          else accepted)
      else accepted

  unfoldable pub skb_recv_config : Device H → SkBuff → Option (Done H)
  skb_recv_config d skb = recv_at_config_port load_config d skb

  unfoldable pub skb_recv_capture : Device H → SkBuff → Option (Done H)
  skb_recv_capture d skb = recv_at_config_port load_capture d skb

  unfoldable pub skb_sendto_capture : Device H → SkBuff → Option Copy
  skb_sendto_capture d skb =
      Option.map
        (λ local_ip. record {
          payload = skb.contents;
          len = length skb.contents % 2 ^ 16;
          dest = htons e route_capture_port;
          source = htons e route_capture_port;
          ihl = 5;
          protocol = ip_proto_udp;
          daddr = d.capture.addr;
          saddr = local_ip;
          ttl = 0x40;
          tot_len = htons e (length skb.contents);
          h_dest = d.capture.mac;
          h_source = skb.dev_addr;
          h_proto = htons e eth_type_ipv4;
        })
        (get_local_ipv4 skb)

  -- The bytes of the buffer that is sent. The last `skb_put` asks for the `tot_len` of the fresh
  -- buffer less two headers, modulo 2 ^ 32, so that `tot_len` bytes are put in all, behind the 14 of
  -- the Ethernet header; `none` is the panic of `skb_put` where they do not fit.
  unfoldable pub put_size : (room : ℕ) → Option ℕ
  put_size room = if ltb room lib.unset_tot_len then none else some (14 + lib.unset_tot_len)

  -- The option in front of the payload: its code, the length 2, and where the segment was sent to.
  -- The copied length is `tot_len` without `ntohs`, less two headers; `none` also where it wraps.
  unfoldable pub skb_sendto_client : Config → SkBuff → Option Segment
  skb_sendto_client config skb =
      let payload =
        253
        ∷ 2
        ∷ (store16 e skb.dest
            ++ (store32 e skb.daddr ++ take (skb.tot_len - 40) skb.tcp_payload)) in
      let sent : Option Segment =
        Option.map
          (λ size. record {
            h_dest = skb.h_dest;
            h_source = skb.h_source;
            saddr = skb.saddr;
            daddr = config.server_v4;
            tot_len = htons e (ntohs e skb.tot_len + 8);
            source = skb.source;
            dest = config.server_port;
            tcp_payload = payload;
            size = size;
          })
          (put_size (lib.tailroom (length skb.contents + 8))) in
      if ltb skb.tot_len 40 then none else sent

  unfoldable pub skb_sendto_server : SkBuff → Option Segment
  skb_sendto_server skb =
      let sent : Option Segment =
        Option.map
          (λ size. record {
            h_dest = skb.h_dest;
            h_source = skb.h_source;
            saddr = load32 e skb.tcp_payload 4;
            daddr = skb.daddr;
            tot_len = htons e (ntohs e skb.tot_len + 2 ^ 16 - 8);
            source = load16 e skb.tcp_payload 2;
            dest = skb.dest;
            tcp_payload = take (skb.tot_len - 48) (drop 8 skb.tcp_payload);
            size = size;
          })
          (put_size (lib.tailroom (length skb.contents - 8))) in
      if ltb skb.tot_len 48 then none else sent

  unfoldable pub skb_recv_client : Device H → SkBuff → Option (Done H)
  skb_recv_client d skb =
      if proxies d.config && skb_is_tcp lib e skb
      then Option.map (λ s. record { verdict = nf_drop; device = d; sent = segment s ∷ [] })
          (skb_sendto_server skb)
      else some (record { verdict = nf_accept; device = d; sent = [] })

  unfoldable pub skb_recv_server : Device H → SkBuff → Option (Done H)
  skb_recv_server d skb =
      if proxies d.config && skb_is_tcp lib e skb
      then Option.map (λ s. record { verdict = nf_drop; device = d; sent = segment s ∷ [] })
          (skb_sendto_client d.config skb)
      else some (record { verdict = nf_accept; device = d; sent = [] })

  -- What the hook does with a packet of the proxy, or any other, once a copy is sent or not.
  unfoldable pub forward : Device H → SkBuff → List Sent → Option (Done H)
  forward d skb sent =
      let accepted : Option (Done H) =
        some (record { verdict = nf_accept; device = d; sent = sent }) in
      let also : Done H → Done H = λ done. record done { sent = sent ++ done.sent } in
      if d.config.proxy != 0
      then (if skb_is_client_to_server skb
          then Option.map also (skb_recv_client d skb)
          else if skb_is_server_to_client skb
          then Option.map also (skb_recv_server d skb)
          else accepted)
      else accepted

  -- The tests of `route_nf_handle` in their order.
  unfoldable pub route_nf_handle : Device H → SkBuff → Option (Done H)
  route_nf_handle d skb =
      if skb_is_dns lib e skb
      then skb_recv_dns d skb
      else if skb_is_config e skb
      then skb_recv_config d skb
      else if skb_is_set_capture e skb
      then skb_recv_capture d skb
      else if skb_is_get_capture lib e d skb
      then (skb_sendto_capture d skb >>= λ c. forward d skb (copy c ∷ []))
      else forward d skb []

  -- The globals after `route_init`.
  unfoldable pub route_init : Device H
  route_init = record {
    nat_map = lib.create_hash_map;
    hash_map = lib.create_hash_map;
    limit_map = lib.create_hash_map;
    config = zero_config;
    capture = zero_capture;
  }

  -- A history of packets, oldest first: the globals after it and all that was sent.
  unfoldable pub handle_all : Device H → List SkBuff → Option (Device H × List Sent)
  handle_all d [] = some (d, [])
  handle_all d (skb ∷ skbs) = elim (route_nf_handle d skb) [
    | none ↦ none
    | some done ↦
        Option.map (λ (r : Device H × List Sent). (r.0, done.sent ++ r.1))
          (handle_all done.device skbs)
  ]
