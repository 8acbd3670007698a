-- ===== src/Gateway/Classify.antt =====
-- server/main.c: the functions that tell what a packet is, from `skb_is_ip` to
-- `skb_is_server_to_client`.
use xsky.Base.{
  ℕ, List, [], ◌∷◌, Bool, true, false, not, ◌&&◌, ◌||◌, byte_at, ◌==◌, ◌!=◌, if◌then◌else◌, Endian,
  htons, ntohs,
}
use xsky.Common.{
  eth_type_arp, eth_type_ipv4, eth_type_ipv6, ip_proto_tcp, ip_proto_udp, ipv6_nexthdr_udp,
  dns_fixed_port, http_fixed_port, https_fixed_port, route_config_port, route_capture_port,
  route_url,
}
use xsky.Gateway.Packet.{SkBuff, Capture, Library, Device}

-- The loop of `is_local_ipv4` over the addresses of the device.
unfoldable pub is_local_ipv4 : List ℕ → ℕ → Bool
is_local_ipv4 [] addr = false
is_local_ipv4 (a ∷ rest) addr = a == addr || is_local_ipv4 rest addr

-- The same for IPv6, by the four words of an address.
unfoldable pub is_local_ipv6 : List (List ℕ) → List ℕ → Bool
is_local_ipv6 [] addr = false
is_local_ipv6 (a ∷ rest) addr =
    (byte_at a 0 == byte_at addr 0
      && byte_at a 1 == byte_at addr 1
      && byte_at a 2 == byte_at addr 2
      && byte_at a 3 == byte_at addr 3)
    || is_local_ipv6 rest addr

-- `eth->h_proto == htons( type )`
abbrev pub has_type : Endian → SkBuff → ℕ → Bool
has_type e skb type = skb.h_proto == htons e type

unfoldable pub skb_is_ip : Endian → SkBuff → Bool
skb_is_ip e skb = has_type e skb eth_type_ipv4 || has_type e skb eth_type_ipv6

unfoldable pub skb_is_ipv4 : Endian → SkBuff → Bool
skb_is_ipv4 e skb = has_type e skb eth_type_ipv4

unfoldable pub skb_is_ipv6 : Endian → SkBuff → Bool
skb_is_ipv6 e skb = has_type e skb eth_type_ipv6

-- `protocol` and `nexthdr` are bytes; the code compares them with words of `htons`.
unfoldable pub skb_is_udp : Endian → SkBuff → Bool
skb_is_udp e skb =
    if has_type e skb eth_type_ipv4
    then skb.protocol == htons e ip_proto_udp
    else if has_type e skb eth_type_ipv6
    then skb.nexthdr == htons e ipv6_nexthdr_udp
    else false

-- The shape that `skb_is_config` and `skb_is_set_capture` share: a datagram to an address of the
-- device, at the given port.
unfoldable pub is_local_datagram : Endian → SkBuff → ℕ → Bool
is_local_datagram e skb port =
    if has_type e skb eth_type_ipv4
    then (if skb.protocol == htons e ip_proto_udp && is_local_ipv4 skb.ifa_list skb.daddr
        then skb.dest == htons e port
        else false)
    else if has_type e skb eth_type_ipv6
    then (if skb.nexthdr == htons e ipv6_nexthdr_udp && is_local_ipv6 skb.ac_list skb.daddr6
        then skb.dest == htons e port
        else false)
    else false

unfoldable pub skb_is_config : Endian → SkBuff → Bool
skb_is_config e skb = is_local_datagram e skb route_config_port

unfoldable pub skb_is_set_capture : Endian → SkBuff → Bool
skb_is_set_capture e skb = is_local_datagram e skb route_capture_port

abbrev pub skb_is_client_to_server : SkBuff → Bool
skb_is_client_to_server skb = false

abbrev pub skb_is_server_to_client : SkBuff → Bool
skb_is_server_to_client skb = false

-- One of the two ports of the packet is the given one.
abbrev uses_port : Endian → SkBuff → ℕ → Bool
uses_port e skb port = skb.dest == htons e port || skb.source == htons e port

-- The chain of tests on the protocol number that `skb_is_get_capture` makes for either version,
-- with the numbers of ICMP, TCP and UDP in host order.
unfoldable pub captures_protocol : Endian → Capture → SkBuff → (number icmp tcp udp : ℕ) → Bool
captures_protocol e c skb number icmp tcp udp =
    if c.ip != 0
    then true
    else if number == htons e icmp
    then c.icmp != 0
    else if number == htons e tcp
    then (if c.tcp != 0
        then true
        else if c.http != 0 && uses_port e skb http_fixed_port
        then true
        else c.https != 0 && uses_port e skb https_fixed_port)
    else if number == htons e udp
    then (if c.udp != 0 then true else c.dns != 0 && uses_port e skb dns_fixed_port)
    else false

module _ {H : Type 0} (lib : Library H) (e : Endian) where
  unfoldable pub skb_is_tcp : SkBuff → Bool
  skb_is_tcp skb =
      if has_type e skb eth_type_ipv4
      then skb.protocol == htons e ip_proto_tcp
      else if has_type e skb eth_type_ipv6
      then skb.nexthdr == htons e lib.ipv6_nexthdr_tcp
      else false

  -- A query for the gateway's own name; the search runs over as many bytes as `len` says.
  unfoldable pub skb_is_dns : SkBuff → Bool
  skb_is_dns skb =
      if skb_is_udp e skb
      then (if skb.dest == htons e dns_fixed_port
          then lib.strnstr skb.payload route_url (ntohs e skb.len)
          else false)
      else false

  unfoldable pub skb_is_get_capture : Device H → SkBuff → Bool
  skb_is_get_capture d skb =
      let c = d.capture in
      if has_type e skb eth_type_arp
      then c.arp != 0
      else if has_type e skb eth_type_ipv4
      then (if not (is_local_ipv4 skb.ifa_list skb.saddr)
          then captures_protocol e c skb skb.protocol lib.ip_proto_icmp ip_proto_tcp ip_proto_udp
          else false)
      else if has_type e skb eth_type_ipv6
      then (if not (is_local_ipv6 skb.ac_list skb.saddr6)
          then captures_protocol e c skb skb.nexthdr lib.ipv6_nexthdr_icmp lib.ipv6_nexthdr_tcp
              ipv6_nexthdr_udp
          else false)
      else false
