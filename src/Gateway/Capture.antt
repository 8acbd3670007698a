-- ===== src/Gateway/Capture.antt =====
-- server/main.c: the capture settings, and the hosts on which nothing of the module runs.
use xsky.Base.{
  ℕ, zero, suc, ◌*◌, List, [], Bool, true, false, arith, ◌≡◌, ◌≢◌, ap, if◌then◌else◌, Endian, none,
  some, ltb, take, drop,
}
use xsky.Base.Kernel.{nf_drop, nf_accept}
use xsky.Common.{ip_proto_tcp, ip_proto_udp, ipv6_nexthdr_udp}
use xsky.Gateway.Packet.{SkBuff, zero_capture, Capture, Library, Device}
use xsky.Gateway.Classify.{
  is_local_datagram, skb_is_config, skb_is_set_capture, skb_is_dns, skb_is_get_capture,
  captures_protocol,
}
use xsky.Gateway.Handle.{
  Done, load_macs, load_domains, load_config, recv_at_config_port, skb_recv_dns, skb_recv_config,
  skb_recv_capture, route_nf_handle, forward,
}

module _ {H : Type 0} (lib : Library H) (e : Endian) where
  -- A packet that is taken for one that sets the capture is let through, and sets nothing.
  skb_recv_capture_lem :
      (d : Device H) (skb : SkBuff)
      → skb_is_set_capture e skb ≡ true
      → skb_recv_capture lib e d skb ≡ some (record { verdict = nf_accept; device = d; sent = [] })
  unfolding skb_recv_capture recv_at_config_port skb_is_set_capture is_local_datagram
  skb_recv_capture_lem d skb h = ground arith

  -- The text of each of the `k` domains fits the 255 bytes that the code copies it to.
  unfoldable pub domains_fit : (k : ℕ) → List ℕ → Bool
  domains_fit zero bytes = true
  domains_fit (suc k) bytes =
      let rest = domains_fit k (drop lib.sizeof_domain_info bytes) in
      if ltb 255 (lib.domain_info_strlen bytes) then false else rest

  unfoldable pub config_fits : List ℕ → Bool
  config_fits bytes =
      let config = lib.config_info bytes in
      domains_fit config.domains
        (drop (lib.sizeof_mac_info * config.macs) (drop lib.sizeof_config_info bytes))

  load_domains_lem :
      (k : ℕ) (bytes : List ℕ) (map : H)
      → domains_fit k bytes ≡ true
      → load_domains lib e k bytes map ≢ none
  unfolding load_domains domains_fit
  load_domains_lem zero bytes map h = ground arith
  load_domains_lem (suc k) bytes map h =
      let url = drop lib.sizeof_domain_info bytes in
      let size = lib.domain_info_strlen bytes in
      ground (
        arith,
        load_domains_lem k url
            (lib.insert_hash_map map (take size url) (lib.domain_info_type bytes)),
      )

  load_config_lem :
      (d : Device H) (bytes : List ℕ)
      → config_fits bytes ≡ true
      → load_config lib e d bytes
        ≡ some (record d { config = lib.config_info bytes; limit_map = lib.create_hash_map })
  unfolding load_config config_fits
  load_config_lem d bytes h =
      let config = lib.config_info bytes in
      let behind = drop lib.sizeof_config_info bytes in
      let domains = drop (lib.sizeof_mac_info * config.macs) behind in
      let map = load_macs lib e config.macs behind d.limit_map in
      ground (arith, load_domains_lem config.domains domains map h)

  -- A packet that is taken for a configuration is dropped, and sets the configuration; the map of
  -- limits is empty after it.
  pub skb_recv_config_lem :
      (d : Device H) (skb : SkBuff)
      → skb_is_config e skb ≡ true
      → config_fits skb.payload ≡ true
      → skb_recv_config lib e d skb
        ≡ some (record {
          verdict = nf_drop;
          device = record d {
            config = lib.config_info skb.payload;
            limit_map = lib.create_hash_map;
          };
          sent = [];
        })
  unfolding skb_recv_config recv_at_config_port skb_is_config is_local_datagram
  skb_recv_config_lem d skb h fits = ground (arith, load_config_lem d skb.payload fits)

  captures_nothing :
      (c : Capture) (skb : SkBuff) (n i t u : ℕ)
      → c ≡ zero_capture
      → captures_protocol e c skb n i t u ≡ false
  unfolding captures_protocol
  captures_nothing c skb n i t u h = ground (
    arith,
    ap (λ (c : Capture). c.ip) h,
    ap (λ (c : Capture). c.icmp) h,
    ap (λ (c : Capture). c.tcp) h,
    ap (λ (c : Capture). c.http) h,
    ap (λ (c : Capture). c.https) h,
    ap (λ (c : Capture). c.udp) h,
    ap (λ (c : Capture). c.dns) h,
  )

  skb_is_get_capture-zero :
      (d : Device H) (skb : SkBuff)
      → d.capture ≡ zero_capture
      → skb_is_get_capture lib e d skb ≡ false
  unfolding skb_is_get_capture
  skb_is_get_capture-zero d skb h = ground (
    arith,
    captures_nothing d.capture skb skb.protocol lib.ip_proto_icmp ip_proto_tcp ip_proto_udp h,
    captures_nothing d.capture skb skb.nexthdr lib.ipv6_nexthdr_icmp lib.ipv6_nexthdr_tcp
        ipv6_nexthdr_udp h,
    ap (λ (c : Capture). c.arp) h,
  )

  abbrev accepted : Device H → Done H
  accepted d = record { verdict = nf_accept; device = d; sent = [] }

  forward_lem : (d : Device H) (skb : SkBuff) → forward lib e d skb [] ≡ some (accepted d)
  unfolding forward
  forward_lem d skb = ground arith

  -- With settings that capture nothing, the hook answers DNS queries for the gateway, takes
  -- configurations, and accepts every other packet; it sends no copy.
  pub route_nf_handle_lem :
      (d : Device H) (skb : SkBuff)
      → d.capture ≡ zero_capture
      → route_nf_handle lib e d skb ≡ (
          if skb_is_dns lib e skb
          then skb_recv_dns lib e d skb
          else if skb_is_config e skb
          then skb_recv_config lib e d skb
          else some (accepted d))
  unfolding route_nf_handle
  route_nf_handle_lem d skb h =
      rw (skb_is_get_capture-zero d skb h) ground
        (arith, skb_recv_capture_lem d skb, forward_lem d skb)
