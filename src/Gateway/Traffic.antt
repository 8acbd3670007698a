-- ===== src/Gateway/Traffic.antt =====
-- server/main.c: what any sequence of packets does to the module after `route_init`.
use xsky.Base.{
  ℕ, List, [], ◌∷◌, true, false, All, none, some, ◌≢◌, arith, ◌≡◌, refl, ap₂, if◌then◌else◌, Endian,
  little, IsByte, ◌∙◌, Bool-cases, Option-cases, inl, inr,
}
use xsky.Base.Kernel.{nf_drop, nf_accept, nf_queue}
use xsky.Gateway.Packet.{SkBuff, zero_capture, zero_config, Config, Library, Device}
use xsky.Gateway.Classify.{is_local_datagram, skb_is_config, skb_is_udp, skb_is_dns}
use xsky.Gateway.Handle.{
  Sent, reply, get_local_ipv4, dns_reply, skb_recv_dns, route_nf_handle, route_init, handle_all,
}
use xsky.Gateway.Capture.{config_fits, route_nf_handle_lem, skb_recv_config_lem}

module _ {H : Type 0} (lib : Library H) (e : Endian) where
  -- The answers to the DNS queries for the gateway among the packets.
  unfoldable pub replies : List SkBuff → List Sent
  replies [] = []
  replies (skb ∷ skbs) =
      let rest = replies skbs in
      if skb_is_dns lib e skb
      then elim (get_local_ipv4 skb) [
        | none ↦ rest
        | some local_ip ↦ reply (dns_reply e local_ip skb) ∷ rest
      ]
      else rest

  -- The configuration of the last packet that sets one, and `c` where none does.
  unfoldable pub last_config : Config → List SkBuff → Config
  last_config c [] = c
  last_config c (skb ∷ skbs) =
      let other = last_config c skbs in
      let this = last_config (lib.config_info skb.payload) skbs in
      if skb_is_dns lib e skb then other else if skb_is_config e skb then this else other

  -- What is known of the globals at any time: `c` is the configuration.
  abbrev pub configured : Config → Device H
  configured c = record {
    nat_map = lib.create_hash_map;
    hash_map = lib.create_hash_map;
    limit_map = lib.create_hash_map;
    config = c;
    capture = zero_capture;
  }

  -- The packet does not crash the code: a query arrives at a device with an address, and the texts
  -- of a configuration fit.
  abbrev pub IsServed : SkBuff → Type 0
  IsServed skb =
      (skb_is_dns lib e skb ≡ true → get_local_ipv4 skb ≢ none)
      × (skb_is_dns lib e skb ≡ false
          → skb_is_config e skb ≡ true
          → config_fits lib e skb.payload ≡ true)

  configured_dns :
      (c : Config) (skb : SkBuff) (local_ip : ℕ)
      → skb_is_dns lib e skb ≡ true
      → get_local_ipv4 skb ≡ some local_ip
      → route_nf_handle lib e (configured c) skb
        ≡ some (record {
          verdict = nf_queue;
          device = configured c;
          sent = reply (dns_reply e local_ip skb) ∷ [];
        })
  unfolding skb_recv_dns
  configured_dns c skb local_ip dns addr =
      ground (arith, route_nf_handle_lem lib e (configured c) skb refl, dns, addr)

  configured_config :
      (c : Config) (skb : SkBuff)
      → IsServed skb
      → skb_is_dns lib e skb ≡ false
      → skb_is_config e skb ≡ true
      → route_nf_handle lib e (configured c) skb
        ≡ some (record {
          verdict = nf_drop;
          device = configured (lib.config_info skb.payload);
          sent = [];
        })
  configured_config c skb served dns config = ground (
    arith,
    route_nf_handle_lem lib e (configured c) skb refl,
    dns,
    config,
    skb_recv_config_lem lib e (configured c) skb config (served.1 dns config),
  )

  configured_other :
      (c : Config) (skb : SkBuff)
      → skb_is_dns lib e skb ≡ false
      → skb_is_config e skb ≡ false
      → route_nf_handle lib e (configured c) skb
        ≡ some (record { verdict = nf_accept; device = configured c; sent = [] })
  configured_other c skb dns config =
      ground (arith, route_nf_handle_lem lib e (configured c) skb refl, dns, config)

  configured_run :
      (c : Config) (skbs : List SkBuff)
      → All IsServed skbs
      → handle_all lib e (configured c) skbs ≡ some (configured (last_config c skbs), replies skbs)
  unfolding handle_all last_config replies
  configured_run c [] h = refl
  configured_run c (skb ∷ skbs) (h, hs) = elim (Bool-cases (skb_is_dns lib e skb)) [
    | inl dns ↦ elim (Option-cases (get_local_ipv4 skb)) [
      | inl missing ↦ absurd (h.0 dns missing)
      | inr (ip, addr) ↦
          ground (arith, configured_dns c skb ip dns addr, configured_run c skbs hs, dns, addr)
    ]
    | inr dns ↦ elim (Bool-cases (skb_is_config e skb)) [
      | inl config ↦ ground (
        arith,
        configured_config c skb h dns config,
        configured_run (lib.config_info skb.payload) skbs hs,
      )
      | inr config ↦ ground (arith, configured_other c skb dns config, configured_run c skbs hs)
    ]
  ]

  pub handle_all-route_init :
      (skbs : List SkBuff)
      → All IsServed skbs
      → handle_all lib e (route_init lib e) skbs
        ≡ some (configured (last_config zero_config skbs), replies skbs)
  unfolding route_init
  handle_all-route_init skbs h = configured_run zero_config skbs h

-- The bytes of the packet that the code compares with words.
abbrev pub HasBytes : SkBuff → Type 0
HasBytes skb = IsByte skb.protocol × IsByte skb.nexthdr

module _ {H : Type 0} (lib : Library H) where
  -- On a little-endian host no packet is taken for UDP, since the code compares the byte of the
  -- protocol with a swapped word.
  skb_is_udp-little : (skb : SkBuff) → HasBytes skb → skb_is_udp little skb ≡ false
  unfolding skb_is_udp
  skb_is_udp-little skb h = ground (arith, h.0, h.1)

  nothing-little :
      (skb : SkBuff)
      → HasBytes skb
      → (skb_is_dns lib little skb ≡ false) × (skb_is_config little skb ≡ false)
  unfolding skb_is_dns skb_is_config is_local_datagram
  nothing-little skb h = (ground (arith, skb_is_udp-little skb h), ground (arith, h.0, h.1))

  silent-little :
      (c : Config) (skbs : List SkBuff)
      → All HasBytes skbs
      → (last_config lib little c skbs ≡ c) × (replies lib little skbs ≡ [])
  unfolding last_config replies
  silent-little c [] h = (refl, refl)
  silent-little c (skb ∷ skbs) (h, hs) =
      let (dns, config) = nothing-little skb h in
      let (last, silent) = silent-little c skbs hs in
      (ground (arith, dns, config, last), ground (arith, dns, silent))

  IsServed-little : (skbs : List SkBuff) → All HasBytes skbs → All (IsServed lib little) skbs
  IsServed-little [] h = tt
  IsServed-little (skb ∷ skbs) (h, hs) =
      let (dns, config) = nothing-little skb h in
      ((λ is. ground (arith, dns, is), λ _ is. ground (arith, config, is)), IsServed-little skbs hs)

  -- On a little-endian host the module does nothing: whatever packets arrive after `route_init`,
  -- its globals stay as they are and it sends nothing.
  pub handle_all-little :
      (skbs : List SkBuff)
      → All HasBytes skbs
      → handle_all lib little (route_init lib little) skbs ≡ some (route_init lib little, [])
  unfolding route_init
  handle_all-little skbs h =
      let (last, silent) = silent-little zero_config skbs h in
      handle_all-route_init lib little skbs (IsServed-little skbs h)
      ∙ ap₂ (λ (c : Config) (s : List Sent). some (configured lib little c, s)) last silent
