-- ===== src/Route/Device/Datagrams.antt =====
-- What the datagram handlers of route/main.c do with a packet.
use xsky.Base.{
  ℕ, ◌+◌, ◌%◌, ◌^◌, ◌≤◌, ◌<◌, ◌≡◌, ◌⊎◌, inl, inr, refl, List, [], ◌∷◌, ◌++◌, true, false, ◌&&◌,
  some, length, take, arith, dec_lt, Bool-cases,
}
use xsky.Base.Kernel.{Verdict, nf_drop, nf_accept}
use xsky.Route.Queue.{xsky_mtu, enqueue, push}
use xsky.Route.Queue.Ring.{IsValid}
use xsky.Route.Queue.Inv.{target-some, enqueue-IsValid}
use xsky.Route.Queue.Refine.{contents, contents-enqueue, length-contents}
use xsky.Route.Subnet.{is_subnet, same_bytes}
use xsky.Route.Device.{
  Globals, push_to_user, push_ipv4_packet_to_user, push_ipv6_packet_to_user, handle_ipv4_dgram_in,
  handle_ipv6_dgram_in, ip_tot_len, ip_saddr, ip_daddr, ip6_payload_len, ip6_saddr, ip6_daddr,
}

-- The packet leaves the network and stands last in the queue; the reader is woken.
pub record Intercepts (g : Globals) (packet : List ℕ) (r : Verdict × Globals) : Type 0 where
  pub verdict : r.0 ≡ nf_drop
  pub queue : IsValid r.1.r_queue
  pub capacity : r.1.r_queue.size ≡ g.r_queue.size
  pub stored : contents r.1.r_queue ≡ contents g.r_queue ++ packet ∷ []
  pub woken : r.1.wakeups ≡ g.wakeups + 1
  pub frame : r.1 ≡ record g { r_queue = r.1.r_queue; wakeups = g.wakeups + 1 }

-- The queue has a free buffer, and the packet fits it.
abbrev pub HasRoom : Globals → ℕ → Type 0
HasRoom g size = (size ≤ xsky_mtu) × (length (contents g.r_queue) < g.r_queue.size)

-- Either the packet is taken and there was room, or it goes on its way and nothing changes.
abbrev pub Outcome : Globals → List ℕ → ℕ → Verdict × Globals → Type 0
Outcome g packet size r =
    (Intercepts g (take size packet) r × HasRoom g size) ⊎ ((r ≡ (nf_accept, g)) × ¬ HasRoom g size)

push_to_user_lem :
    (g : Globals) (packet : List ℕ) (size : ℕ)
    → IsValid g.r_queue
    → size ≤ length packet
    → (r : Verdict × Globals) × (push_to_user g packet size ≡ some r) × Outcome g packet size r
unfolding push_to_user push
push_to_user_lem g packet size v p = elim (dec_lt xsky_mtu size) [
  | yes big ↦ ((nf_accept, g), ground arith, inr (refl, λ h. omega (arith, h.0)))
  | no small ↦ elim (dec_lt g.r_queue.have g.r_queue.size) [
    | no none_free ↦ (
      (nf_accept, g),
      ground (arith, v.within),
      inr (refl, λ h. omega (arith, h.1, length-contents v)),
    )
    | yes free ↦
        let (tmp, e) = target-some v in
        (
          (
            nf_drop,
            record g { r_queue = enqueue g.r_queue packet size tmp; wakeups = g.wakeups + 1 },
          ),
          ground (arith, e),
          inl (
            (record {
              verdict = refl;
              queue = enqueue-IsValid v packet size tmp (omega arith) p free e;
              capacity = refl;
              stored = contents-enqueue v packet size tmp p free e;
              woken = refl;
              frame = refl;
            }),
            (omega arith, omega (arith, length-contents v)),
          ),
        )
  ]
]

-- The packets that `handle_ipv4_dgram_in` and `handle_ipv6_dgram_in` want: not sent to the tunnel,
-- and from the subnet.
abbrev pub Wanted4 : Globals → List ℕ → List ℕ → Type 0
Wanted4 g buf ip =
    ¬ ((g.is_set_tunnel_addr ≡ true) × (same_bytes 4 g.tunnel_addr (ip_daddr ip) ≡ true))
    × (is_subnet buf g.subnet (ip_saddr ip) false ≡ true)

abbrev pub Wanted6 : Globals → List ℕ → List ℕ → Type 0
Wanted6 g buf ip =
    ¬ ((g.is_set_tunnel_addr6 ≡ true) × (same_bytes 16 g.tunnel_addr6 (ip6_daddr ip) ≡ true))
    × (is_subnet buf g.subnet6 (ip6_saddr ip) true ≡ true)

abbrev pub size4 : List ℕ → ℕ
size4 ip = ip_tot_len ip

-- The length that the module computes for an IPv6 packet, in 16 bits.
abbrev pub size6 : List ℕ → ℕ
size6 ip = (ip6_payload_len ip + 40) % 2 ^ 16

pub handle_ipv4_dgram_in_lem :
    (g : Globals) (buf ip : List ℕ)
    → IsValid g.r_queue
    → size4 ip ≤ length ip
    → (r : Verdict × Globals) × (handle_ipv4_dgram_in g buf ip ≡ some r)
      × ((Wanted4 g buf ip × Outcome g ip (size4 ip) r)
          ⊎ (¬ Wanted4 g buf ip × (r ≡ (nf_accept, g))))
unfolding handle_ipv4_dgram_in push_ipv4_packet_to_user
handle_ipv4_dgram_in_lem g buf ip v p =
    elim (Bool-cases (g.is_set_tunnel_addr && same_bytes 4 g.tunnel_addr (ip_daddr ip))) [
      | inl e ↦ ((nf_accept, g), ground arith, inr ((λ w. w.0 (ground arith)), refl))
      | inr ne ↦ elim (Bool-cases (is_subnet buf g.subnet (ip_saddr ip) false)) [
        | inr out ↦ ((nf_accept, g), ground arith, inr ((λ w. cc), refl))
        | inl inside ↦
            let (r, e, o) = push_to_user_lem g ip (size4 ip) v p in
            (r, ground (arith, e), inl (((λ h. ground arith), inside), o))
      ]
    ]

pub handle_ipv6_dgram_in_lem :
    (g : Globals) (buf ip : List ℕ)
    → IsValid g.r_queue
    → size6 ip ≤ length ip
    → (r : Verdict × Globals) × (handle_ipv6_dgram_in g buf ip ≡ some r)
      × ((Wanted6 g buf ip × Outcome g ip (size6 ip) r)
          ⊎ (¬ Wanted6 g buf ip × (r ≡ (nf_accept, g))))
unfolding handle_ipv6_dgram_in push_ipv6_packet_to_user
handle_ipv6_dgram_in_lem g buf ip v p =
    elim (Bool-cases (g.is_set_tunnel_addr6 && same_bytes 16 g.tunnel_addr6 (ip6_daddr ip))) [
      | inl e ↦ ((nf_accept, g), ground arith, inr ((λ w. w.0 (ground arith)), refl))
      | inr ne ↦ elim (Bool-cases (is_subnet buf g.subnet6 (ip6_saddr ip) true)) [
        | inr out ↦ ((nf_accept, g), ground arith, inr ((λ w. cc), refl))
        | inl inside ↦
            let (r, e, o) = push_to_user_lem g ip (size6 ip) v p in
            (r, ground (arith, e), inl (((λ h. ground arith), inside), o))
      ]
    ]
