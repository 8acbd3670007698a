-- ===== src/Route/Device/Hook.antt =====
-- `nf_handle_in`, the netfilter hook of route/main.c, on every branch.
use xsky.Base.{
  ℕ, ◌≤◌, ◌≡◌, ◌≢◌, ◌⊎◌, ◌↔◌, inl, inr, refl, sym, ap, subst, ◌∙◌, List, true, none, some, length,
  take, arith, ℕ_discrete, some_inj, Bool-cases, Option-cases,
}
use xsky.Base.Kernel.{Verdict, nf_accept}
use xsky.Route.Queue.Ring.{IsValid}
use xsky.Route.Device.{
  Globals, SkBuff, ipv6_hdr, nf_handle_in, is_datagram, ip_version, ip_protocol, ip6_nexthdr,
}
use xsky.Route.Device.Datagrams.{
  Intercepts, HasRoom, Wanted4, Wanted6, size4, size6, handle_ipv4_dgram_in_lem,
  handle_ipv6_dgram_in_lem,
}

abbrev pub IsDatagram : ℕ → Type 0
IsDatagram proto = (proto ≡ 17) ⊎ (proto ≡ 136)

-- The device is open, and `packet` is the datagram that the module wants, of `size` bytes.
abbrev pub Selects : Globals → List ℕ → SkBuff → List ℕ → ℕ → Type 0
Selects g buf skb packet size =
    (g.flock_flag ≡ true)
    × (((skb.network_header ≡ some packet)
          × (ip_version packet ≡ 4)
          × IsDatagram (ip_protocol packet)
          × Wanted4 g buf packet
          × (size ≡ size4 packet))
        ⊎ ((ip : List ℕ) × (skb.network_header ≡ some ip)
            × (ip_version ip ≢ 4)
            × (ipv6_hdr skb ≡ some packet)
            × IsDatagram (ip6_nexthdr packet)
            × Wanted6 g buf packet
            × (size ≡ size6 packet)))

-- What happens to a packet, exactly: a wanted one for which there is room is taken, and any other
-- goes on its way with nothing changed.
abbrev pub Handled : Globals → List ℕ → SkBuff → Verdict × Globals → Type 0
Handled g buf skb r =
    ((packet : List ℕ) × (size : ℕ) × Selects g buf skb packet size
      × HasRoom g size
      × Intercepts g (take size packet) r)
    ⊎ ((r ≡ (nf_accept, g))
        × ((packet : List ℕ) (size : ℕ) → Selects g buf skb packet size → ¬ HasRoom g size))

is_datagram_lem : (n : ℕ) → (is_datagram n ≡ true) ↔ IsDatagram n
is_datagram_lem n = ground arith

module _ (g : Globals) (buf : List ℕ) (skb : SkBuff) (packet ip : List ℕ) (size : ℕ)
    (s : Selects g buf skb packet size) where
  Selects_of_four :
      skb.network_header ≡ some ip
      → ip_version ip ≡ 4
      → IsDatagram (ip_protocol ip) × Wanted4 g buf ip × (size ≡ size4 ip)
  Selects_of_four e four = elim s.1 [
    | inl (e', ver, dg, w, sz) ↦
        subst (λ (p : List ℕ). IsDatagram (ip_protocol p) × Wanted4 g buf p × (size ≡ size4 p))
          (some_inj (sym e' ∙ e)) (dg, w, sz)
    | inr (ip', e', ver, rest, _, _, _) ↦
        absurd (ver (ap (λ (p : List ℕ). ip_version p) (some_inj (sym e' ∙ e)) ∙ four))
  ]

  Selects_of_six :
      (net : List ℕ)
      → skb.network_header ≡ some net
      → ip_version net ≢ 4
      → ipv6_hdr skb ≡ some ip
      → IsDatagram (ip6_nexthdr ip) × Wanted6 g buf ip × (size ≡ size6 ip)
  Selects_of_six net e six h = elim s.1 [
    | inl (e', ver, dg, w, sz) ↦
        absurd (six (ap (λ (p : List ℕ). ip_version p) (some_inj (sym e ∙ e')) ∙ ver))
    | inr (ip', e', ver, h', dg, w, sz) ↦
        subst (λ (p : List ℕ). IsDatagram (ip6_nexthdr p) × Wanted6 g buf p × (size ≡ size6 p))
          (some_inj (sym h' ∙ h)) (dg, w, sz)
  ]

module _ (g : Globals) (buf : List ℕ) (skb : SkBuff) (v : IsValid g.r_queue)
    (held : g.flock_flag ≡ true) where
  handled4 :
      (ip : List ℕ)
      → skb.network_header ≡ some ip
      → ip_version ip ≡ 4
      → size4 ip ≤ length ip
      → (r : Verdict × Globals) × (nf_handle_in g buf (some skb) ≡ some r) × Handled g buf skb r
  unfolding nf_handle_in
  handled4 ip e ver p = elim (Bool-cases (is_datagram (ip_protocol ip))) [
    | inr other ↦ (
      (nf_accept, g),
      ground (arith, e, ver, other, held),
      inr (
        refl,
        λ packet size s _.
            let d =
              (is_datagram_lem (ip_protocol ip)).1
                (Selects_of_four g buf skb packet ip size s e ver).0 in
            cc,
      ),
    )
    | inl udp ↦
        let (r, run, out) = handle_ipv4_dgram_in_lem g buf ip v p in
        (
          r,
          ground (arith, e, ver, udp, held, run),
          elim out [
            | inl (w, inl (taken, room)) ↦ inl (
              ip,
              size4 ip,
              (held, inl (e, ver, (is_datagram_lem _).0 udp, w, refl)),
              room,
              taken,
            )
            | inl (w, inr (same, full_)) ↦ inr (
              same,
              λ packet size s room. full_ (
                  subst (λ (k : ℕ). HasRoom g k)
                    (Selects_of_four g buf skb packet ip size s e ver).2 room),
            )
            | inr (not_wanted, same) ↦ inr (
              same,
              λ packet size s _. not_wanted (Selects_of_four g buf skb packet ip size s e ver).1,
            )
          ],
        )
  ]

  handled6 :
      (net ip : List ℕ)
      → skb.network_header ≡ some net
      → ip_version net ≢ 4
      → ipv6_hdr skb ≡ some ip
      → size6 ip ≤ length ip
      → (r : Verdict × Globals) × (nf_handle_in g buf (some skb) ≡ some r) × Handled g buf skb r
  unfolding nf_handle_in
  handled6 net ip e ver h p = elim (Bool-cases (is_datagram (ip6_nexthdr ip))) [
    | inr other ↦ (
      (nf_accept, g),
      ground (arith, e, ver, h, other, held),
      inr (
        refl,
        λ packet size s _.
            let d =
              (is_datagram_lem (ip6_nexthdr ip)).1
                (Selects_of_six g buf skb packet ip size s net e ver h).0 in
            cc,
      ),
    )
    | inl udp ↦
        let (r, run, out) = handle_ipv6_dgram_in_lem g buf ip v p in
        (
          r,
          ground (arith, e, ver, h, udp, held, run),
          elim out [
            | inl (w, inl (taken, room)) ↦ inl (
              ip,
              size6 ip,
              (held, inr (net, e, ver, h, (is_datagram_lem _).0 udp, w, refl)),
              room,
              taken,
            )
            | inl (w, inr (same, full_)) ↦ inr (
              same,
              λ packet size s room. full_ (
                  subst (λ (k : ℕ). HasRoom g k)
                    (Selects_of_six g buf skb packet ip size s net e ver h).2 room),
            )
            | inr (not_wanted, same) ↦ inr (
              same,
              λ packet size s _.
                  not_wanted (Selects_of_six g buf skb packet ip size s net e ver h).1,
            )
          ],
        )
  ]

-- A socket buffer holds as many bytes as the header of its version states.
abbrev pub HoldsLength : SkBuff → Type 0
HoldsLength skb =
    ((ip : List ℕ) → skb.network_header ≡ some ip → ip_version ip ≡ 4 → size4 ip ≤ length ip)
    × ((ip : List ℕ) → skb.network_header ≡ some ip → ip_version ip ≢ 4 → size6 ip ≤ length ip)

-- For a valid queue and a socket buffer that holds its bytes the hook returns. It takes exactly the
-- datagrams that the open device selects and the queue has room for: those are dropped from the
-- network, stored last in the queue with the length that their header states, and the reader is
-- woken. Every other packet is accepted, and nothing changes.
pub nf_handle_in_lem :
    (g : Globals) (buf : List ℕ) (skb : SkBuff)
    → IsValid g.r_queue
    → HoldsLength skb
    → (r : Verdict × Globals) × (nf_handle_in g buf (some skb) ≡ some r) × Handled g buf skb r
unfolding nf_handle_in
nf_handle_in_lem g buf skb v holds = elim (Bool-cases g.flock_flag) [
  | inr shut ↦ ((nf_accept, g), ground (arith, shut), inr (refl, λ packet size s _. cc (s.0)))
  | inl held ↦ elim (Option-cases skb.network_header) [
    | inl e ↦ (
      (nf_accept, g),
      ground (arith, held, e),
      inr (refl, λ packet size s _. no_header packet size s e),
    )
    | inr (net, e) ↦ elim (ℕ_discrete (ip_version net) 4) [
      | yes four ↦ handled4 g buf skb v held net e four (holds.0 net e four)
      | no six ↦ elim (Option-cases (ipv6_hdr skb)) [
        | inl h ↦ (
          (nf_accept, g),
          ground (arith, held, e, six, h),
          inr (refl, λ packet size s _. no_six packet size s net e six h),
        )
        | inr (ip, h) ↦
            handled6 g buf skb v held net ip e six h
              (holds.1 ip h (subst (λ (p : List ℕ). ip_version p ≢ 4) (some_inj (sym e ∙ h)) six))
      ]
    ]
  ]
]
  where
    no_header :
        (packet : List ℕ) (size : ℕ) → Selects g buf skb packet size → skb.network_header ≡ none → ⊥
    no_header packet size s e = elim s.1 [
      | inl (e', _, _, _, _) ↦ cc
      | inr (_, e', _, _, _, _, _) ↦ cc
    ]

    no_six :
        (packet : List ℕ) (size : ℕ)
        → Selects g buf skb packet size
        → (net : List ℕ) → skb.network_header ≡ some net
        → ip_version net ≢ 4
        → ipv6_hdr skb ≡ none
        → ⊥
    no_six packet size s net e six h = elim s.1 [
      | inl (e', ver, _, _, _) ↦
          six (ap (λ (p : List ℕ). ip_version p) (some_inj (sym e ∙ e')) ∙ ver)
      | inr (_, _, _, h', _, _, _) ↦ cc
    ]
