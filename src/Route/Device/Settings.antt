-- ===== src/Route/Device/Settings.antt =====
-- The requests of `chr_ioctl` in route/main.c: what each setting does, and what is refused.
use xsky.Base.{
  ℕ, ◌*◌, ◌≤◌, ◌≡◌, ◌↔◌, ◌⊎◌, inl, inr, refl, List, Bool, true, false, not, none, some, replicate,
  All, IsByte, take-All, drop-All, if◌then◌else◌, arith, dec_lt,
}
use xsky.Base.Kernel.{einval}
use xsky.Route.Subnet.{XskySubnet, alen, is_subnet}
use xsky.Route.Subnet.Prefix.{AgreesOn, subnet_of, is_subnet_lem}
use xsky.Route.Device.{
  Globals, Ioctl, foreign, unknown, set_subnet, set_tunnel_ip, ok, err, chr_ioctl,
  set_udp_proxy_subnet, set_tunnel, zero_subnet,
}
use xsky.Route.Device.Datagrams.{Wanted4}

-- The subnet of a family.
abbrev pub family : Globals → Bool → XskySubnet
family g v6 = if v6 then g.subnet6 else g.subnet

-- A prefix fits its family.
abbrev pub Fits : XskySubnet → Type 0
Fits t = t.prefix ≤ 8 * alen t.is_ipv6

-- The requests that the module accepts.
abbrev pub Accepts : Ioctl → Type 0
Accepts foreign = ⊥
Accepts unknown = ⊥
Accepts (set_subnet none) = ⊥
Accepts (set_subnet (some t)) = Fits t
Accepts (set_tunnel_ip none) = ⊥
Accepts (set_tunnel_ip (some a)) = Unit {0}

set_subnet_stored :
    (g : Globals) (t : XskySubnet)
    → Fits t
    → let r = chr_ioctl g (set_subnet (some t)) in
      (r.0 ≡ ok 0)
      × (family r.1 t.is_ipv6 ≡ subnet_of (family g t.is_ipv6).address t.address t.prefix t.is_ipv6)
      × (family r.1 (not t.is_ipv6) ≡ family g (not t.is_ipv6))
      × (r.1.r_queue ≡ g.r_queue)
      × (r.1.flock_flag ≡ g.flock_flag)
unfolding chr_ioctl set_udp_proxy_subnet
set_subnet_stored g t h = ground arith

-- A subnet request whose prefix fits its family succeeds. From then on the module counts an address
-- of that family as inside exactly when it agrees with the requested one on the bits of the prefix;
-- the other family, the queue and the open flag are as before.
pub set_subnet_lem :
    (g : Globals) (t : XskySubnet)
    → Fits t
    → All IsByte t.address
    → let r = chr_ioctl g (set_subnet (some t)) in
      (r.0 ≡ ok 0)
      × ((buf ip : List ℕ)
          → All IsByte ip
          → (is_subnet buf (family r.1 t.is_ipv6) ip t.is_ipv6 ≡ true)
            ↔ AgreesOn t.prefix ip t.address)
      × (family r.1 (not t.is_ipv6) ≡ family g (not t.is_ipv6))
      × (r.1.r_queue ≡ g.r_queue)
      × (r.1.flock_flag ≡ g.flock_flag)
set_subnet_lem g t h bytes =
    let (r0, stored, other, queue, flag) = set_subnet_stored g t h in
    (
      r0,
      (λ buf ip hx. rw stored (
          is_subnet_lem buf (family g t.is_ipv6).address ip t.address t.prefix t.is_ipv6 h hx
            bytes)),
      other,
      queue,
      flag,
    )

-- A request is answered by 0 if it is accepted, and otherwise by `EINVAL` with nothing changed.
chr_ioctl_lem :
    (g : Globals) (c : Ioctl)
    → (Accepts c × ((chr_ioctl g c).0 ≡ ok 0)) ⊎ (¬ Accepts c × (chr_ioctl g c ≡ (err einval, g)))
unfolding chr_ioctl set_udp_proxy_subnet set_tunnel
chr_ioctl_lem g foreign = inr ((λ a. a), refl)
chr_ioctl_lem g unknown = inr ((λ a. a), refl)
chr_ioctl_lem g (set_subnet none) = inr ((λ a. a), refl)
chr_ioctl_lem g (set_subnet (some t)) = elim (dec_lt (8 * alen t.is_ipv6) t.prefix) [
  | yes big ↦ inr ((λ a. omega arith), ground arith)
  | no small ↦ inl (omega arith, ground arith)
]
chr_ioctl_lem g (set_tunnel_ip none) = inr ((λ a. a), refl)
chr_ioctl_lem g (set_tunnel_ip (some a)) = inl (tt, ground arith)

zero_subnet_inside : (buf ip : List ℕ) → All IsByte ip → is_subnet buf zero_subnet ip false ≡ true
unfolding is_subnet
zero_subnet_inside buf ip h =
    (is_subnet_lem buf (replicate 16 0) ip ip 0 false (omega arith) h h).1
      (λ j lt. absurd (omega arith))

-- Before any subnet is set, with no tunnel address either, the module wants the packets of every
-- IPv4 source: `is_set_subnet` is not consulted.
unset_subnet_wants :
    (g : Globals) (buf ip : List ℕ)
    → g.subnet ≡ zero_subnet
    → g.is_set_tunnel_addr ≡ false
    → All IsByte ip
    → Wanted4 g buf ip
unset_subnet_wants g buf ip e no_tunnel h =
    ((λ both. cc), rw e (zero_subnet_inside buf _ (take-All IsByte 4 _ (drop-All IsByte 12 ip h))))

-- No request touches the queue or the open flag.
pub chr_ioctl_frame :
    (g : Globals) (c : Ioctl)
    → ((chr_ioctl g c).1.r_queue ≡ g.r_queue) × ((chr_ioctl g c).1.flock_flag ≡ g.flock_flag)
unfolding chr_ioctl set_udp_proxy_subnet set_tunnel
chr_ioctl_frame g foreign = (refl, refl)
chr_ioctl_frame g unknown = (refl, refl)
chr_ioctl_frame g (set_subnet none) = (refl, refl)
chr_ioctl_frame g (set_subnet (some t)) = ground arith
chr_ioctl_frame g (set_tunnel_ip none) = (refl, refl)
chr_ioctl_frame g (set_tunnel_ip (some a)) = ground arith
