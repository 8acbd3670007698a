-- ===== src/Route/Device.antt =====
-- route/main.c: the module's globals, the character device and the netfilter hook.
-- An operation that reaches the packet queue is `none` where the queue reads through NULL.
pub mod Settings
pub mod Datagrams
pub mod Hook
pub mod Histories
pub mod Run
use mathlib.Core.Option
use xsky.Base.{
  ℕ, ◌+◌, ◌*◌, ◌/◌, ◌%◌, ◌^◌, List, [], ◌∷◌, ◌++◌, Bool, true, false, not, ◌&&◌, ◌||◌, Option, none,
  some, length, take, drop, replicate, byte_at, ltb, ◌==◌, ◌!=◌, if◌then◌else◌,
}
use xsky.Base.Kernel.{Verdict, nf_drop, nf_accept, Errno, einval, ebusy, eagain, efault}
use xsky.Route.Queue
use xsky.Route.Queue.{XskyQueue, PushStatus, pushed, too_big, full, node_at}
use xsky.Route.Subnet.{XskySubnet, calc_subnet, is_subnet, same_bytes}

abbrev pub queue_size : ℕ
queue_size = 256

-- `struct xsky_address`
pub record XskyAddress : Type 0 where
  pub address : List ℕ
  pub is_ipv6 : Bool

-- The globals of the module. `wakeups` counts the calls of `wake_up_interruptible`.
pub record Globals : Type 0 where
  pub flock_flag : Bool
  pub tunnel_addr : List ℕ
  pub tunnel_addr6 : List ℕ
  pub subnet : XskySubnet
  pub subnet6 : XskySubnet
  pub is_set_subnet : Bool
  pub is_set_subnet6 : Bool
  pub is_set_tunnel_addr : Bool
  pub is_set_tunnel_addr6 : Bool
  pub r_queue : XskyQueue
  pub wakeups : ℕ

abbrev pub zero_subnet : XskySubnet
zero_subnet = record { address = replicate 16 0; prefix = 0; is_ipv6 = false }

-- The globals as they are loaded: all zero, but for the queue.
unfoldable pub loaded : XskyQueue → Globals
loaded q = record {
  flock_flag = false;
  tunnel_addr = replicate 4 0;
  tunnel_addr6 = replicate 16 0;
  subnet = zero_subnet;
  subnet6 = zero_subnet;
  is_set_subnet = false;
  is_set_subnet6 = false;
  is_set_tunnel_addr = false;
  is_set_tunnel_addr6 = false;
  r_queue = q;
  wakeups = 0;
}

-- What is left of `xsky_init` once the device and the hooks are registered.
pub xsky_init : Option Globals
unfolding loaded
xsky_init = Option.map loaded (Queue.init queue_size)

-- What a handler returns: a count or 0, or minus an error number.
pub data Ret : Type 0 where
  ok : ℕ → Ret
  err : Errno → Ret

-- The argument is what `copy_from_user` reads; `none` is its failure.
pub set_udp_proxy_subnet : Globals → Option XskySubnet → Ret × Globals
set_udp_proxy_subnet g none = (err einval, g)
set_udp_proxy_subnet g (some tmp) =
    if tmp.is_ipv6 && ltb 128 tmp.prefix
    then (err einval, g)
    else if not tmp.is_ipv6 && ltb 32 tmp.prefix
    then (err einval, g)
    else if tmp.is_ipv6
    then (ok 0, record g { subnet6 = stored g.subnet6; is_set_subnet6 = true })
    else (ok 0, record g { subnet = stored g.subnet; is_set_subnet = true })
  where
    stored : XskySubnet → XskySubnet
    stored t = record {
      address = calc_subnet t.address tmp.address tmp.prefix tmp.is_ipv6;
      prefix = tmp.prefix;
      is_ipv6 = tmp.is_ipv6;
    }

pub set_tunnel : Globals → Option XskyAddress → Ret × Globals
set_tunnel g none = (err einval, g)
set_tunnel g (some tmp) =
    if tmp.is_ipv6
    then (ok 0, record g { tunnel_addr6 = take 16 tmp.address; is_set_tunnel_addr6 = true })
    else (ok 0, record g { tunnel_addr = take 4 tmp.address; is_set_tunnel_addr = true })

-- A request of `chr_ioctl`, as its number decodes: another magic, one of the two commands with what
-- its argument points to, or another command of this magic.
pub data Ioctl : Type 0 where
  foreign unknown : Ioctl
  set_subnet : Option XskySubnet → Ioctl
  set_tunnel_ip : Option XskyAddress → Ioctl

pub chr_ioctl : Globals → Ioctl → Ret × Globals
chr_ioctl g foreign = (err einval, g)
chr_ioctl g unknown = (err einval, g)
chr_ioctl g (set_subnet arg) = set_udp_proxy_subnet g arg
chr_ioctl g (set_tunnel_ip arg) = set_tunnel g arg

pub chr_open : Globals → Ret × Globals
chr_open g = if g.flock_flag then (err ebusy, g) else (ok 0, record g { flock_flag = true })

pub chr_release : Globals → Ret × Globals
chr_release g = (ok 0, record g { flock_flag = false; r_queue = Queue.reset g.r_queue })

-- What `chr_read` copies to the caller. It takes no account of the `size` that the caller asks for;
-- `copied` tells whether `copy_to_user` succeeds.
pub chr_read : Globals → (size : ℕ) → (copied : Bool) → Option (Ret × List ℕ × Globals)
chr_read g size copied = Option.map after (Queue.pop g.r_queue)
  where
    after : Option ℕ × XskyQueue → Ret × List ℕ × Globals
    after (none, q) = (err eagain, [], record g { r_queue = q })
    after (some tmp, q) =
        let node = node_at q.nodes tmp in
        if copied
        then (ok node.size, take node.size node.bytes, record g { r_queue = q })
        else (err efault, [], record g { r_queue = q })

pub data PollMask : Type 0 where
  pollin_pollrdnorm pollrdnorm : PollMask

unfoldable pub chr_poll : Globals → PollMask
chr_poll g = if g.r_queue.have != 0 then pollin_pollrdnorm else pollrdnorm

-- A 16-bit field in network order, as `ntohs` reads it.
abbrev be16 : List ℕ → ℕ → ℕ
be16 bs i = byte_at bs i * 256 + byte_at bs (i + 1)

abbrev slice : List ℕ → ℕ → ℕ → List ℕ
slice bs i n = take n (drop i bs)

-- Fields of the kernel's `struct iphdr` and `struct ipv6hdr`, by their offsets in the packet.
abbrev pub ip_version : List ℕ → ℕ
ip_version p = byte_at p 0 / 16

abbrev pub ip_tot_len : List ℕ → ℕ
ip_tot_len p = be16 p 2

abbrev pub ip_protocol : List ℕ → ℕ
ip_protocol p = byte_at p 9

abbrev pub ip_saddr : List ℕ → List ℕ
ip_saddr p = slice p 12 4

abbrev pub ip_daddr : List ℕ → List ℕ
ip_daddr p = slice p 16 4

abbrev pub ip6_payload_len : List ℕ → ℕ
ip6_payload_len p = be16 p 4

abbrev pub ip6_nexthdr : List ℕ → ℕ
ip6_nexthdr p = byte_at p 6

abbrev pub ip6_saddr : List ℕ → List ℕ
ip6_saddr p = slice p 8 16

abbrev pub ip6_daddr : List ℕ → List ℕ
ip6_daddr p = slice p 24 16

-- The common part of the two `xsky_push_*_packet_to_user`: a refused packet goes on its way.
pub push_to_user : Globals → List ℕ → ℕ → Option (Verdict × Globals)
push_to_user g packet size = Option.map after (Queue.push g.r_queue packet size)
  where
    after : PushStatus × XskyQueue → Verdict × Globals
    after (pushed, q) = (nf_drop, record g { r_queue = q; wakeups = g.wakeups + 1 })
    after (too_big, q) = (nf_accept, record g { r_queue = q })
    after (full, q) = (nf_accept, record g { r_queue = q })

pub push_ipv4_packet_to_user : Globals → List ℕ → Option (Verdict × Globals)
push_ipv4_packet_to_user g packet = push_to_user g packet (ip_tot_len packet)

-- `data_len` is an unsigned short.
pub push_ipv6_packet_to_user : Globals → List ℕ → Option (Verdict × Globals)
push_ipv6_packet_to_user g packet = push_to_user g packet ((ip6_payload_len packet + 40) % 2 ^ 16)

-- `buf` is the uninitialised array of `xsky_is_subnet`.
pub handle_ipv4_dgram_in : Globals → List ℕ → List ℕ → Option (Verdict × Globals)
handle_ipv4_dgram_in g buf packet =
    if g.is_set_tunnel_addr && same_bytes 4 g.tunnel_addr (ip_daddr packet)
    then some (nf_accept, g)
    else if not (is_subnet buf g.subnet (ip_saddr packet) false)
    then some (nf_accept, g)
    else push_ipv4_packet_to_user g packet

pub handle_ipv6_dgram_in : Globals → List ℕ → List ℕ → Option (Verdict × Globals)
handle_ipv6_dgram_in g buf packet =
    if g.is_set_tunnel_addr6 && same_bytes 16 g.tunnel_addr6 (ip6_daddr packet)
    then some (nf_accept, g)
    else if not (is_subnet buf g.subnet6 (ip6_saddr packet) true)
    then some (nf_accept, g)
    else push_ipv6_packet_to_user g packet

-- A socket buffer: the bytes from `skb_network_header` on, or NULL.
pub record SkBuff : Type 0 where
  pub network_header : Option (List ℕ)

-- The same pointer with another type.
abbrev pub ipv6_hdr : SkBuff → Option (List ℕ)
ipv6_hdr skb = skb.network_header

abbrev is_datagram : ℕ → Bool
is_datagram nexthdr = not (nexthdr != 17 && nexthdr != 136)

pub nf_handle_in : Globals → List ℕ → Option SkBuff → Option (Verdict × Globals)
nf_handle_in g buf none = some (nf_accept, g)
nf_handle_in g buf (some skb) =
    if not g.flock_flag then some (nf_accept, g) else elim skb.network_header [
      | none ↦ some (nf_accept, g)
      | some ip ↦
          if ip_version ip == 4
          then (if not (is_datagram (ip_protocol ip))
              then some (nf_accept, g)
              else handle_ipv4_dgram_in g buf ip)
          else elim (ipv6_hdr skb) [
            | none ↦ some (nf_accept, g)
            | some ip6 ↦
                if not (is_datagram (ip6_nexthdr ip6))
                then some (nf_accept, g)
                else handle_ipv6_dgram_in g buf ip6
          ]
    ]
