-- ===== src/Controller/Create.antt =====
-- controller/controller.cpp, `controller::create`: a task for a packet that the device hands over.
-- A read beyond the bytes at `data` is undefined behaviour, `none`.
pub mod Kinds
use xsky.Base.{
  ◌>>=◌, ℕ, zero, suc, ◌+◌, ◌*◌, ◌/◌, ◌%◌, ◌^◌, List, [], ◌∷◌, ◌++◌, Option, none, some, length,
  byte_at, drop, ltb, ◌==◌, if◌then◌else◌, Bool, true, false,
}
use xsky.Common.{
  ip_version_4, ip_proto_tcp, ip_proto_udp, ipv6_nexthdr_udp, dns_fixed_port, http_fixed_port,
  https_fixed_port, sizeof_protocol_ipv4, offsetof_protocol, offsetof_nexthdr, offsetof_dest,
}

-- The classes of controller/tasks.
pub data TaskKind : Type 0 where
  http_task https_task tcp_task dns_task https3_task udp_task : TaskKind

-- `class task`, with what `task::init` stores; `data` points at the packet.
pub record Task : Type 0 where
  pub kind : TaskKind
  pub id : ℕ
  pub size : ℕ
  pub packet : List ℕ

-- A byte at `data`.
pub load : List ℕ → ℕ → Option ℕ
load bs i = if ltb i (length bs) then some (byte_at bs i) else none

-- A 16-bit field through `ntohs`.
pub load16 : List ℕ → ℕ → Option ℕ
unfolding load
load16 bs i = do hi ← load bs i; lo ← load bs (i + 1); some (hi * 256 + lo)

-- `*( (std::uint64_t *)data )` on a little-endian host: the first `n` bytes.
pub load_le : ℕ → List ℕ → Option ℕ
load_le zero bs = some 0
load_le (suc n) [] = none
load_le (suc n) (b ∷ bs) = load_le n bs >>= λ rest. some (b + 256 * rest)

-- Which header the code takes the rest of the packet for.
pub data Transport : Type 0 where
  tcp udp neither : Transport

unfoldable pub transport_of_ipv4 : ℕ → Transport
transport_of_ipv4 protocol =
    if protocol == ip_proto_tcp then tcp else if protocol == ip_proto_udp then udp else neither

pub transport_of_ipv6 : ℕ → Transport
transport_of_ipv6 nexthdr =
    if nexthdr == ip_proto_tcp
    then tcp
    else if nexthdr == ip_proto_udp
    then udp
    else if nexthdr == ipv6_nexthdr_udp
    then udp
    else neither

-- The 4-bit field `version` is the low half of the first byte.
abbrev version : ℕ → ℕ
version first = first % 16

pub transport : List ℕ → Option Transport
transport packet = do
  first ← load packet 0
  if version first == ip_version_4
      then (load packet offsetof_protocol >>= λ protocol. some (transport_of_ipv4 protocol))
      else (load packet offsetof_nexthdr >>= λ nexthdr. some (transport_of_ipv6 nexthdr))

pub tcp_kind : ℕ → TaskKind
tcp_kind dest =
    if dest == http_fixed_port
    then http_task
    else if dest == https_fixed_port
    then https_task
    else tcp_task

pub udp_kind : ℕ → TaskKind
udp_kind dest =
    if dest == dns_fixed_port
    then dns_task
    else if dest == https_fixed_port
    then https3_task
    else udp_task

-- Both headers are read behind `sizeof( protocol_ipv4 )`, in all branches.
pub kind_of : List ℕ → Transport → Option (Option TaskKind)
kind_of packet tcp =
    load16 packet (sizeof_protocol_ipv4 + offsetof_dest) >>= λ dest. some (some (tcp_kind dest))
kind_of packet udp =
    load16 packet (sizeof_protocol_ipv4 + offsetof_dest) >>= λ dest. some (some (udp_kind dest))
kind_of packet neither = some none

-- `bytes` is the memory at `data`, and `size` what the caller says of it; the test compares with the
-- size of a pointer. The result is the task that is pushed to the pool, if any.
pub create : List ℕ → ℕ → Option (Option Task)
create bytes size =
    if ltb 8 size
    then (do
      id ← load_le 8 bytes
      t ← transport (drop 8 bytes)
      kind ← kind_of (drop 8 bytes) t
      elim kind [
        | none ↦ some none
        | some k ↦ some (some (record { kind = k; id = id; size = size; packet = drop 8 bytes }))
      ])
    else some none
