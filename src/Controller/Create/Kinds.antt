-- ===== src/Controller/Create/Kinds.antt =====
-- Which task `controller::create` makes of which packet.
use mathlib.Core.Option
use xsky.Base.{
  ℕ, zero, suc, ◌+◌, ◌-◌, ◌*◌, ◌≤◌, ◌<◌, ◌≡◌, refl, ◌∙◌, List, [], ◌∷◌, Option, none, some, length,
  byte_at, drop, ◌==◌, ◌||◌, length-drop, get_or-drop, if◌then◌else◌, arith,
}
use xsky.Controller.Create.{
  TaskKind, http_task, https_task, tcp_task, dns_task, https3_task, udp_task, load, load16, load_le,
  transport_of_ipv6, transport, tcp_kind, udp_kind, kind_of, create,
}

load-some : (bs : List ℕ) (i : ℕ) → i < length bs → load bs i ≡ some (byte_at bs i)
unfolding load
load-some bs i h = ground arith

load-none : (bs : List ℕ) (i : ℕ) → length bs ≤ i → load bs i ≡ none
unfolding load
load-none bs i h = ground arith

-- The number that the first `n` bytes stand for, least significant first.
pub le_value : ℕ → List ℕ → ℕ
le_value zero bs = 0
le_value (suc n) [] = 0
le_value (suc n) (b ∷ bs) = b + 256 * le_value n bs

load_le-some : (n : ℕ) (bs : List ℕ) → n ≤ length bs → load_le n bs ≡ some (le_value n bs)
unfolding load_le le_value
load_le-some zero bs h = refl
load_le-some (suc n) [] h = absurd (omega arith)
load_le-some (suc n) (b ∷ bs) h = rw (load_le-some n bs (omega arith))

-- The task for a transport protocol number and a destination port.
pub expected_kind : ℕ → ℕ → Option TaskKind
expected_kind protocol port =
    if protocol == 6
    then some (if port == 80 then http_task else if port == 443 then https_task else tcp_task)
    else if protocol == 17 || protocol == 136
    then some (if port == 53 then dns_task else if port == 443 then https3_task else udp_task)
    else none

transport-six :
    (packet : List ℕ)
    → 7 ≤ length packet
    → transport packet ≡ some (transport_of_ipv6 (byte_at packet 6))
unfolding transport
transport-six packet h =
    ground (arith, load-some packet 0 (omega arith), load-some packet 6 (omega arith))

load16-some :
    (packet : List ℕ) (i : ℕ)
    → i + 1 < length packet
    → load16 packet i ≡ some (byte_at packet i * 256 + byte_at packet (i + 1))
unfolding load16
load16-some packet i h =
    ground (arith, load-some packet i (omega arith), load-some packet (i + 1) h)

kind_of-some :
    (packet : List ℕ)
    → 28 ≤ length packet
    → kind_of packet (transport_of_ipv6 (byte_at packet 6))
      ≡ some (expected_kind (byte_at packet 6) (byte_at packet 26 * 256 + byte_at packet 27))
unfolding kind_of transport_of_ipv6 expected_kind tcp_kind udp_kind
kind_of-some packet h = ground (arith, load16-some packet 26 (omega arith))

-- For a message of an identifier and at least 28 bytes the call returns. It decides by the byte at
-- offset 6 of the packet, the `nexthdr` of an IPv6 header, and by the 16 bits at offset 26, in every
-- packet: the test for IPv4 never passes. A task carries the identifier, the packet and the size
-- that the caller gave.
pub create_lem :
    (bytes : List ℕ) (size : ℕ)
    → 8 < size
    → 36 ≤ length bytes
    → create bytes size
      ≡ some (
          Option.map
            (λ kind. record {
              kind = kind;
              id = le_value 8 bytes;
              size = size;
              packet = drop 8 bytes;
            })
            (expected_kind (byte_at bytes 14) (byte_at bytes 34 * 256 + byte_at bytes 35)))
unfolding create
create_lem bytes size h len =
    let packet = drop 8 bytes in
    let long : length packet ≡ length bytes - 8 = length-drop 8 bytes in
    let same : (byte_at packet 6 ≡ byte_at bytes 14)
        × (byte_at packet 26 ≡ byte_at bytes 34)
        × (byte_at packet 27 ≡ byte_at bytes 35) =
      (get_or-drop 8 bytes 6 0, get_or-drop 8 bytes 26 0, get_or-drop 8 bytes 27 0) in
    let kind : kind_of packet (transport_of_ipv6 (byte_at packet 6))
        ≡ some (expected_kind (byte_at bytes 14) (byte_at bytes 34 * 256 + byte_at bytes 35)) =
      kind_of-some packet (omega arith) ∙ rw (same.0, same.1, same.2) refl in
    ground (arith, load_le-some 8 bytes (omega arith), transport-six packet (omega arith), kind)

-- The guard on the size lets packets through that are too short for any header: of 9 to 14 bytes,
-- of which the packet has at most 6, byte 6 of the packet is read all the same.
create_short :
    (bytes : List ℕ) → 8 < length bytes → length bytes < 15 → create bytes (length bytes) ≡ none
unfolding create transport
create_short bytes h short =
    let packet = drop 8 bytes in
    let long : length packet ≡ length bytes - 8 = length-drop 8 bytes in
    ground (
      arith,
      load_le-some 8 bytes (omega arith),
      load-some packet 0 (omega arith),
      load-none packet 6 (omega arith),
    )
