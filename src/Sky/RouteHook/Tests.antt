-- ===== src/Sky/RouteHook/Tests.antt =====
-- server/server.c: the theorems on the hook of the host that routes at concrete packets.
use xsky.Base.{
  ℕ, ◌+◌, ◌/◌, ◌%◌, ◌≤◌, ◌<◌, ◌≡◌, refl, List, [], ◌∷◌, ◌++◌, false, some, none, arith, length,
  byte_at, replicate,
}
use xsky.Base.Kernel.{nf_accept}
use xsky.Sky.Data.{zero_data}
use xsky.Sky.Memory.{load32}
use xsky.Sky.Table.{insert_route_sky, empty_routes}
use xsky.Sky.Table.Routes.{empty_routes-IsTable, insert_route_sky_lem}
use xsky.Sky.Server.{server_pre_routing_sky}
use xsky.Sky.RouteHook.{
  Packet, set_toa_data_sky, Checksums, redirect, toa_of, route_pre_routing_sky,
}
use xsky.Sky.RouteHook.Insertion.{IsPacket, inserted, set_toa_data_sky_lem}
use xsky.Sky.RouteHook.Opening.{redirect_lem}
use xsky.Sky.RouteHook.Tunnel.{segment, tunnel_lem}
use xsky.Sky.Tests.{client, site, pair, apart}

-- From port 80 of 10.0.0.1 to port 48888 of 5.6.7.8.
abbrev ip_head : List ℕ
ip_head = 69 ∷ 0 ∷ 0 ∷ 43 ∷ 0 ∷ 0 ∷ 0 ∷ 0 ∷ 64 ∷ 6 ∷ 0 ∷ 0 ∷ 10 ∷ 0 ∷ 0 ∷ 1 ∷ 5 ∷ 6 ∷ 7 ∷ 8 ∷ []

abbrev tcp_head : ℕ → List ℕ
tcp_head flags =
    0 ∷ 80 ∷ 190 ∷ 248 ∷ 0 ∷ 0 ∷ 0 ∷ 0 ∷ 0 ∷ 0 ∷ 0 ∷ 0 ∷ 80 ∷ flags ∷ 1 ∷ 0 ∷ 0 ∷ 0 ∷ 0 ∷ 0 ∷ []

-- Eight bytes of room, a payload of three bytes, and four bytes behind the packet.
abbrev pub packet : ℕ → Packet
packet flags = record {
  memory = replicate 8 0 ++ (ip_head ++ (tcp_head flags ++ (65 ∷ 66 ∷ 67 ∷ 0 ∷ 0 ∷ 0 ∷ 0 ∷ [])));
  start = 8;
  len = 43;
  network = 8;
  transport = 28;
  is_nonlinear = false;
  linearize_fails = false;
  checksum_hw = false;
  csum = 0;
}

pub packet-IsPacket : (flags : ℕ) → IsPacket (packet flags)
packet-IsPacket flags = record {
  here = refl;
  behind = refl;
  ip_head = omega arith;
  tcp_head = omega arith;
  whole = omega arith;
  inside = omega arith;
}

-- The pointer of the caller's variable.
abbrev pub pointer : List ℕ
pointer = 0 ∷ 200 ∷ 7 ∷ 0 ∷ 128 ∷ 136 ∷ 255 ∷ 255 ∷ []

set_toa_data_sky_lem_example :
    let toa = toa_of (packet 2) in
    (8 < 8 → set_toa_data_sky pointer (packet 2) toa ≡ none)
    × (8 ≤ 8
        → (r : Packet) × (set_toa_data_sky pointer (packet 2) toa ≡ some r)
          × (r.start + 8 ≡ 8)
          × (r.len ≡ 43 + 8)
          × (length r.memory ≡ length (packet 2).memory)
          × ((r.network ≡ 8) × (r.transport ≡ 28))
          × ((j : ℕ) → byte_at r.memory j ≡ inserted pointer (packet 2) 8 j))
set_toa_data_sky_lem_example =
    set_toa_data_sky_lem pointer (packet 2) (toa_of (packet 2)) (packet-IsPacket 2) (omega arith)

redirect_lem_example :
    (r : Packet) × (redirect pointer 0x04030201 (packet 2) ≡ some r)
    × (r.start + 8 ≡ 8)
    × (byte_at r.memory r.start % 16 ≡ 5)
    × (byte_at r.memory (r.start + 20 + 12) / 16 ≡ 5)
    × (load32 r.memory (r.start + 16) ≡ 0x08070605)
redirect_lem_example =
    redirect_lem pointer 0x04030201 (packet 2) (packet-IsPacket 2) (omega arith) (omega arith)

-- Sums that are all 0.
abbrev pub sums : Checksums
sums = record {
  ip_fast_csum = λ bytes words. 0;
  csum_partial = λ bytes n sum. 0;
  csum_tcpudp_magic = λ saddr daddr n proto sum. 0;
}

tunnel_lem_example :
    let t = insert_route_sky empty_routes pair in
    (q : Packet) × (route_pre_routing_sky sums pointer 0x04030201 (packet 16) ≡ some (nf_accept, q))
    × (q.len ≡ 43)
    × (let r = server_pre_routing_sky zero_data zero_data.rest t (segment q) in
        (r.0 ≡ nf_accept)
        × (r.1 ≡ t)
        × (r.2.daddr ≡ 0x08080808)
        × (r.2.dest ≡ 0xbb01)
        × ((j : ℕ) → j < 7 → byte_at r.2.payload j ≡ byte_at (65 ∷ 66 ∷ 67 ∷ 0 ∷ 0 ∷ 0 ∷ 0 ∷ []) j))
unfolding segment
tunnel_lem_example =
    tunnel_lem sums pointer zero_data.rest 0x04030201 zero_data (insert_route_sky empty_routes pair)
      (packet 16) pair (packet-IsPacket 16) (ground arith)
      (record {
        abroad = ((λ e. omega (arith, e)), (λ e. omega (arith, e)));
        tcp = refl;
        linear = refl;
      })
      (record {
        abroad = ((λ e. omega (arith, e)), (λ e. omega (arith, e)));
        tcp = refl;
        linear = refl;
        here = refl;
      })
      (refl, refl, refl)
      (insert_route_sky_lem empty_routes pair empty_routes-IsTable.0 (λ e. omega (arith, e))
        (λ e. omega (arith, e)) apart.0 apart.1 (empty_routes-IsTable.1 client)
        (empty_routes-IsTable.1 site)).1
