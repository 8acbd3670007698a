-- ===== src/Sky/Toa.antt =====
-- server/server.c: `get_toa_data_sky`, the search for a proxy's option in the bytes of a
-- packet.
pub mod Options
use mathlib.Core.Option
use xsky.Base.{
  ℕ, zero, suc, ◌+◌, ◌-◌, ◌*◌, length, List, Option, none, some, take, drop, byte_at, ltb, ◌==◌,
  ◌&&◌, if◌then◌else◌,
}
use xsky.Sky.Data.{tcpopt_v4, tcpolen_v4, tcpopt_v6, tcpolen_v6}

-- The kernel's `TCPOPT_EOL` and `TCPOPT_NOP`.
abbrev tcpopt_eol : ℕ
tcpopt_eol = 0

abbrev tcpopt_nop : ℕ
tcpopt_nop = 1

-- `sizeof( struct tcphdr )`
abbrev pub tcp_header_size : ℕ
tcp_header_size = 20

-- The loop, with the memory from `ptr` on, on fuel: `none` where that runs out. The inner `none` is
-- NULL, and `some` holds the bytes that are copied to `pdata`.
unfoldable pub scan : (fuel : ℕ) → List ℕ → (length : ℕ) → Option (Option (List ℕ))
scan zero ptr length = if ltb 0 length then none else some none
scan (suc k) ptr length =
    let opcode = byte_at ptr 0 in
    let opsize = byte_at ptr 1 in
    let size = if opcode == tcpopt_nop then 1 else opsize in
    let rest = scan k (drop size ptr) (length - size) in
    if ltb 0 length
    then (if opcode == tcpopt_eol
        then some none
        else if opcode == tcpopt_nop
        then rest
        else if ltb opsize 2
        then some none
        else if ltb length opsize
        then some none
        else if tcpopt_v4 == opcode && tcpolen_v4 == opsize
        then some (some (take 8 ptr))
        else if tcpopt_v6 == opcode && tcpolen_v6 == opsize
        then some (some (take 20 ptr))
        else rest)
    else some none

-- On the bytes of a packet from `skb->data` on, in a linear buffer, with the data offset of its TCP
-- header. `skb_header_pointer` counts from `skb->data`, where the IP header is, and returns NULL
-- where the packet has not as many bytes. Each turn takes at least one byte, so the length is fuel
-- enough.
unfoldable pub get_toa_data_sky : (doff : ℕ) → (bytes : List ℕ) → Option (Option (List ℕ))
get_toa_data_sky doff bytes =
    let n = doff * 4 - tcp_header_size in
    let found = scan n (drop tcp_header_size bytes) n in
    if ltb (length bytes) (tcp_header_size + n) then some none else found
