-- ===== src/Sky/RouteHook/Scrambled.antt =====
-- server/server.c: the payload of a segment through `route_pre_routing_sky`, and what becomes of the
-- headers of the segment that opens a connection.
use xsky.Base.{
  ℕ, ◌+◌, ◌-◌, ◌*◌, ◌≤◌, ◌<◌, ◌≡◌, ◌≢◌, refl, sym, ap, ◌∙◌, List, ◌++◌, false, not, ◌&&◌, ◌⊎◌, some,
  length, take, drop, byte_at, ltb, if◌then◌else◌, Bool-cases, inl, inr, arith, length-take,
  length-drop, length-append, drop-append, get_or-append, get_or-append_right, dec_lt, list_ext,
  get_or-drop,
}
use xsky.Base.Kernel.{nf_accept}
use xsky.Sky.Memory.{store16, within, length-store16, byte_at-store16, byte_at-take}
use xsky.Sky.Xor.{xor_data_sky}
use xsky.Sky.Xor.Twice.{length-xor_data_sky}
use xsky.Sky.RouteHook.{
  Packet, ihl, doff, syn, ack, Checksums, check, scramble, route_pre_routing_sky,
}
use xsky.Sky.RouteHook.Insertion.{IsPacket}

behind-within : (at n j : ℕ) → at + n ≤ j → within at n j ≡ false
behind-within at n j h = ground arith

before-within : (at n j : ℕ) → j < at → within at n j ≡ false
before-within at n j h = ground arith

-- The place is none of the four bytes of the checksums.
abbrev pub IsPlain : Packet → ℕ → Type 0
IsPlain skb j = (within (skb.network + 10) 2 j ≡ false) × (within (skb.transport + 16) 2 j ≡ false)

length-twice : (m : List ℕ) (at v w : ℕ) → length (store16 (store16 m at v) at w) ≡ length m
length-twice m at v w = length-store16 _ at w ∙ length-store16 m at v

byte_at-twice :
    (m : List ℕ) (at v w j : ℕ)
    → at + 2 ≤ length m
    → within at 2 j ≡ false
    → byte_at (store16 (store16 m at v) at w) j ≡ byte_at m j
byte_at-twice m at v w j h out =
    byte_at-store16 _ at w j (omega (arith, h, length-store16 m at v)) out
    ∙ byte_at-store16 m at v j h out

module _ (sums : Checksums) where
  length-check : (i t : ℕ) (skb : Packet) → length (check sums i t skb).memory ≡ length skb.memory
  unfolding check
  length-check i t skb = elim (Bool-cases skb.checksum_hw) [
    | inl e ↦ rw e (length-store16 _ _ _ ∙ length-twice _ _ _ _)
    | inr e ↦ rw e (length-twice _ _ _ _)
  ]

  byte_at-check :
      (i t : ℕ) (skb : Packet) (j : ℕ)
      → i + 12 ≤ length skb.memory
      → t + 18 ≤ length skb.memory
      → within (i + 10) 2 j ≡ false
      → within (t + 16) 2 j ≡ false
      → byte_at (check sums i t skb).memory j ≡ byte_at skb.memory j
  unfolding check
  byte_at-check i t skb j hi ht oi ot = elim (Bool-cases skb.checksum_hw) [
    | inl e ↦ rw e (
        byte_at-store16 _ (t + 16) _ j (omega (arith, ht, length-twice skb.memory (i + 10) 0 _)) ot
        ∙ byte_at-twice skb.memory (i + 10) 0 _ j (omega (arith, hi)) oi)
    | inr e ↦ rw e (byte_at-twice skb.memory (i + 10) 0 _ j (omega (arith, hi)) oi)
  ]

-- A byte of the memory whose end, from `at` on, is scrambled.
pub scrambled : (m : List ℕ) → (at n j : ℕ) → ℕ
scrambled m at n j = if ltb j at then byte_at m j else byte_at (xor_data_sky (drop at m) n) (j - at)

byte_at-scrambled :
    (m : List ℕ) (at n j : ℕ)
    → at ≤ length m
    → byte_at (take at m ++ xor_data_sky (drop at m) n) j ≡ scrambled m at n j
unfolding scrambled
byte_at-scrambled m at n j h =
    let x = xor_data_sky (drop at m) n in
    let l : length (take at m) ≡ at = omega (arith, length-take at m, h) in
    elim (dec_lt j at) [
      | yes lt ↦ ground (
        arith,
        lt,
        get_or-append (take at m) x j 0 (omega (arith, l, lt)),
        byte_at-take at m j lt,
      )
      | no ge ↦
          let index : j ≡ length (take at m) + (j - at) = omega (arith, l, ge) in
          ap (λ (k : ℕ). byte_at (take at m ++ x) k) index
          ∙ get_or-append_right (take at m) x (j - at) 0
          ∙ ground (arith, ge)
    ]

length-scrambled :
    (m : List ℕ) (at n : ℕ)
    → at ≤ length m
    → length (take at m ++ xor_data_sky (drop at m) n) ≡ length m
length-scrambled m at n h = omega (
  arith,
  h,
  length-append (take at m) (xor_data_sky (drop at m) n),
  length-take at m,
  length-drop at m,
  length-xor_data_sky (drop at m) n,
)

-- The bytes from `at` on.
drop-scrambled :
    (m : List ℕ) (at n : ℕ)
    → at ≤ length m
    → drop at (take at m ++ xor_data_sky (drop at m) n) ≡ xor_data_sky (drop at m) n
drop-scrambled m at n h =
    let x = xor_data_sky (drop at m) n in
    ap (λ (k : ℕ). drop k (take at m ++ x)) {x = at} {y = length (take at m)}
      (omega (arith, length-take at m, h))
    ∙ drop-append (take at m) x

-- Where the payload starts, and how long it is.
abbrev pub payload_at : Packet → ℕ
payload_at skb = skb.start + (ihl skb * 4 + doff skb * 4)

abbrev pub payload_len : Packet → ℕ
payload_len skb = skb.len - (ihl skb * 4 + doff skb * 4)

payload-IsPlain : (skb : Packet) (j : ℕ) → IsPacket skb → IsPlain skb (payload_at skb + j)
payload-IsPlain skb j w = (
  behind-within (skb.network + 10) 2 (payload_at skb + j) (omega (arith, w.here, w.ip_head)),
  behind-within (skb.transport + 16) 2 (payload_at skb + j) (omega (arith, w.behind, w.tcp_head)),
)

module _ (sums : Checksums) where
  pub scramble_lem :
      (skb : Packet)
      → IsPacket skb
      → let r = scramble sums skb in
        (length r.memory ≡ length skb.memory)
        × ((j : ℕ)
            → IsPlain skb j
            → byte_at r.memory j ≡ scrambled skb.memory (payload_at skb) (payload_len skb) j)
        × (drop (payload_at skb) r.memory
            ≡ xor_data_sky (drop (payload_at skb) skb.memory) (payload_len skb))
  unfolding scramble
  scramble_lem skb w =
      let m = skb.memory in
      let at = payload_at skb in
      let n = payload_len skb in
      let fits : at ≤ length m = omega (arith, w.whole, w.inside) in
      let m' = take at m ++ xor_data_sky (drop at m) n in
      let skb' : Packet = record skb { memory = m' } in
      let r = check sums skb.network skb.transport skb' in
      let l = length-scrambled m at n fits in
      let l' = length-check sums skb.network skb.transport skb' in
      let same = λ (j : ℕ) (p : IsPlain skb j).
        byte_at-check sums skb.network skb.transport skb' j
          (omega (arith, l, w.here, w.ip_head, w.whole, w.inside))
          (omega (arith, l, w.behind, w.tcp_head, w.whole, w.inside)) p.0 p.1 in
      (
        l' ∙ l,
        (λ j p. same j p ∙ byte_at-scrambled m at n j fits),
        list_ext (drop at r.memory) (drop at m') 0
              (omega (arith, length-drop at m', length-drop at r.memory, l'))
              (λ j lt.
                get_or-drop at r.memory j 0
                ∙ same (at + j) (payload-IsPlain skb j w)
                ∙ sym (get_or-drop at m' j 0))
            ∙ drop-scrambled m at n fits,
      )

-- A byte of the IP header that is not of its checksum, and one of the TCP header in front of its own.
module _ (sums : Checksums) (skb : Packet) (w : IsPacket skb) where
  pub header_byte :
      (j : ℕ)
      → IsPlain skb j
      → j < payload_at skb
      → byte_at (scramble sums skb).memory j ≡ byte_at skb.memory j
  unfolding scrambled
  header_byte j p h = ground (arith, (scramble_lem sums skb w).1 j p, h)

  pub ip_byte :
      (j : ℕ)
      → (j < skb.network + 10) ⊎ (skb.network + 12 ≤ j)
      → j < skb.network + 20
      → byte_at (scramble sums skb).memory j ≡ byte_at skb.memory j
  ip_byte j out h =
      header_byte j
        (
          elim out [
            | inl lt ↦ before-within (skb.network + 10) 2 j (omega (arith, lt))
            | inr ge ↦ behind-within (skb.network + 10) 2 j (omega (arith, ge))
          ],
          before-within (skb.transport + 16) 2 j (omega (arith, w.here, w.behind, w.ip_head, h)),
        )
        (omega (arith, w.here, w.ip_head, h))

  pub tcp_byte :
      (j : ℕ)
      → skb.transport ≤ j
      → j < skb.transport + 16
      → byte_at (scramble sums skb).memory j ≡ byte_at skb.memory j
  tcp_byte j ge h =
      header_byte j
        (
          behind-within (skb.network + 10) 2 j (omega (arith, w.here, w.behind, w.ip_head, ge)),
          before-within (skb.transport + 16) 2 j (omega (arith, h)),
        )
        (omega (arith, w.behind, w.tcp_head, h))

-- Everything but the memory and the checksum that is left to the device.
pub scramble-places :
    (sums : Checksums) (skb : Packet)
    → let r = scramble sums skb in
      (r.network ≡ skb.network)
      × (r.transport ≡ skb.transport)
      × (r.start ≡ skb.start)
      × (r.len ≡ skb.len)
      × (r.is_nonlinear ≡ skb.is_nonlinear)
      × (r.linearize_fails ≡ skb.linearize_fails)
unfolding scramble check
scramble-places sums skb = elim (Bool-cases skb.checksum_hw) [
  | inl e ↦ rw e (refl, refl, refl, refl, refl, refl)
  | inr e ↦ rw e (refl, refl, refl, refl, refl, refl)
]

-- What the hook asks of a packet before it looks at the TCP header.
pub record IsRouted (skb : Packet) : Type 0 where
  pub abroad :
      (byte_at skb.memory (skb.network + 16) ≢ 192) × (byte_at skb.memory (skb.network + 16) ≢ 127)
  pub tcp : byte_at skb.memory (skb.network + 9) ≡ 6
  pub linear : skb.is_nonlinear ≡ false

pub routed_lem :
    (sums : Checksums) (here : List ℕ) (servers : ℕ) (skb : Packet)
    → IsRouted skb
    → (syn skb && not (ack skb)) ≡ false
    → route_pre_routing_sky sums here servers skb ≡ some (nf_accept, scramble sums skb)
unfolding route_pre_routing_sky
routed_lem sums here servers skb s closed =
    ground (arith, s.abroad.0, s.abroad.1, s.tcp, s.linear, closed)
