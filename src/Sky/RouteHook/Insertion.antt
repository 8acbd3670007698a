-- ===== src/Sky/RouteHook/Insertion.antt =====
-- server/server.c: where `set_toa_data_sky` leaves each byte of the packet.
use xsky.Base.{
  ge→ltb, ℕ, ◌+◌, ◌-◌, ◌*◌, ◌/◌, ◌≤◌, ◌<◌, ◌≡◌, refl, sym, ap, ◌∙◌, List, Bool, false, none, some,
  length, take, set, byte_at, ltb, ◌==◌, ◌||◌, if◌then◌else◌, length-take, length-set, get_or-set,
  lt→ltb, arith,
}
use xsky.Sky.Data.{SkyData}
use xsky.Sky.Memory.{
  put, memcpy, within, byte_at-put, byte_at-memcpy, byte_at-take, length-put, length-memcpy,
}
use xsky.Sky.RouteHook.{
  Packet, ihl, doff, tcp_header_size, with_low, with_high, option_size, moved, set_toa_data_sky,
}

-- The byte at a place when both fixed headers have moved down by `n`, and `n` bytes of `here` stand
-- between them and the options.
unfoldable pub spread : (here m : List ℕ) → (start n ihead_len j : ℕ) → ℕ
spread here m start n ihead_len j =
    let heads = ihead_len + tcp_header_size in
    if within (start - n) heads j
    then byte_at m (j + n)
    else if within (start - n + heads) n j
    then byte_at here (j - (start - n + heads))
    else byte_at m j

-- A copy to the place where the bytes stand already.
byte_at-memcpy_same :
    (m : List ℕ) (to from n j : ℕ)
    → to ≡ from
    → from + n ≤ length m
    → byte_at (memcpy m to from n) j ≡ byte_at m j
byte_at-memcpy_same m to from n j e h = ground (
  arith,
  byte_at-memcpy m to from n j (omega (arith, e)) h,
  ap (λ (k : ℕ). byte_at m k) {x = from + (j - to)} {y = j},
)

-- A copy down by `n`.
byte_at-memcpy_down :
    (m : List ℕ) (to from n k j : ℕ)
    → to + n ≡ from
    → from + k ≤ length m
    → byte_at (memcpy m to from k) j ≡ (if within to k j then byte_at m (j + n) else byte_at m j)
byte_at-memcpy_down m to from n k j e h = ground (
  arith,
  byte_at-memcpy m to from k j (omega (arith, e)) h,
  ap (λ (i : ℕ). byte_at m i) {x = from + (j - to)} {y = j + n},
)

-- Both headers, one copy after the other.
abbrev heads_moved : (m : List ℕ) → (to start i : ℕ) → List ℕ
heads_moved m to start i = memcpy (memcpy m to start i) (to + i) (start + i) tcp_header_size

byte_at-heads_moved :
    (m : List ℕ) (to n start i j : ℕ)
    → to + n ≡ start
    → start + i + tcp_header_size ≤ length m
    → byte_at (heads_moved m to start i) j
      ≡ (if within to (i + tcp_header_size) j then byte_at m (j + n) else byte_at m j)
byte_at-heads_moved m to n start i j e h =
    let m1 = memcpy m to start i in
    let first = λ (k : ℕ). byte_at-memcpy_down m to start n i k e (omega arith) in
    ground (
      arith,
      byte_at-memcpy_down m1 (to + i) (start + i) n tcp_header_size j (omega (arith, e))
          (omega (arith, length-memcpy m to start i)),
      first j,
      first (j + n),
    )

length-heads_moved : (m : List ℕ) (to start i : ℕ) → length (heads_moved m to start i) ≡ length m
length-heads_moved m to start i = length-memcpy _ _ _ _ ∙ length-memcpy _ _ _ _

length-moved :
    (here m : List ℕ) (start n i o d : ℕ) → length (moved here m start n i o d) ≡ length m
unfolding moved
length-moved here m start n i o d =
    length-memcpy _ _ _ _
    ∙ length-memcpy _ _ _ _
    ∙ length-put _ _ _
    ∙ length-heads_moved m (start - n) start i

-- The copies of options and payload leave them where they are.
byte_at-moved :
    (here m : List ℕ) (start n i o d j : ℕ)
    → n ≤ start
    → n ≤ length here
    → start + i + tcp_header_size + o + d ≤ length m
    → byte_at (moved here m start n i o d) j ≡ spread here m start n i j
unfolding moved spread
byte_at-moved here m start n i o d j room size h =
    let to = start - n in
    let m2 = heads_moved m to start i in
    let at = to + i + tcp_header_size in
    let from = start + i + tcp_header_size in
    let m3 = put m2 at (take n here) in
    let l2 = length-heads_moved m to start i in
    let l3 = length-put m2 at (take n here) in
    let m4 = memcpy m3 (at + n) from o in
    let l4 = length-memcpy m3 (at + n) from o in
    let lt = length-take n here in
    let p5 =
      byte_at-memcpy_same m4 (at + n + o) (from + o) d j (omega (arith, room))
        (omega (arith, h, l2, l3, l4)) in
    let p4 =
      byte_at-memcpy_same m3 (at + n) from o j (omega (arith, room)) (omega (arith, h, l2, l3)) in
    let p3 = byte_at-put m2 at (take n here) j (omega (arith, h, l2, lt, room, size)) in
    let p2 = byte_at-heads_moved m to n start i j (omega (arith, room)) (omega (arith, h)) in
    p5 ∙ p4 ∙ ground (arith, p3, p2, lt, room, size, byte_at-take n here (j - at))

-- A packet of two whole headers, as the network layer hands it to the hook.
pub record IsPacket (skb : Packet) : Type 0 where
  pub here : skb.start ≡ skb.network
  pub behind : skb.transport ≡ skb.start + ihl skb * 4
  pub ip_head : 5 ≤ ihl skb
  pub tcp_head : 5 ≤ doff skb
  pub whole : ihl skb * 4 + doff skb * 4 ≤ skb.len
  pub inside : skb.start + skb.len ≤ length skb.memory

-- The byte at a place after the fields of the lengths have been written where the headers were.
abbrev pub inserted : (here : List ℕ) → Packet → (n j : ℕ) → ℕ
inserted here skb n j =
    let b = spread here skb.memory skb.start n (ihl skb * 4) j in
    if j == skb.start
    then with_low b ((ihl skb * 4 + n) / 4)
    else if j == skb.transport + 12
    then with_high b ((doff skb * 4 + n) / 4)
    else b

-- The two assignments to the fields of the lengths.
abbrev lengthened : (m : List ℕ) → (a va d vd : ℕ) → List ℕ
lengthened m a va d vd =
    let m' = set m a (with_low (byte_at m a) va) in set m' d (with_high (byte_at m' d) vd)

byte_at-lengthened :
    (m : List ℕ) (a va d vd j : ℕ)
    → a < d
    → d < length m
    → byte_at (lengthened m a va d vd) j ≡ (
        if j == a
        then with_low (byte_at m j) va
        else if j == d
        then with_high (byte_at m j) vd
        else byte_at m j)
byte_at-lengthened m a va d vd j lt le =
    let v = with_low (byte_at m a) va in
    let m' = set m a v in
    let at = λ (k : ℕ). get_or-set m a k v 0 (omega (arith, lt, le)) in
    ground (
      arith,
      at j,
      at d,
      get_or-set m' d j (with_high (byte_at m' d) vd) 0 (omega (arith, le, length-set m a v)),
      ap (λ (k : ℕ). byte_at m k) {x = j} {y = a},
      ap (λ (k : ℕ). byte_at m k) {x = j} {y = d},
    )

-- The packet of the last branch of `set_toa_data_sky`.
abbrev pub pushed : (here : List ℕ) → Packet → (n : ℕ) → Packet
pushed here skb n = record skb {
  memory =
      lengthened
        (moved here skb.memory skb.start n (ihl skb * 4) (doff skb * 4 - tcp_header_size)
          (skb.len - ihl skb * 4 - doff skb * 4))
        skb.network ((ihl skb * 4 + n) / 4) (skb.transport + 12) ((doff skb * 4 + n) / 4);
  start = skb.start - n;
  len = skb.len + n;
}

first_guard {ℓ} :
    {A : Type ℓ} (a b c : Bool) (x y : A)
    → b ≡ false
    → c ≡ false
    → (if a || b || c then x else y) ≡ (if a then x else y)
first_guard a b c x y hb hc = ground (arith, hb, hc)

set_toa_data_sky-pushed :
    (here : List ℕ) (skb : Packet) (toa : SkyData)
    → IsPacket skb
    → set_toa_data_sky here skb toa
      ≡ (if ltb skb.start (option_size toa) then none else some (pushed here skb (option_size toa)))
unfolding set_toa_data_sky
set_toa_data_sky-pushed here skb toa w =
    first_guard (ltb skb.start (option_size toa)) _ _ none
      (some (pushed here skb (option_size toa))) (ge→ltb _ _ (omega (arith, w.tcp_head)))
      (ge→ltb _ _ w.whole)

byte_at-pushed :
    (here : List ℕ) (skb : Packet) (n j : ℕ)
    → IsPacket skb
    → n ≤ length here
    → n ≤ skb.start
    → byte_at (pushed here skb n).memory j ≡ inserted here skb n j
byte_at-pushed here skb n j w size room =
    let o = doff skb * 4 - tcp_header_size in
    let d = skb.len - ihl skb * 4 - doff skb * 4 in
    let m = moved here skb.memory skb.start n (ihl skb * 4) o d in
    let fits : skb.start + ihl skb * 4 + tcp_header_size + o + d ≤ length skb.memory =
      omega (arith, w.tcp_head, w.whole, w.inside) in
    let l = length-moved here skb.memory skb.start n (ihl skb * 4) o d in
    let written =
      byte_at-lengthened m skb.network ((ihl skb * 4 + n) / 4) (skb.transport + 12)
        ((doff skb * 4 + n) / 4) j (omega (arith, w.here, w.behind))
        (omega (arith, l, fits, w.behind)) in
    let byte = byte_at-moved here skb.memory skb.start n (ihl skb * 4) o d j room size fits in
    rw (written, byte, sym w.here) refl

-- Without room in front of the packet the kernel crashes. Otherwise the packet starts at as many
-- bytes less as the option has and is longer by as many; the two fixed headers have moved down,
-- bytes of the pointer's variable stand behind them, all other bytes are where they were, and the
-- four bits of each length are written where the header stood before.
pub set_toa_data_sky_lem :
    (here : List ℕ) (skb : Packet) (toa : SkyData)
    → IsPacket skb
    → option_size toa ≤ length here
    → (skb.start < option_size toa → set_toa_data_sky here skb toa ≡ none)
      × (option_size toa ≤ skb.start
          → (r : Packet) × (set_toa_data_sky here skb toa ≡ some r)
            × (r.start + option_size toa ≡ skb.start)
            × (r.len ≡ skb.len + option_size toa)
            × (length r.memory ≡ length skb.memory)
            × ((r.network ≡ skb.network) × (r.transport ≡ skb.transport))
            × ((j : ℕ) → byte_at r.memory j ≡ inserted here skb (option_size toa) j))
set_toa_data_sky_lem here skb toa w size =
    let n = option_size toa in
    let run = set_toa_data_sky-pushed here skb toa w in
    (
      (λ lack.
          run ∙ ap (λ (b : Bool). if b then none else some (pushed here skb n)) (lt→ltb _ _ lack)),
      (λ room. (
        pushed here skb n,
        run ∙ ap (λ (b : Bool). if b then none else some (pushed here skb n)) (ge→ltb _ _ room),
        omega (arith, room),
        refl,
        length-set _ _ _ ∙ length-set _ _ _ ∙ length-moved here skb.memory skb.start n _ _ _,
        (refl, refl),
        (λ j. byte_at-pushed here skb n j w size room),
      )),
    )
