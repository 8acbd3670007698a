-- ===== src/Sky/Server/Misread.antt =====
-- server/server.c: what the hook of the server's host takes for the options of a segment.
use xsky.Base.{
  ℕ, zero, suc, ◌-◌, ◌*◌, ◌<◌, ◌≤◌, ◌≡◌, ◌⊎◌, inl, inr, refl, ap, ◌∙◌, List, ◌∷◌, ◌++◌, none, some,
  length, arith, drop, subst, drop-append,
}
use xsky.Base.Kernel.{nf_accept}
use xsky.Sky.Data.{SkyData}
use xsky.Sky.Toa.{scan, get_toa_data_sky}
use xsky.Sky.Table.{Routes, insert_route_sky}
use xsky.Sky.Server.{SkBuff, sender, read_option, forwarded, server_pre_routing_sky}
use xsky.Sky.Server.Sessions.{IsSeen, IsOpening, opening_lem}

-- The two bytes of the source port as the head of an option: the end of the options, or neither
-- that nor padding and no length that fits.
abbrev pub IsMisread : (high low n : ℕ) → Type 0
IsMisread high low n = (high ≡ 0) ⊎ ((2 ≤ high) × ((low < 2) ⊎ (n < low)))

scan-misread :
    (k n high low : ℕ) (rest : List ℕ)
    → IsMisread high low n
    → n ≤ k
    → scan k (high ∷ low ∷ rest) n ≡ some none
unfolding scan
scan-misread zero n high low rest h le = ground (arith, le)
scan-misread (suc k) n high low rest (inl end) le = ground (arith, end)
scan-misread (suc k) n high low rest (inr (two, inl small)) le = ground (arith, two, small)
scan-misread (suc k) n high low rest (inr (two, inr big)) le = ground (arith, two, big)

get_toa_data_sky-misread :
    (head rest : List ℕ) (high low doff : ℕ)
    → length head ≡ 20
    → IsMisread high low (doff * 4 - 20)
    → get_toa_data_sky doff (head ++ (high ∷ low ∷ rest)) ≡ some none
unfolding get_toa_data_sky
get_toa_data_sky-misread head rest high low doff h bad =
    let ptr = high ∷ low ∷ rest in
    let behind : drop 20 (head ++ ptr) ≡ ptr =
      subst (λ (k : ℕ). drop k (head ++ ptr) ≡ ptr) h (drop-append head ptr) in
    let n = doff * 4 - 20 in
    let nothing =
      ap (λ (xs : List ℕ). scan n xs n) behind ∙ scan-misread n n high low rest bad (omega arith) in
    ground (arith, nothing)

-- A segment that opens a connection and has an IP header without options: the search reads the TCP
-- header as options. Where the first byte of its source port is 0, or is 2 or more and the second is
-- less than 2 or more than the options' length, no option is found, whatever options the header has; the
-- route that is inserted, and the address and port that the segment is sent to, are what the stack
-- held.
pub opening_misread :
    (stack : SkyData) (rest : List ℕ) (t : Routes) (skb : SkBuff) (head tail : List ℕ)
    (high low : ℕ)
    → IsSeen skb
    → IsOpening skb
    → skb.bytes ≡ head ++ (high ∷ low ∷ tail)
    → length head ≡ 20
    → IsMisread high low (skb.doff * 4 - 20)
    → let r = server_pre_routing_sky stack rest t skb in
      (r.0 ≡ nf_accept)
      × (r.1 ≡ insert_route_sky t (record { first = sender rest skb; second = stack }))
      × (r.2.daddr ≡ stack.addr)
      × (r.2.dest ≡ stack.port)
unfolding forwarded read_option
opening_misread stack rest t skb head tail high low seen opening e h bad =
    let null : get_toa_data_sky skb.doff skb.bytes ≡ some none =
      ap (get_toa_data_sky skb.doff) e
      ∙ get_toa_data_sky-misread head tail high low skb.doff h bad in
    let kept : read_option stack skb ≡ stack = rw (read_option, null) refl in
    rw (opening_lem stack rest t skb seen opening, kept) (refl, refl, refl, refl)
