-- ===== src/Route/Device/Histories.antt =====
-- The module over time: reads, opens and closes, requests and packets, in any order.
use mathlib.Core.Option
use xsky.Base.{
  ℕ, ◌<◌, ◌≡◌, ◌⊎◌, inl, inr, refl, sym, ap, subst, ◌∙◌, List, [], ◌∷◌, Bool, true, false, Option,
  none, some, length, length-take, get_or-All, arith, dec_lt, if◌then◌else◌, some_inj, ◌-◌,
}
use xsky.Base.Kernel.{eagain, efault}
use xsky.Route.Queue
use xsky.Route.Queue.{XskyQueue, node_at, blank, xsky_mtu}
use xsky.Route.Queue.Ring.{IsValid, IsBuffer, blank-IsBuffer}
use xsky.Route.Queue.Inv.{pop-IsValid}
use xsky.Route.Queue.Refine.{contents, walk, packet_of, walk-pos}
use xsky.Route.Device.{
  Globals, SkBuff, Ret, ok, err, Ioctl, chr_open, chr_release, chr_read, chr_ioctl, nf_handle_in,
}
use xsky.Route.Device.Hook.{HoldsLength}

-- The queue is a valid ring, and no packet waits while the device is closed.
pub record IsHealthy (g : Globals) : Type 0 where
  pub queue : IsValid g.r_queue
  pub closed : g.flock_flag ≡ false → g.r_queue.have ≡ 0

-- What a read hands to its caller: the oldest packet, or its loss where the copy fails.
abbrev pub ReadOutcome : Globals → Bool → Ret × List ℕ × Globals → Type 0
ReadOutcome g copied r =
    ((contents g.r_queue ≡ []) × (r ≡ (err eagain, [], g)))
    ⊎ ((p : List ℕ) × (ps : List (List ℕ)) × (contents g.r_queue ≡ p ∷ ps)
        × (contents r.2.r_queue ≡ ps)
        × (r.0 ≡ (if copied then ok (length p) else err efault))
        × (r.1 ≡ (if copied then p else [])))

popped : Globals → ℕ → Globals
popped g b = record g {
  r_queue = record g.r_queue {
    begin = (node_at g.r_queue.nodes b).next;
    have = g.r_queue.have - 1;
  };
}

module _ (g : Globals) (w : IsHealthy g) (h : 0 < g.r_queue.have) where
  first :
      (b : ℕ) × (g.r_queue.begin ≡ some b)
      × (Queue.pop g.r_queue ≡ some (some b, (popped g b).r_queue))
  unfolding Queue.pop popped
  first = let (b, hb, _, _) = w.queue.span h in (b, hb, ground (arith, hb))

  popped-IsHealthy :
      (b : ℕ) → Queue.pop g.r_queue ≡ some (some b, (popped g b).r_queue) → IsHealthy (popped g b)
  popped-IsHealthy b e =
      let (r, e', valid, _) = pop-IsValid w.queue in
      record {
        queue =
            subst IsValid (ap (λ (r : Option ℕ × XskyQueue). r.1) (some_inj (sym e' ∙ e))) valid;
        closed = λ shut. absurd (omega (arith, w.closed (unfold popped in shut)));
      }

  -- The bytes of the oldest packet are as many as its buffer says.
  length-first :
      (b : ℕ) → length (packet_of (node_at g.r_queue.nodes b)) ≡ (node_at g.r_queue.nodes b).size
  length-first b =
      let buffer =
        get_or-All IsBuffer g.r_queue.nodes b blank blank-IsBuffer w.queue.ring.buffers in
      omega (
        arith,
        length-take (node_at g.r_queue.nodes b).size (node_at g.r_queue.nodes b).bytes,
        buffer,
      )

  waiting :
      (b : ℕ)
      → g.r_queue.begin ≡ some b
      → contents g.r_queue ≡ packet_of (node_at g.r_queue.nodes b) ∷ contents (popped g b).r_queue
  unfolding popped
  waiting b hb =
      ap (λ p. walk g.r_queue.nodes p g.r_queue.have) hb
      ∙ walk-pos g.r_queue.nodes b g.r_queue.have h

read-pop :
    (g : Globals) (size : ℕ) (copied : Bool) (b : ℕ)
    → Queue.pop g.r_queue ≡ some (some b, (popped g b).r_queue)
    → let node = node_at g.r_queue.nodes b in
      chr_read g size copied
      ≡ some (
          if copied
          then (ok node.size, packet_of node, popped g b)
          else (err efault, [], popped g b))
unfolding chr_read popped
read-pop g size true b e = rw e
read-pop g size false b e = rw e

read-empty :
    (g : Globals) (size : ℕ) (copied : Bool)
    → g.r_queue.have ≡ 0
    → chr_read g size copied ≡ some (err eagain, [], g)
unfolding chr_read Queue.pop
read-empty g size copied h = ground arith

-- A read of a healthy module returns. With no packet it is `EAGAIN` and nothing changes. Otherwise
-- the oldest packet leaves the queue: all its bytes are copied and counted, whatever size was asked
-- for, or the copy fails with `EFAULT` and the packet is gone.
pub chr_read_lem :
    (g : Globals) (size : ℕ) (copied : Bool)
    → IsHealthy g
    → (r : Ret × List ℕ × Globals) × (chr_read g size copied ≡ some r)
      × ReadOutcome g copied r
      × IsHealthy r.2
chr_read_lem g size copied w = elim (dec_lt 0 g.r_queue.have) [
  | no h ↦
      let none_have : g.r_queue.have ≡ 0 = omega arith in
      (
        (err eagain, [], g),
        read-empty g size copied none_have,
        inl (unfold walk in ap (λ (k : ℕ). walk g.r_queue.nodes g.r_queue.begin k) none_have, refl),
        w,
      )
  | yes h ↦
      let (b, hb, e) = first g w h in
      let node = node_at g.r_queue.nodes b in
      (
        (if copied
            then (ok node.size, packet_of node, popped g b)
            else (err efault, [], popped g b)),
        read-pop g size copied b e,
        inr (
          packet_of node,
          contents (popped g b).r_queue,
          waiting g w h b hb,
          ground arith,
          ground (arith, length-first g w h b),
          ground arith,
        ),
        ground (arith, popped-IsHealthy g w h b e),
      )
]

-- What happens to the module. A packet comes with the stack bytes that `xsky_is_subnet` starts from.
pub data Event : Type 0 where
  opens closes : Event
  requests : Ioctl → Event
  reads : ℕ → Bool → Event
  packets : List ℕ → Option SkBuff → Event

unfoldable pub step : Globals → Event → Option Globals
step g opens = some (chr_open g).1
step g closes = some (chr_release g).1
step g (requests c) = some (chr_ioctl g c).1
step g (reads size copied) = Option.map (λ r. r.2) (chr_read g size copied)
step g (packets buf skb) = Option.map (λ r. r.1) (nf_handle_in g buf skb)

unfoldable pub run : Globals → List Event → Option Globals
run g [] = some g
run g (e ∷ es) = elim (step g e) [ none ↦ none | some g' ↦ run g' es ]

-- Every socket buffer of the history holds the bytes that its headers state.
abbrev pub Sound : List Event → Type 0
Sound [] = Unit
Sound (packets buf (some skb) ∷ es) = HoldsLength skb × Sound es
Sound (e ∷ es) = Sound es
