-- ===== src/Route/Device/Run.antt =====
-- Every history of the module of route/main.c keeps it healthy.
use xsky.Base.{
  ℕ, ◌≡◌, ◌⊎◌, inl, inr, refl, sym, ap, subst, ◌∙◌, List, [], ◌∷◌, true, none, some, arith,
  Bool-cases,
}
use xsky.Base.Kernel.{Verdict, ebusy}
use xsky.Route.Queue
use xsky.Route.Queue.{XskyQueue}
use xsky.Route.Queue.Ring.{IsValid, init-IsValid}
use xsky.Route.Queue.Inv.{reset-IsValid}
use xsky.Route.Queue.Refine.{contents, walk}
use xsky.Route.Device.{
  Globals, SkBuff, ok, err, chr_open, chr_release, chr_ioctl, nf_handle_in, loaded, xsky_init,
  queue_size,
}
use xsky.Route.Device.Hook.{HoldsLength, nf_handle_in_lem}
use xsky.Route.Device.Settings.{chr_ioctl_frame}
use xsky.Route.Device.Histories.{
  IsHealthy, Event, opens, closes, requests, reads, packets, step, run, Sound, chr_read_lem,
}

-- Opening an open device is refused with `EBUSY` and changes nothing; otherwise the opener holds it
-- until the release, which empties the queue, and after which it can be opened again.
open_release :
    (g : Globals)
    → IsHealthy g
    → ((g.flock_flag ≡ true) × (chr_open g ≡ (err ebusy, g)))
      ⊎ (((chr_open g).0 ≡ ok 0)
          × ((chr_open (chr_open g).1).0 ≡ err ebusy)
          × ((chr_open (chr_release (chr_open g).1).1).0 ≡ ok 0)
          × (contents (chr_release (chr_open g).1).1.r_queue ≡ []))
unfolding chr_open chr_release Queue.reset walk
open_release g w = elim (Bool-cases g.flock_flag) [
  | inl held ↦ inl (held, ground arith)
  | inr free ↦ inr (ground arith, ground arith, ground arith, refl)
]

open-IsHealthy : (g : Globals) → IsHealthy g → IsHealthy (chr_open g).1
unfolding chr_open
open-IsHealthy g w = elim (Bool-cases g.flock_flag) [
  | inl held ↦ let same : (chr_open g).1 ≡ g = ground (arith, held) in subst IsHealthy (sym same) w
  | inr free ↦
      let taken : (chr_open g).1 ≡ record g { flock_flag = true } = ground (arith, free) in
      subst IsHealthy (sym taken) (record { queue = w.queue; closed = λ e. cc })
]

packet-IsHealthy :
    (g : Globals) (buf : List ℕ) (skb : SkBuff)
    → IsHealthy g
    → HoldsLength skb
    → (g' : Globals) × (step g (packets buf (some skb)) ≡ some g') × IsHealthy g'
unfolding step
packet-IsHealthy g buf skb w h =
    let (r, e, out) = nf_handle_in_lem g buf skb w.queue h in
    (
      r.1,
      ground (arith, e),
      elim out [
        | inl (packet, size, s, room, taken) ↦ record {
          queue = taken.queue;
          closed = λ shut. absurd (ground (arith, s.0, taken.frame, shut));
        }
        | inr (same, _) ↦ subst (λ (r : Verdict × Globals). IsHealthy r.1) (sym same) w
      ],
    )

step-IsHealthy :
    (g : Globals) (e : Event) (es : List Event)
    → IsHealthy g
    → Sound (e ∷ es)
    → (g' : Globals) × (step g e ≡ some g') × IsHealthy g' × Sound es
unfolding step chr_release nf_handle_in
step-IsHealthy g opens es w h = ((chr_open g).1, refl, open-IsHealthy g w, h)
step-IsHealthy g closes es w h = (
  (chr_release g).1,
  refl,
  record { queue = (reset-IsValid w.queue).0; closed = λ _. (reset-IsValid w.queue).1 },
  h,
)
step-IsHealthy g (requests c) es w h =
    let (queue, flag) = chr_ioctl_frame g c in
    (
      (chr_ioctl g c).1,
      refl,
      record {
        queue = subst IsValid (sym queue) w.queue;
        closed = λ shut. ap (λ q. q.have) queue ∙ w.closed (sym flag ∙ shut);
      },
      h,
    )
step-IsHealthy g (reads size copied) es w h =
    let (r, e, _, w') = chr_read_lem g size copied w in (r.2, ground (arith, e), w', h)
step-IsHealthy g (packets buf none) es w h = (g, refl, w, h)
step-IsHealthy g (packets buf (some skb)) es w h =
    let (g', e, w') = packet-IsHealthy g buf skb w h.0 in (g', e, w', h.1)

run-IsHealthy :
    (es : List Event) (g : Globals)
    → IsHealthy g
    → Sound es
    → (g' : Globals) × (run g es ≡ some g') × IsHealthy g'
unfolding run
run-IsHealthy [] g w h = (g, refl, w)
run-IsHealthy (e ∷ es) g w h =
    let (g', e', w', h') = step-IsHealthy g e es w h in
    let (g'', run', w'') = run-IsHealthy es g' w' h' in (g'', ground (arith, e', run'), w'')

-- The module loads with a healthy state, and no history of opens, closes, requests, reads and
-- packets, whose socket buffers hold the bytes that the headers state, ever reads through NULL in the
-- queue: each ends, with the ring valid and no packet waiting while the device is closed.
pub run-xsky_init :
    (es : List Event)
    → Sound es
    → (g₀ g : Globals) × (xsky_init ≡ some g₀) × (run g₀ es ≡ some g) × IsHealthy g
unfolding xsky_init
run-xsky_init es h =
    let (q, e, v, none_have, _) = init-IsValid queue_size (omega arith) in
    let (g, run', w) =
      run-IsHealthy es (loaded q) (record { queue = v; closed = λ _. none_have }) h in
    (loaded q, g, rw e, run', w)
