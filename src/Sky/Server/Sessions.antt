-- ===== src/Sky/Server/Sessions.antt =====
-- server/server.c: a connection through `server_pre_routing_sky`.
use xsky.Base.{
  ℕ, ◌≡◌, ◌≢◌, refl, sym, ap, ◌∙◌, List, true, false, none, some, arith, Option-cases, ◌%◌, htons,
  little, inl, inr,
}
use xsky.Base.Kernel.{nf_accept}
use xsky.Sky.Data.{SkyData, Pair, same_key}
use xsky.Sky.Table.{Routes, insert_route_sky, find_route_sky, deref}
use xsky.Sky.Table.Routes.{IsTable, route, insert_route_sky_lem}
use xsky.Sky.Server.{SkBuff, server_port, sender, read_option, forwarded, server_pre_routing_sky}

-- A TCP segment that the hook looks at.
pub record IsSeen (skb : SkBuff) : Type 0 where
  pub abroad : (skb.daddr % 256 ≢ 192) × (skb.daddr % 256 ≢ 127)
  pub tcp : skb.protocol ≡ 6
  pub linear : skb.is_nonlinear ≡ false
  pub here : skb.dest ≡ htons little server_port

-- A segment that opens a connection, and one that carries data.
abbrev pub IsOpening : SkBuff → Type 0
IsOpening skb = (skb.syn ≡ true) × (skb.ack ≡ false)

abbrev pub IsCarrying : SkBuff → Type 0
IsCarrying skb = (skb.syn ≡ false) × (skb.rst ≡ false) × (skb.fin ≡ false)

pub opening_lem :
    (stack : SkyData) (rest : List ℕ) (t : Routes) (skb : SkBuff)
    → IsSeen skb
    → IsOpening skb
    → let pair : Pair = record { first = sender rest skb; second = read_option stack skb } in
      server_pre_routing_sky stack rest t skb
      ≡ (nf_accept, insert_route_sky t pair, forwarded skb pair)
unfolding server_pre_routing_sky
opening_lem stack rest t skb s o = ground (arith, s.abroad, s.tcp, s.linear, s.here, o.0, o.1)

pub carrying_lem :
    (stack : SkyData) (rest : List ℕ) (t : Routes) (skb : SkBuff) (pair : Pair)
    → IsSeen skb
    → IsCarrying skb
    → route t (sender stack.rest skb) ≡ some pair
    → server_pre_routing_sky stack rest t skb ≡ (nf_accept, t, forwarded skb pair)
unfolding server_pre_routing_sky route
carrying_lem stack rest t skb pair s c found =
    elim (Option-cases (find_route_sky t (sender stack.rest skb))) [
      | inl e ↦ ground (arith, e, found)
      | inr (r, e) ↦
          let pointed : deref t r ≡ pair = ground (arith, e, found) in
          ground (arith, s.abroad, s.tcp, s.linear, s.here, c.0, c.1, c.2, e, pointed)
    ]

-- A segment that opens a connection, from a sender that is new to the table and with a key in `data`
-- after the search for the option, be it an option's or what the stack held, that is new too: it is
-- forwarded to the address in `data`. A later segment of that sender that carries data is forwarded
-- to the same address and changes no route, where the twelve bytes of the stack that the code does
-- not set are those of the first call.
pub session_lem :
    (stack stack' : SkyData) (rest rest' : List ℕ) (t : Routes) (first later : SkBuff)
    → IsTable t
    → IsSeen first
    → IsOpening first
    → IsSeen later
    → IsCarrying later
    → later.saddr ≡ first.saddr
    → later.source ≡ first.source
    → stack'.rest ≡ rest
    → (read_option stack first).code ≢ 0
    → same_key (sender rest first) (read_option stack first) ≡ false
    → same_key (read_option stack first) (sender rest first) ≡ false
    → route t (sender rest first) ≡ none
    → route t (read_option stack first) ≡ none
    → let option = read_option stack first in
      let r = server_pre_routing_sky stack rest t first in
      let r' = server_pre_routing_sky stack' rest' r.1 later in
      (r.2.daddr ≡ option.addr)
      × (r.2.dest ≡ option.port)
      × (r'.2.daddr ≡ option.addr)
      × (r'.2.dest ≡ option.port)
      × (r'.0 ≡ nf_accept)
      × (r'.1 ≡ r.1)
unfolding forwarded
session_lem stack stack' rest rest' t first later w s1 o s2 c from port same code k12 k21 f1 f2 =
    let pair : Pair = record { first = sender rest first; second = read_option stack first } in
    let (_, found, _, _, _) =
      insert_route_sky_lem t pair w (λ e. omega (arith, e)) code k12 k21 f1 f2 in
    let opened = opening_lem stack rest t first s1 o in
    let key : sender rest first ≡ sender stack'.rest later = ground (arith, from, port, same) in
    let carried =
      carrying_lem stack' rest' (insert_route_sky t pair) later pair s2 c
        (ap (λ (d : SkyData). route (insert_route_sky t pair) d) (sym key) ∙ found) in
    rw (opened, carried) (refl, refl, refl, refl, refl, refl)
