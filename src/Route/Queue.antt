-- ===== src/Route/Queue.antt =====
-- route/queue.h: a fixed ring of packet buffers, linked both ways, with `begin` and `end` pointers.
-- A pointer is the number of the node that `MALLOC` returned, `none` is NULL; an operation that
-- reads through NULL is `none`.
pub mod Chain
pub mod Ring
pub mod Inv
pub mod Refine
pub mod Run
pub mod Race
use xsky.Base.{
  ℕ, zero, suc, ◌+◌, ◌-◌, List, [], ◌∷◌, ◌++◌, Option, none, some, length, get_or, set, take, drop,
  replicate, ltb, ◌==◌, if◌then◌else◌,
}

abbrev pub xsky_mtu : ℕ
xsky_mtu = 1501

-- `struct xsky_queue_data`; `bytes` is its array `data`.
pub record Node : Type 0 where
  pub next : Option ℕ
  pub previous : Option ℕ
  pub size : ℕ
  pub bytes : List ℕ

-- `struct xsky_queue`, with the buffers that its pointers lead to.
pub record XskyQueue : Type 0 where
  pub begin : Option ℕ
  pub end : Option ℕ
  pub list : Option ℕ
  pub have : ℕ
  pub size : ℕ
  pub nodes : List Node

-- `memset( tmp, 0, sizeof( struct xsky_queue_data ) )`
pub blank : Node
blank = record { next = none; previous = none; size = 0; bytes = replicate xsky_mtu 0 }

abbrev pub node_at : List Node → ℕ → Node
node_at ns p = get_or ns p blank

pub set_next : ℕ → ℕ → List Node → List Node
set_next p q ns = set ns p (record (node_at ns p) { next = some q })

pub set_previous : ℕ → ℕ → List Node → List Node
set_previous p q ns = set ns p (record (node_at ns p) { previous = some q })

-- One round of the loop of `xsky_queue_init`: a fresh buffer, linked behind the last one.
pub append_node : List Node → List Node
unfolding set_next set_previous
append_node [] = blank ∷ []
append_node (n ∷ ns) =
    let tmp = length (n ∷ ns) in
    set_previous tmp (tmp - 1) (set_next (tmp - 1) tmp (n ∷ ns ++ blank ∷ []))

-- `for ( int n = 0; n < qsize; n++ )`
pub grow : ℕ → List Node → List Node
unfolding append_node
grow zero ns = ns
grow (suc k) ns = grow k (append_node ns)

-- With no buffer `queue->list->previous` reads through NULL.
unfoldable pub init : ℕ → Option XskyQueue
unfolding grow
init zero = none
init (suc k) =
    let tmp = k in
    some (record {
      begin = none;
      end = none;
      list = some 0;
      have = 0;
      size = suc k;
      nodes = set_next tmp 0 (set_previous 0 tmp (grow (suc k) []));
    })

-- What `xsky_queue_push` returns: 0, -1 or -2.
pub data PushStatus : Type 0 where
  pushed too_big full : PushStatus

-- `memcpy( dst, src, n )`, with `n` bytes at `src`.
abbrev memcpy : List ℕ → List ℕ → ℕ → List ℕ
memcpy dst src n = take n src ++ drop n dst

-- The two writes of a push: the size and the bytes.
abbrev pub fill : Node → List ℕ → ℕ → Node
fill n packet size = record n { size = size; bytes = memcpy n.bytes packet size }

-- The node that a push writes to.
unfoldable pub target : XskyQueue → Option ℕ
target q =
    if q.have == 0 then q.list else elim q.end [ none ↦ none | some e ↦ (node_at q.nodes e).next ]

abbrev pub enqueue : XskyQueue → List ℕ → ℕ → ℕ → XskyQueue
enqueue q packet size tmp = record q {
  begin = if q.have == 0 then some tmp else q.begin;
  end = some tmp;
  have = q.have + 1;
  nodes = set q.nodes tmp (fill (node_at q.nodes tmp) packet size);
}

unfoldable pub push : XskyQueue → List ℕ → ℕ → Option (PushStatus × XskyQueue)
unfolding target
push q packet size =
    if ltb xsky_mtu size
    then some (too_big, q)
    else if q.size == q.have
    then some (full, q)
    else elim (target q) [ none ↦ none | some tmp ↦ some (pushed, enqueue q packet size tmp) ]

-- The node stays in the ring: the caller reads it after the pop. Without one the result is NULL.
unfoldable pub pop : XskyQueue → Option (Option ℕ × XskyQueue)
pop q = if q.have == 0 then some (none, q) else elim q.begin [
  | none ↦ none
  | some tmp ↦ some (some tmp, record q { begin = (node_at q.nodes tmp).next; have = q.have - 1 })
]

unfoldable pub reset : XskyQueue → XskyQueue
reset q = record q { have = 0 }

-- The nodes that `xsky_queue_release` frees, in order: `size` rounds from `list` along `next`.
pub release_from : List Node → Option ℕ → ℕ → Option (List ℕ)
release_from ns p zero = some []
release_from ns none (suc k) = none
release_from ns (some a) (suc k) = elim (release_from ns (node_at ns a).next k) [
  | none ↦ none
  | some freed ↦ some (a ∷ freed)
]

pub release : XskyQueue → Option (List ℕ)
unfolding release_from
release q = release_from q.nodes q.list q.size
