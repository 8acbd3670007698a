-- ===== src/Sky/Lifecycle.antt =====
-- server/server.c: the module's start and end, the character device, and what both hold of the
-- kernel.
pub mod Pages
pub mod Doubled
mod Tests
use xsky.Base.{
  ℕ, zero, suc, ◌+◌, ◌-◌, ◌*◌, ◌%◌, ◌^◌, List, [], ◌∷◌, Bool, true, false, Option, none, some,
  length, get_or, ◌==◌, if◌then◌else◌, arith,
}
use xsky.Base.Kernel.{Verdict, nf_drop, nf_accept}
use xsky.Sky.Data.{Pair, SkyData}
use xsky.Sky.Table.{
  Page, Routes, empty_routes, bucket_of, fill_chain, insert_half, insert_route_sky, swapped,
  remove_route_sky,
}
use xsky.Sky.Table.Shape.{fresh}
use xsky.Sky.RouteHook.{Packet, Checksums, route_pre_routing_sky}

-- `device_sky`, the registrations of the two arrays of hooks, and how many pages of routes `vzalloc`
-- has given that `vfree` has not taken back. The Booleans say what the module has to give back;
-- `routes` is NULL, `none`, where the allocation of the buckets has failed.
pub record Host : Type 0 where
  pub device : Bool
  pub chrdev : Bool
  pub cls : Bool
  pub dev : Bool
  pub server_hooks : Bool
  pub route_hooks : ℕ
  pub servers : ℕ
  pub routes : Option Routes
  pub pages : ℕ

-- Which calls of the kernel succeed in `sky_init`.
pub record Outcome : Type 0 where
  pub device : Bool
  pub memory : Bool
  pub chrdev : Bool
  pub cls : Bool
  pub dev : Bool
  pub hooks : Bool

-- What the module holds when `sky_init` is over. Without a class the kernel creates no device.
abbrev pub fresh_host : Outcome → Host
fresh_host o = record {
  device = true;
  chrdev = o.chrdev;
  cls = o.cls;
  dev = if o.cls then o.dev else false;
  server_hooks = o.hooks;
  route_hooks = 0;
  servers = 0;
  routes = if o.memory then some empty_routes else none;
  pages = 0;
}

-- `none` is a crash: the result of `kzalloc` is written through untested. Every other failure is
-- logged at most, and the result is 0.
pub sky_init : Outcome → Option (ℕ × Host)
sky_init o = if o.device then some (0, fresh_host o) else none

-- The `while` loop of `sky_exit` over a bucket: how many pages it frees.
pub free_bucket : List Page → ℕ
free_bucket [] = 0
free_bucket (page ∷ pages) = suc (free_bucket pages)

-- The `for` loop over the buckets.
pub free_pages : Routes → ℕ
free_pages [] = 0
free_pages (b ∷ bs) = free_bucket b + free_pages bs

-- What is left after the module's end. The calls on the class, the device and the hooks are made
-- whether there is one or not. `none` is a crash: the buckets are read through NULL.
pub sky_exit : Host → Option Host
sky_exit h = elim h.routes [
  | none ↦ none
  | some t ↦ some (record h {
    device = false;
    chrdev = false;
    cls = false;
    dev = false;
    server_hooks = false;
    routes = none;
    pages = h.pages - free_pages t;
  })
]

-- The result of the registration is not looked at.
pub file_open_sky : (registered : Bool) → Host → ℕ × Host
file_open_sky registered h =
    (0, record h { route_hooks = if registered then h.route_hooks + 1 else h.route_hooks })

pub file_read_sky : Host → ℕ × Host
file_read_sky h = (0, h)

pub file_write_sky : Host → ℕ × Host
file_write_sky h = (0, h)

-- `_IOW('d', 3, unsigned int)`
abbrev pub cmd_route_sky : ℕ
cmd_route_sky = 2 ^ 30 + 4 * 2 ^ 16 + 100 * 2 ^ 8 + 3

pub file_control_sky : Host → (cmd arg : ℕ) → ℕ × Host
file_control_sky h cmd arg =
    (0, record h { servers = if cmd == cmd_route_sky then arg % 2 ^ 32 else h.servers })

-- One registration is taken back, if there is one.
pub file_release_sky : Host → ℕ × Host
file_release_sky h = (0, record h { route_hooks = h.route_hooks - 1 })

-- How many pages `insert_route_sky` allocates.
pub allocated_half : Routes → Pair → ℕ
allocated_half t pair = fresh (get_or t (bucket_of pair.first) []) pair

pub allocated : Routes → Pair → ℕ
allocated t pair = allocated_half t pair + allocated_half (insert_half t pair) (swapped pair)

-- What happens between the start of the module and its end. The two last are what the hook of the
-- server does to the routes.
pub data Event : Type 0 where
  opened : (registered : Bool) → Event
  released reading writing : Event
  controlled : (cmd arg : ℕ) → Event
  inserted : Pair → Event
  removed : SkyData → Event

-- `none` is a crash: the routes are read through NULL.
pub step : Host → Event → Option Host
step h (opened registered) = some (file_open_sky registered h).1
step h released = some (file_release_sky h).1
step h reading = some (file_read_sky h).1
step h writing = some (file_write_sky h).1
step h (controlled cmd arg) = some (file_control_sky h cmd arg).1
step h (inserted pair) = elim h.routes [
  | none ↦ none
  | some t ↦
      some
        (record h { routes = some (insert_route_sky t pair); pages = h.pages + allocated t pair })
]
step h (removed d) = elim h.routes [
  | none ↦ none
  | some t ↦ some (record h { routes = some (remove_route_sky t d) })
]

pub steps : Host → List Event → Option Host
steps h [] = some h
steps h (e ∷ es) = elim (step h e) [ none ↦ none | some h' ↦ steps h' es ]

-- A packet runs through the hook once for each registration, until it is dropped.
pub run_route_hooks :
    (sums : Checksums) (here : List ℕ) (servers : ℕ) → ℕ → Packet → Option (Verdict × Packet)
run_route_hooks sums here servers zero skb = some (nf_accept, skb)
run_route_hooks sums here servers (suc n) skb = elim (route_pre_routing_sky sums here servers skb) [
  | none ↦ none
  | some (v, skb') ↦ elim v [
    | nf_accept ↦ run_route_hooks sums here servers n skb'
    | other ↦ some (other, skb')
  ]
]
