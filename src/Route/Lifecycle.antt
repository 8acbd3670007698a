-- ===== src/Route/Lifecycle.antt =====
-- route/main.c, `create_dev`, `delete_dev`, `xsky_init` and `xsky_exit`: what the module takes from
-- the kernel and gives back.
pub mod Balance
mod Tests
use xsky.Base.{
  ℕ, zero, suc, ◌+◌, List, [], ◌∷◌, ◌++◌, map, Bool, true, false, not, ◌&&◌, Option, none, some,
  ◌==◌, if◌then◌else◌,
}
use xsky.Route.Queue
use xsky.Route.Queue.{XskyQueue}
use xsky.Route.Queue.Run.{count_from}
use xsky.Route.Device.{queue_size}

-- What the module holds. `buffer` is one of the packet queue, by its number.
pub data Thing : Type 0 where
  region cdev class node hook hook6 poll queue : Thing
  buffer : ℕ → Thing

-- Which calls of the kernel succeed. `errno` is the error number of `alloc_chrdev_region`.
pub record Outcome : Type 0 where
  pub region : Bool
  pub errno : ℕ
  pub cdev : Bool
  pub class : Bool
  pub node : Bool
  pub hook : Bool
  pub hook6 : Bool
  pub memory : Bool

-- 0, minus an error number, or -1.
pub data Ret : Type 0 where
  ok minus_one : Ret
  err : ℕ → Ret

abbrev when : Bool → Thing → List Thing
when b x = if b then x ∷ [] else []

-- The result, and what is held then. Only the first and the third call are tested.
pub create_dev : Outcome → Ret × List Thing
create_dev o =
    let added = Thing.region ∷ when o.cdev Thing.cdev in
    if not o.region
    then (err o.errno, [])
    else if not o.class
    then (minus_one, added)
    else (ok, added ++ Thing.class ∷ when o.node Thing.node)

-- What is given back, in order.
pub delete_dev : List Thing
delete_dev = Thing.cdev ∷ Thing.node ∷ Thing.class ∷ Thing.region ∷ []

-- The queue's header and its buffers.
pub queue_things : List ℕ → List Thing
queue_things buffers = Thing.queue ∷ map buffer buffers

-- What `xsky_init` does behind `create_dev`. The result of the registrations is not looked at; `none`
-- is a crash: a failed allocation is written through.
pub finish : Outcome → Ret × List Thing → Option (Ret × List Thing)
finish o (ok, held) =
    let hooks = when o.hook Thing.hook ++ when o.hook6 Thing.hook6 in
    let rest = Thing.poll ∷ queue_things (count_from 0 queue_size) in
    if o.memory then some (ok, held ++ (hooks ++ rest)) else none
finish o (minus_one, held) = some (minus_one, held)
finish o (err e, held) = some (err e, held)

pub xsky_init : Outcome → Option (Ret × List Thing)
xsky_init o = finish o (create_dev o)

-- With the packet queue as it is then: what is given back, in order. `none` is a read through NULL.
pub xsky_exit : XskyQueue → Option (List Thing)
xsky_exit q = elim (Queue.release q) [
  | none ↦ none
  | some freed ↦
      some (
        delete_dev
        ++ Thing.hook ∷ Thing.hook6 ∷ (map buffer freed ++ Thing.queue ∷ Thing.poll ∷ []))
]
