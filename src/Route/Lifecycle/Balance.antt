-- ===== src/Route/Lifecycle/Balance.antt =====
-- route/main.c: what the module holds after its start, and what its end gives back.
use xsky.Base.{ℕ, ◌+◌, ◌≡◌, List, [], ◌∷◌, ◌++◌, true, ◌==◌, if◌then◌else◌}
use xsky.Route.Queue.Run.{count_from}
use xsky.Route.Device.{queue_size}
use xsky.Route.Lifecycle.{Thing, buffer, Outcome, queue_things}

unfoldable code : Thing → ℕ
code Thing.region = 0
code Thing.cdev = 1
code Thing.class = 2
code Thing.node = 3
code Thing.hook = 4
code Thing.hook6 = 5
code Thing.poll = 6
code Thing.queue = 7
code (buffer n) = 8 + n

-- How often a thing stands in a list.
unfoldable pub count : Thing → List Thing → ℕ
unfolding code
count x [] = 0
count x (y ∷ ys) = (if code y == code x then 1 else 0) + count x ys

-- Every call that the module makes of the kernel when it starts succeeds.
pub record IsFine (o : Outcome) : Type 0 where
  pub region : o.region ≡ true
  pub cdev : o.cdev ≡ true
  pub class : o.class ≡ true
  pub node : o.node ≡ true
  pub hook : o.hook ≡ true
  pub hook6 : o.hook6 ≡ true
  pub memory : o.memory ≡ true

abbrev all_things : List Thing
all_things =
    (Thing.region ∷ Thing.cdev ∷ Thing.class ∷ Thing.node ∷ [])
    ++ ((Thing.hook ∷ Thing.hook6 ∷ []) ++ Thing.poll ∷ queue_things (count_from 0 queue_size))
