-- ===== src/Route/Lifecycle/Tests.antt =====
-- route/main.c: the theorems on the start and the end of the module at concrete outcomes.
use xsky.Base.{true, arith}
use xsky.Route.Queue.{XskyQueue}
use xsky.Route.Queue.Ring.{init-IsValid}
use xsky.Route.Device.{queue_size}
use xsky.Route.Lifecycle.{Outcome}

abbrev fine : Outcome
fine = record {
  region = true;
  errno = 0;
  cdev = true;
  class = true;
  node = true;
  hook = true;
  hook6 = true;
  memory = true;
}

-- The queue as it is made.
abbrev made : XskyQueue
made = (init-IsValid queue_size (omega arith)).0
