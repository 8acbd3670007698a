-- ===== src/Controller/Apnic/Lifecycle.antt =====
-- controller/apnic.cpp, `apnic::init` and `apnic::release`: the two maps from their files to their
-- end.
pub mod Reach
use xsky.Base.{ℕ, List, Bool, true, false}
use xsky.Controller.Mmap.Open.{Outcome, State, bits, open_map, close_map}
use xsky.Controller.Apnic.{Apnic, ipv4_size, ipv6_size}

-- The maps, and `_exit`.
pub record Maps : Type 0 where
  pub ipv4 : State
  pub ipv6 : State
  pub is_exit : Bool

-- What the lookups and the thread of `sync` see.
abbrev pub apnic_of : Maps → Apnic
apnic_of m = record { ipv4 = bits m.ipv4.members.address; ipv6 = bits m.ipv6.members.address }

-- With the bytes of the two files. The results of `open` are not looked at.
unfoldable pub init : (o4 o6 : Outcome) → (file4 file6 : List ℕ) → Maps → Maps
init o4 o6 file4 file6 m = record {
  ipv4 = (open_map o4 file4 ipv4_size m.ipv4).1;
  ipv6 = (open_map o6 file6 ipv6_size m.ipv6).1;
  is_exit = false;
}

-- The calls of `release` in front of the one that waits for the thread, each a step of its own: the
-- thread runs on between them.
unfoldable pub close4 : Maps → Maps
close4 m = record m { ipv4 = close_map m.ipv4 }

unfoldable pub close6 : Maps → Maps
close6 m = record m { ipv6 = close_map m.ipv6 }

unfoldable pub tell : Maps → Maps
tell m = record m { is_exit = true }

pub release : Maps → Maps
release m = tell (close6 (close4 m))
