-- ===== src/Controller/Mmap/Open/Handles.antt =====
-- controller/mmap.cpp: what is held after any calls of `open` and `close`.
use xsky.Base.{ℕ, suc, ◌+◌, ◌≡◌, List, [], ◌∷◌, not, ◌&&◌, refl, arith, if◌then◌else◌, subst}
use xsky.Controller.Mmap.Open.{
  Outcome, State, fresh_state, held_file, held_mapping, held_view, close_map, open_map,
}

pub data Call : Type 0 where
  opens : Outcome → (contents : List ℕ) → (size : ℕ) → Call
  closes : Call

unfoldable pub step : State → Call → State
step s (opens o contents size) = (open_map o contents size s).1
step s closes = close_map s

unfoldable pub steps : State → List Call → State
steps s [] = s
steps s (c ∷ cs) = steps (step s c) cs

-- The calls that opened a file and then failed to map it.
unfoldable pub lost : List Call → ℕ
lost [] = 0
lost (closes ∷ cs) = lost cs
lost (opens o contents size ∷ cs) =
    let rest = lost cs in if o.file && not o.mapping then suc rest else rest

record IsHeld (s : State) (n : ℕ) : Type 0 where
  files : s.files ≡ n + held_file s.members.file
  mappings : s.mappings ≡ held_mapping s.members.mapping
  views : s.views ≡ held_view s.members.address

close-IsHeld : (s : State) (n : ℕ) → IsHeld s n → IsHeld (close_map s) n
unfolding close_map
close-IsHeld s n w = record {
  files = omega (arith, w.files);
  mappings = omega (arith, w.mappings);
  views = omega (arith, w.views);
}

open-IsHeld :
    (o : Outcome) (contents : List ℕ) (size : ℕ) (s : State) (n : ℕ)
    → IsHeld s n
    → IsHeld (open_map o contents size s).1 (if o.file && not o.mapping then suc n else n)
unfolding open_map close_map
open-IsHeld o contents size s n w = record {
  files = ground (arith, w.files);
  mappings = ground (arith, w.mappings);
  views = ground (arith, w.views);
}

steps-IsHeld : (s : State) (cs : List Call) (n : ℕ) → IsHeld s n → IsHeld (steps s cs) (n + lost cs)
unfolding steps step lost
steps-IsHeld s [] n w = subst (IsHeld s) (omega arith) w
steps-IsHeld s (closes ∷ cs) n w = steps-IsHeld (close_map s) cs n (close-IsHeld s n w)
steps-IsHeld s (opens o contents size ∷ cs) n w =
    let first = open-IsHeld o contents size s n w in
    let rest = steps-IsHeld (open_map o contents size s).1 cs _ first in
    subst (IsHeld (steps (open_map o contents size s).1 cs)) (ground arith) rest

-- After any calls of `open` and `close`, whichever of the system's calls succeed, and a last
-- `close`, the process holds no view and no mapping, and of files just those that were opened and
-- could not be mapped: each of these calls loses a handle.
pub steps_close :
    (cs : List Call)
    → let s = close_map (steps fresh_state cs) in
      (s.views ≡ 0) × (s.mappings ≡ 0) × (s.files ≡ lost cs)
unfolding close_map
steps_close cs =
    let start : IsHeld fresh_state 0 = record { files = refl; mappings = refl; views = refl } in
    let w = steps-IsHeld fresh_state cs 0 start in
    (omega (arith, w.views), omega (arith, w.mappings), omega (arith, w.files))
