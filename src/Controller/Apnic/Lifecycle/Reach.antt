-- ===== src/Controller/Apnic/Lifecycle/Reach.antt =====
-- controller/apnic.cpp: which indices are within the two maps, and when.
use xsky.Base.{
  ℕ, zero, suc, ◌/◌, ◌^◌, ◌<◌, ◌≤◌, ◌≡◌, ◌≢◌, refl, sym, List, [], ◌∷◌, ◌++◌, Bool, true, false,
  none, some, length, replicate, All, IsByte, append-All, take-All, arith, length-replicate,
  length-append, length-take, if◌then◌else◌, subst,
}
use xsky.Controller.Mmap.{Mmap}
use xsky.Controller.Mmap.Open.{Outcome, State, open_map, close_map, mapped_size, view_of, bits}
use xsky.Controller.Mmap.Laws.{read-within, read_null, write_null}
use xsky.Controller.Apnic.{
  Apnic, Addresses, marker, index4, is_cn4, is_cn6, mark, sync_line, ipv4_size, ipv6_size,
}
use xsky.Controller.Apnic.Marks.{IsReady, parse_line-format, sync_line-ipv4}
use xsky.Controller.Apnic.Lifecycle.{Maps, apnic_of, init, close4, close6, tell, release}

replicate-bytes : (n : ℕ) → All IsByte (replicate n 0)
replicate-bytes zero = tt
replicate-bytes (suc n) = (omega arith, replicate-bytes n)

contents_of : Bool → List ℕ → List ℕ
contents_of b contents = if b then contents else []

contents_of-bytes :
    (b : Bool) (contents : List ℕ) → All IsByte contents → All IsByte (contents_of b contents)
unfolding contents_of
contents_of-bytes true contents w = w
contents_of-bytes false contents w = tt

-- A map of a size that 32 bits hold has that size, and holds bytes.
view_of-length :
    (b : Bool) (contents : List ℕ) (size : ℕ)
    → 0 < size
    → size < 2 ^ 32
    → All IsByte contents
    → All IsByte (view_of b contents size).address
      × (length (view_of b contents size).address ≡ size)
unfolding view_of mapped_size contents_of
view_of-length b contents size pos lt w =
    let bytes = contents_of b contents in
    let same : mapped_size bytes size ≡ size = ground (arith, pos, lt) in
    (
      take-All IsByte (mapped_size bytes size) _ (
          append-All IsByte bytes _ (contents_of-bytes b contents w)
            (replicate-bytes (mapped_size bytes size))),
      omega (
        arith,
        same,
        length-take (mapped_size bytes size) (bytes ++ replicate (mapped_size bytes size) 0),
        length-append bytes (replicate (mapped_size bytes size) 0),
        length-replicate {A = ℕ} (mapped_size bytes size) 0,
      ),
    )

index4-within : (a : Apnic) → IsReady a → (ip : ℕ) → index4 ip / 8 < length a.ipv4.address
unfolding index4
index4-within a w ip = omega (arith, w.size4)

-- What `open` gives where both calls on the mapping succeed.
abbrev IsMapped : Outcome → Type 0
IsMapped o = (o.mapping ≡ true) × (o.view ≡ true)

opened-bits :
    (o : Outcome) (contents : List ℕ) (size : ℕ) (s : State)
    → IsMapped o
    → bits (open_map o contents size s).1.members.address ≡ view_of o.file contents size
unfolding open_map
opened-bits o contents size s w = rw (w.0, w.1) refl

module _ (o4 o6 : Outcome) (file4 file6 : List ℕ) (m : Maps) (w4 : IsMapped o4) (w6 : IsMapped o6)
    (b4 : All IsByte file4) (b6 : All IsByte file6) where
  init-IsReady : IsReady (apnic_of (init o4 o6 file4 file6 m))
  unfolding init
  init-IsReady =
      let e4 = opened-bits o4 file4 ipv4_size m.ipv4 w4 in
      let e6 = opened-bits o6 file6 ipv6_size m.ipv6 w6 in
      let v4 = view_of-length o4.file file4 ipv4_size (omega arith) (omega arith) b4 in
      let v6 = view_of-length o6.file file6 ipv6_size (omega arith) (omega arith) b6 in
      record {
        bytes4 = subst (λ (x : Mmap). All IsByte x.address) (sym e4) v4.0;
        bytes6 = subst (λ (x : Mmap). All IsByte x.address) (sym e6) v6.0;
        size4 = subst (λ (x : Mmap). 2 ^ 13 ≤ length x.address) (sym e4) (omega (arith, v4.1));
        size6 = subst (λ (x : Mmap). 2 ^ 29 ≤ length x.address) (sym e6) (omega (arith, v6.1));
      }

  -- Where both mappings and their views succeed, whatever bytes the two files held: after `init` the
  -- byte of every IPv4 address and of every 32-bit word of an IPv6 address is within its map, and
  -- every lookup returns.
  pub init_lem :
      let a = apnic_of (init o4 o6 file4 file6 m) in
      ((ip : ℕ) → index4 ip / 8 < length a.ipv4.address)
      × ((ip : ℕ) → (b : Bool) × (is_cn4 a ip ≡ some b))
      × ((word : ℕ) → word < 2 ^ 32 → word / 8 < length a.ipv6.address)
      × ((word : ℕ) → word < 2 ^ 32 → (b : Bool) × (is_cn6 a word ≡ some b))
  unfolding is_cn4 is_cn6
  init_lem =
      let a = apnic_of (init o4 o6 file4 file6 m) in
      let w = init-IsReady in
      let in4 = λ (ip : ℕ). index4-within a w ip in
      let in6 : (word : ℕ) → word < 2 ^ 32 → word / 8 < length a.ipv6.address =
        λ word lt. omega (arith, w.size6, lt) in
      (
        in4,
        (λ ip. read-within a.ipv4 (index4 ip) (in4 ip)),
        in6,
        (λ word lt. read-within a.ipv6 word (in6 word lt)),
      )

  -- `release` closes the two maps before it tells the thread to stop. A line for an IPv4 network of
  -- China whose address parses is taken by a thread that runs while the maps are open; the thread
  -- that takes it behind the first call of `release` is not told yet, and writes through NULL. No
  -- lookup returns from then on.
  pub released_early :
      (asio : Addresses) (ip rest : List ℕ) (n : ℕ)
      → All (λ c. c ≢ b'|') ip
      → asio.to_uint ip ≡ some n
      → let started = init o4 o6 file4 file6 m in
        let line = marker ++ b'4' ∷ b'|' ∷ (ip ++ b'|' ∷ rest) in
        ((a : Apnic) × (sync_line asio (apnic_of started) line ≡ some a))
        × ((close4 started).is_exit ≡ false)
        × (sync_line asio (apnic_of (close4 started)) line ≡ none)
        × ((x : ℕ) → is_cn4 (apnic_of (release started)) x ≡ none)
        × ((x : ℕ) → is_cn6 (apnic_of (release started)) x ≡ none)
  unfolding init close4 close6 tell release close_map is_cn4 is_cn6 sync_line mark
  released_early asio ip rest n free parses =
      let started = init o4 o6 file4 file6 m in
      let (a, run, ready, four, six) =
        sync_line-ipv4 asio (apnic_of started) ip rest n init-IsReady free parses in
      (
        (a, run),
        refl,
        rw (sync_line, parse_line-format b'4' ip rest free, mark, parses, write_null) refl,
        (λ x. read_null (index4 x)),
        (λ x. read_null x),
      )
