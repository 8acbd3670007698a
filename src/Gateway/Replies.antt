-- ===== src/Gateway/Replies.antt =====
-- server/main.c: the answer of `skb_recv_dns`.
use xsky.Base.{ℕ, ◌+◌, ◌*◌, ◌%◌, ◌^◌, List, ◌∷◌, ◌≡◌, ◌≤◌, ◌<◌, length, Endian, ntohs, byte_at}
use xsky.Gateway.Packet.{SkBuff}
use xsky.Gateway.Handle.{load32}

-- The 16-bit field of a message in network order.
abbrev field : List ℕ → ℕ → ℕ
field bs i = byte_at bs i * 256 + byte_at bs (i + 1)

-- What a resolver expects of the answer to a query, where the device has the address `local_ip`.
pub record Answers (e : Endian) (local_ip : ℕ) (query answer : SkBuff) : Type 0 where
  pub back : (answer.saddr ≡ query.daddr) × (answer.daddr ≡ query.saddr)
  pub ports : (answer.source ≡ query.dest) × (answer.dest ≡ query.source)
  pub size : length answer.payload ≡ length query.payload + 16
  pub udp_len : ntohs e answer.len ≡ (ntohs e query.len + 16) % 2 ^ 16
  pub ip_len : ntohs e answer.tot_len ≡ (ntohs e query.tot_len + 16) % 2 ^ 16
  pub flags : field answer.payload 2 ≡ 0x8580
  pub ancount : field answer.payload 6 ≡ 1
  pub tid : field answer.payload 0 ≡ field query.payload 0
  pub qdcount : field answer.payload 4 ≡ field query.payload 4
  pub question :
      (i : ℕ)
      → 8 ≤ i
      → i < length query.payload
      → byte_at answer.payload i ≡ byte_at query.payload i
  pub address : load32 e answer.payload (length query.payload + 12) ≡ local_ip

-- A message of at least eight bytes, cut behind them.
record Header (m : List ℕ) : Type 0 where
  a : ℕ
  b : ℕ
  c : ℕ
  d : ℕ
  f : ℕ
  g : ℕ
  h : ℕ
  i : ℕ
  rest : List ℕ
  parts : m ≡ a ∷ b ∷ c ∷ d ∷ f ∷ g ∷ h ∷ i ∷ rest
