-- ===== src/Packet.antt =====
-- netio.c, the UDP and IP layers on blocks of bytes: the headers of netio.h as they lie in memory,
-- `calc_checksum`, and what `create_udp_packet`, `create_ip_packet`, `get_data_from_udp_packet` and
-- `get_data_from_ip_packet` copy. The byte order of the machine is a parameter.
pub mod Order
pub mod Checksum
pub mod Copy
pub mod Headers
use cwnet.Base.{
  ℕ, zero, suc, ◌+◌, ◌-◌, ◌*◌, ◌/◌, ◌%◌, ◌^◌, List, [], ◌∷◌, ◌++◌, Option, none, some, ◌>>=◌,
  get_elem?, length, take, drop, memcpy, leb, if◌then◌else◌,
}
use cwnet.Slip.{Buffer}

pub data ByteOrder : Type 0 where
  big_endian little_endian : ByteOrder

abbrev pub u16 : ℕ → ℕ
u16 n = n % 2 ^ 16

abbrev pub u32 : ℕ → ℕ
u32 n = n % 2 ^ 32

-- The two bytes of a USHORT in memory, and the USHORT at two bytes.
unfoldable pub bytes16 : ByteOrder → ℕ → List ℕ
bytes16 big_endian n = n / 256 ∷ n % 256 ∷ []
bytes16 little_endian n = n % 256 ∷ n / 256 ∷ []

unfoldable pub word16 : ByteOrder → ℕ → ℕ → ℕ
word16 big_endian a b = a * 256 + b
word16 little_endian a b = a + b * 256

-- `htons` and `ntohs` of the standard library.
unfoldable pub htons : ByteOrder → ℕ → ℕ
htons big_endian n = u16 n
htons little_endian n = u16 n % 256 * 256 + u16 n / 256

abbrev pub ntohs : ByteOrder → ℕ → ℕ
ntohs = htons

abbrev pub load16 : ByteOrder → List ℕ → ℕ → Option ℕ
load16 order block p = do
  a ← get_elem? block p
  b ← get_elem? block (p + 1)
  some (word16 order a b)

-- The loop of `calc_checksum`: `i` bytes left, `p` the index of the next one.
sum_words : ByteOrder → List ℕ → ℕ → ℕ → ℕ → Option ℕ
sum_words order bytes zero p sum = some sum
sum_words order bytes (suc zero) p sum = get_elem? bytes p >>= λ b. some (u32 (sum + b))
sum_words order bytes (suc (suc i)) p sum = do
  w ← load16 order bytes p
  sum_words order bytes i (p + 2) (u32 (sum + w))

-- The carries folded in, and the complement truncated to 16 bits.
pub fold_sum : ℕ → ℕ
fold_sum sum =
    let folded = u32 (sum / 2 ^ 16 + sum % 2 ^ 16) in
    let carried = u32 (folded + folded / 2 ^ 16) in 2 ^ 16 - 1 - u16 carried

unfoldable pub calc_checksum : ByteOrder → List ℕ → ℕ → Option ℕ
unfolding sum_words fold_sum
calc_checksum order bytes len = do sum ← sum_words order bytes len 0 0; some (fold_sum sum)

pub record UdpHeader : Type 0 where
  pub uh_sport : ℕ
  pub uh_dport : ℕ
  pub uh_ulen : ℕ
  pub uh_sum : ℕ

unfoldable pub udp_bytes : ByteOrder → UdpHeader → List ℕ
unfolding bytes16
udp_bytes order h =
    bytes16 order h.uh_sport
    ++ (bytes16 order h.uh_dport ++ (bytes16 order h.uh_ulen ++ bytes16 order h.uh_sum))

pub record IpHeader : Type 0 where
  pub ip_v : ℕ
  pub ip_hl : ℕ
  pub ip_tos : ℕ
  pub ip_len : ℕ
  pub ip_id : ℕ
  pub ip_off : ℕ
  pub ip_ttl : ℕ
  pub ip_p : ℕ
  pub ip_sum : ℕ
  pub ip_src : List ℕ
  pub ip_dst : List ℕ

-- The bit fields of the first byte are declared so that the version is in its upper half under
-- either byte order.
unfoldable pub ip_bytes : ByteOrder → IpHeader → List ℕ
unfolding bytes16
ip_bytes order h =
    (h.ip_v * 16 + h.ip_hl)
    ∷ h.ip_tos
    ∷ (bytes16 order h.ip_len
        ++ (bytes16 order h.ip_id
            ++ (bytes16 order h.ip_off
                ++ (h.ip_ttl ∷ h.ip_p ∷ (bytes16 order h.ip_sum ++ (h.ip_src ++ h.ip_dst))))))

abbrev pub udp_hdr_len : ℕ
udp_hdr_len = 8

abbrev pub ip_hdr_len : ℕ
ip_hdr_len = 20

-- The header that `create_udp_packet` builds for `size` bytes of data.
unfoldable pub udp_header : ByteOrder → ℕ → UdpHeader
unfolding htons
udp_header order size = record {
  uh_sport = htons order 4711;
  uh_dport = htons order 69;
  uh_ulen = htons order (u32 (udp_hdr_len + size));
  uh_sum = 0;
}

-- The header that `create_ip_packet` builds, before and after its checksum is set.
unfoldable pub ip_header_blank : ByteOrder → ℕ → IpHeader
unfolding htons
ip_header_blank order size = record {
  ip_v = 4;
  ip_hl = ip_hdr_len / 4;
  ip_tos = 0;
  ip_len = htons order (u32 (ip_hdr_len + size));
  ip_id = 0;
  ip_off = 0;
  ip_ttl = 255;
  ip_p = 17;
  ip_sum = 0;
  ip_src = 127 ∷ 0 ∷ 0 ∷ 1 ∷ [];
  ip_dst = 127 ∷ 0 ∷ 0 ∷ 99 ∷ [];
}

unfoldable pub ip_header : ByteOrder → ℕ → Option IpHeader
ip_header order size = do
  sum ← calc_checksum order (ip_bytes order (ip_header_blank order size)) ip_hdr_len
  some (record (ip_header_blank order size) { ip_sum = sum })

-- A header and the data copied to the block of a packet.
unfoldable pub put_packet : List ℕ → Buffer → Buffer → Option Buffer
unfolding memcpy
put_packet hdr pkt payload = do
  with_header ← memcpy pkt.b_addr 0 hdr 0 (length hdr)
  filled ← memcpy with_header (length hdr) payload.b_addr 0 payload.b_size
  some (record { b_addr = filled; b_size = u32 (length hdr + payload.b_size) })

-- The bytes behind a header of `len` bytes copied to the block of the data; the subtraction is that
-- of ULONGs.
unfoldable pub get_payload : ℕ → Buffer → Buffer → Option Buffer
unfolding memcpy
get_payload len payload pkt =
    let size = u32 (pkt.b_size + 2 ^ 32 - len) in
    memcpy payload.b_addr 0 pkt.b_addr len size >>= λ filled.
    some (record { b_addr = filled; b_size = size })
