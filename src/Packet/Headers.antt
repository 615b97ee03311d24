-- ===== src/Packet/Headers.antt =====
-- The headers that the program builds, byte for byte on the wire.
use cwnet.Base.{
  ℕ, ◌+◌, ◌-◌, ◌/◌, ◌%◌, ◌^◌, ◌<◌, ◌≡◌, refl, List, [], ◌∷◌, ◌++◌, arith, length, some, All, take,
}
use cwnet.Packet.{
  ByteOrder, big_endian, little_endian, bytes16, word16, calc_checksum, u32, udp_header, udp_bytes,
  ip_header, ip_header_blank, ip_bytes, htons, IpHeader,
}
use cwnet.Packet.Checksum.{IsWord, memory_words, twice_length, total, calc_checksum_verifies}

-- The UDP header of a datagram with `size` bytes of data, less than 65536 with the header, under
-- either byte order: the ports 4711 and 69, the length and no checksum.
pub udp_bytes-udp_header :
    (order : ByteOrder) (size : ℕ)
    → 8 + size < 2 ^ 16
    → udp_bytes order (udp_header order size)
      ≡ 0x12 ∷ 0x67 ∷ 0 ∷ 69 ∷ ((8 + size) / 256) ∷ ((8 + size) % 256) ∷ 0 ∷ 0 ∷ []
unfolding udp_bytes udp_header bytes16 htons
udp_bytes-udp_header big_endian size h = ground arith
udp_bytes-udp_header little_endian size h = ground arith

-- The words of the IP header around its checksum.
words_before : ByteOrder → ℕ → List ℕ
words_before order size =
    word16 order 0x45 0 ∷ htons order (u32 (20 + size)) ∷ 0 ∷ 0 ∷ word16 order 255 17 ∷ []

words_after : ByteOrder → List ℕ
words_after order =
    word16 order 127 0 ∷ word16 order 0 1 ∷ word16 order 127 0 ∷ word16 order 0 99 ∷ []

htons-IsWord : (order : ByteOrder) (n : ℕ) → IsWord (htons order n)
unfolding htons
htons-IsWord big_endian n = omega arith
htons-IsWord little_endian n = omega arith

words_before-IsWord : (order : ByteOrder) (size : ℕ) → All IsWord (words_before order size)
unfolding words_before word16
words_before-IsWord big_endian size = omega (arith, htons-IsWord big_endian (u32 (20 + size)))
words_before-IsWord little_endian size = omega (arith, htons-IsWord little_endian (u32 (20 + size)))

words_after-IsWord : (order : ByteOrder) → All IsWord (words_after order)
unfolding words_after word16
words_after-IsWord big_endian = omega arith
words_after-IsWord little_endian = omega arith

words_total :
    (order : ByteOrder) (size : ℕ)
    → total (words_before order size) + total (words_after order) < 2 ^ 32 - 2 ^ 16
unfolding words_before words_after word16
words_total big_endian size = omega (arith, htons-IsWord big_endian (u32 (20 + size)))
words_total little_endian size = omega (arith, htons-IsWord little_endian (u32 (20 + size)))

abbrev with_sum : ByteOrder → ℕ → ℕ → IpHeader
with_sum order size sum = record (ip_header_blank order size) { ip_sum = sum }

-- The header in memory is those words.
ip_bytes_words :
    (order : ByteOrder) (size sum : ℕ)
    → ip_bytes order (with_sum order size sum)
      ≡ memory_words order (words_before order size ++ sum ∷ words_after order)
unfolding ip_bytes ip_header_blank words_before words_after word16 bytes16
ip_bytes_words big_endian size sum = refl
ip_bytes_words little_endian size sum = refl

words_length :
    (order : ByteOrder) (size sum : ℕ)
    → twice_length (words_before order size ++ sum ∷ words_after order) ≡ 20
unfolding words_before words_after
words_length order size sum = refl

ip_header-some :
    (order : ByteOrder) (size sum : ℕ)
    → calc_checksum order (ip_bytes order (with_sum order size 0)) 20 ≡ some sum
    → ip_header order size ≡ some (with_sum order size sum)
unfolding ip_header ip_header_blank
ip_header-some order size sum e = rw e

ip_bytes_front :
    (order : ByteOrder) (size sum : ℕ)
    → 20 + size < 2 ^ 16
    → (length (ip_bytes order (with_sum order size sum)) ≡ 20)
      × (take 4 (ip_bytes order (with_sum order size sum))
          ≡ 0x45 ∷ 0 ∷ ((20 + size) / 256) ∷ ((20 + size) % 256) ∷ [])
unfolding ip_bytes ip_header_blank bytes16 htons
ip_bytes_front big_endian size sum h = (refl, ground arith)
ip_bytes_front little_endian size sum h = (refl, ground arith)

-- The IP header of a packet: it exists, takes 20 bytes, begins with the version and the header's
-- length in words, carries the length of the packet, and sums up to zero under `calc_checksum`.
pub record IsIpHeader (order : ByteOrder) (size : ℕ) (bytes : List ℕ) : Type 0 where
  pub byte_count : length bytes ≡ 20
  pub front : take 4 bytes ≡ 0x45 ∷ 0 ∷ ((20 + size) / 256) ∷ ((20 + size) % 256) ∷ []
  pub verifies : calc_checksum order bytes 20 ≡ some 0

-- The IP header of a packet with `size` bytes of data, under either byte order: it is built, takes
-- 20 bytes, begins with the version and the header's length in words, carries the length of the
-- packet, which is less than 65536, and sums up to zero under `calc_checksum`.
pub ip_header-IsIpHeader :
    (order : ByteOrder) (size : ℕ)
    → 20 + size < 2 ^ 16
    → (h : IpHeader) × (ip_header order size ≡ some h) × IsIpHeader order size (ip_bytes order h)
ip_header-IsIpHeader order size fits =
    let (sum, blank, small, zero_sum) =
      calc_checksum_verifies order (words_before order size) (words_after order)
        (words_before-IsWord order size) (words_after-IsWord order) (words_total order size) in
    let (count, front) = ip_bytes_front order size sum fits in
    (
      with_sum order size sum,
      ip_header-some order size sum
          (rw (ip_bytes_words order size 0) (rw (words_length order size 0) at blank)),
      record {
        byte_count = count;
        front = front;
        verifies =
            rw (ip_bytes_words order size sum) (rw (words_length order size sum) at zero_sum);
      },
    )
