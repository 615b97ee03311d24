-- ===== src/Packet/Order.antt =====
-- The byte order of a value on the network does not depend on the machine.
use cwnet.Base.{ℕ, ◌+◌, ◌*◌, ◌/◌, ◌%◌, ◌^◌, ◌<◌, ◌≡◌, refl, [], ◌∷◌, arith, length}
use cwnet.Packet.{ByteOrder, big_endian, little_endian, bytes16, word16, htons, ntohs}

pub bytes16-htons :
    (order : ByteOrder) (n : ℕ)
    → n < 2 ^ 16
    → bytes16 order (htons order n) ≡ n / 256 ∷ n % 256 ∷ []
unfolding bytes16 htons
bytes16-htons big_endian n h = ground arith
bytes16-htons little_endian n h = ground arith

pub ntohs-word16 :
    (order : ByteOrder) (a b : ℕ) → a < 256 → b < 256 → ntohs order (word16 order a b) ≡ a * 256 + b
unfolding word16 htons
ntohs-word16 big_endian a b p q = omega arith
ntohs-word16 little_endian a b p q = omega arith

pub length-bytes16 : (order : ByteOrder) (n : ℕ) → length (bytes16 order n) ≡ 2
unfolding bytes16
length-bytes16 big_endian n = refl
length-bytes16 little_endian n = refl
