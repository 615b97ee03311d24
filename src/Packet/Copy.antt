-- ===== src/Packet/Copy.antt =====
-- What the copies of a packet leave in the destination.
use cwnet.Base.{
  ℕ, ◌+◌, ◌-◌, ◌^◌, ◌≤◌, ◌<◌, ◌≡◌, refl, ap, ap₂, sym, ◌∙◌, List, [], ◌∷◌, ◌++◌, arith, length,
  take, drop, none, some, memcpy, length-append, length-take, length-drop, take-append, drop-append,
  take_all, zero, suc,
}
use cwnet.Packet.{put_packet, get_payload, u32}
use cwnet.Slip.{Buffer, max_buffer_size}
use cwnet.Slip.Encode.Whole.{contents, IsBlock}

take-append_ge : (n : ℕ) (xs ys : List ℕ) → n ≡ length xs → take n (xs ++ ys) ≡ xs
take-append_ge n xs ys e = rw e (take-append xs ys)

-- `memcpy` within both blocks: the destination up to the end of the copy, and its size.
pub memcpy_lem :
    (dst : List ℕ) (to : ℕ) (src : List ℕ) (from n : ℕ)
    → to + n ≤ length dst
    → from + n ≤ length src
    → (out : List ℕ) × (memcpy dst to src from n ≡ some out)
      × (length out ≡ length dst)
      × (take (to + n) out ≡ take to dst ++ take n (drop from src))
unfolding memcpy
memcpy_lem dst to src from n h k =
    let copied = take n (drop from src) in
    let front = take to dst ++ copied in
    let back = drop (to + n) dst in
    let a : length (take to dst) ≡ to = omega (arith, length-take to dst) in
    let b : length copied ≡ n =
      omega (arith, length-take n (drop from src), length-drop from src) in
    let c : length front ≡ to + n = omega (arith, length-append (take to dst) copied, a, b) in
    let assoc : front ++ back ≡ take to dst ++ copied ++ back = refl in
    (
      front ++ back,
      ground arith,
      omega (arith, length-append front back, length-drop (to + n) dst, c),
      take-append_ge (to + n) front back (sym c),
    )

take_nil : (k : ℕ) → take {A = ℕ} k [] ≡ []
take_nil zero = refl
take_nil (suc k) = refl

drop-take : (n m : ℕ) (xs : List ℕ) → drop n (take m xs) ≡ take (m - n) (drop n xs)
drop-take zero m xs = let e : m - zero ≡ m = omega arith in rw e
drop-take (suc n) zero [] = sym (take_nil (zero - suc n))
drop-take (suc n) zero (x ∷ xs) = let e : zero - suc n ≡ zero = omega arith in rw e
drop-take (suc n) (suc m) [] = sym (take_nil (suc m - suc n))
drop-take (suc n) (suc m) (x ∷ xs) =
    let e : suc m - suc n ≡ m - n = omega arith in rw e (drop-take n m xs)

-- A packet buffer with the given bytes in use.
pub record Holds (b : Buffer) (bytes : List ℕ) : Type 0 where
  pub block : IsBlock b
  pub bytes_eq : contents b ≡ bytes

pub Holds-size : (b : Buffer) (bytes : List ℕ) → Holds b bytes → b.b_size ≡ length bytes
Holds-size b bytes h =
    omega (
      arith,
      ap length h.bytes_eq,
      length-take b.b_size b.b_addr,
      h.block.block_size,
      h.block.in_use,
    )

-- With room for both in a packet buffer, the header and the data are copied to the packet one
-- behind the other.
pub put_packet-Holds :
    (hdr : List ℕ) (pkt payload : Buffer) (bytes : List ℕ)
    → length pkt.b_addr ≡ max_buffer_size
    → Holds payload bytes
    → length hdr + length bytes ≤ max_buffer_size
    → (r : Buffer) × (put_packet hdr pkt payload ≡ some r) × Holds r (hdr ++ bytes)
unfolding put_packet
put_packet-Holds hdr pkt payload bytes room h fits =
    let size = Holds-size payload bytes h in
    let (one, copy, same, front) =
      memcpy_lem pkt.b_addr 0 hdr 0 (length hdr) (omega arith) (omega arith) in
    let (two, copy', same', front') =
      memcpy_lem one (length hdr) payload.b_addr 0 payload.b_size (omega arith)
        (omega (arith, h.block.block_size, h.block.in_use)) in
    let total : u32 (length hdr + payload.b_size) ≡ length hdr + payload.b_size = omega arith in
    let zeroes : 0 + length hdr ≡ length hdr = omega arith in
    let header : take (length hdr) one ≡ hdr =
      (rw zeroes at front) ∙ take_all (length hdr) hdr (omega arith) in
    (
      record { b_addr = two; b_size = u32 (length hdr + payload.b_size) },
      rw (copy, copy'),
      record {
        block = record { block_size = same' ∙ same ∙ room; in_use = omega arith };
        bytes_eq = rw total (front' ∙ ap₂ ◌++◌ header h.bytes_eq);
      },
    )

get_payload-some :
    (len : ℕ) (payload pkt : Buffer) (size : ℕ) (out : List ℕ)
    → u32 (pkt.b_size + 2 ^ 32 - len) ≡ size
    → memcpy payload.b_addr 0 pkt.b_addr len size ≡ some out
    → get_payload len payload pkt ≡ some (record { b_addr = out; b_size = size })
unfolding get_payload
get_payload-some len payload pkt size out e copy = rw (e, copy)

-- From a packet of a header of `len` bytes and the rest, the rest is copied to the destination, a
-- packet buffer.
pub get_payload-Holds :
    (len : ℕ) (payload pkt : Buffer) (hdr rest : List ℕ)
    → length payload.b_addr ≡ max_buffer_size
    → Holds pkt (hdr ++ rest)
    → length hdr ≡ len
    → (r : Buffer) × (get_payload len payload pkt ≡ some r) × Holds r rest
get_payload-Holds len payload pkt hdr rest room h e =
    let size = Holds-size pkt (hdr ++ rest) h in
    let parts = length-append hdr rest in
    let small = h.block.in_use in
    let (out, copy, same, front) =
      memcpy_lem payload.b_addr 0 pkt.b_addr len (pkt.b_size - len) (omega arith)
        (omega (arith, h.block.block_size)) in
    let zeroes : 0 + (pkt.b_size - len) ≡ pkt.b_size - len = omega arith in
    let behind : drop len (hdr ++ rest) ≡ rest = rw (← e) (drop-append hdr rest) in
    (
      record { b_addr = out; b_size = pkt.b_size - len },
      get_payload-some len payload pkt (pkt.b_size - len) out (omega arith) copy,
      record {
        block = record { block_size = same ∙ room; in_use = omega arith };
        bytes_eq =
            ap (λ n. take n out) (sym zeroes)
            ∙ front
            ∙ sym (drop-take len pkt.b_size pkt.b_addr)
            ∙ ap (drop len) h.bytes_eq
            ∙ behind;
      },
    )

-- Where a packet is shorter than the header, the size of its data wraps round, and the copy leaves
-- the blocks.
pub get_payload_short :
    (len : ℕ) (payload pkt : Buffer)
    → len ≤ max_buffer_size
    → pkt.b_size < len
    → length payload.b_addr ≡ max_buffer_size
    → get_payload len payload pkt ≡ none
unfolding get_payload memcpy
get_payload_short len payload pkt small short room = ground arith
