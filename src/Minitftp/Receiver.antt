-- ===== src/Minitftp/Receiver.antt =====
-- What a TFTP server makes of the data packets that it gets (RFC 1350), for comparison with what
-- minitftp.c sends.
use cwnet.Base.{
  ℕ, ◌+◌, ◌*◌, ◌/◌, ◌%◌, ◌^◌, ◌≡◌, ◌<◌, List, [], ◌∷◌, ◌++◌, Option, none, some, true, ◌>>=◌,
  if◌then◌else◌, ◌==◌, ◌&&◌, ltb, length, arith, lt→ltb, le→ltb, ◌≤◌,
}
use cwnet.Protocol.{tftp_max_data_size, op_data}
use cwnet.Packet.{ByteOrder}
use cwnet.Packet.Order.{bytes16-htons}
use cwnet.Net.Tftp.{data_header}

-- The bytes of the data packet with the number `n`.
pub payload_of : ℕ → List ℕ → Option (List ℕ)
payload_of n [] = none
payload_of n (a ∷ []) = none
payload_of n (a ∷ b ∷ []) = none
payload_of n (a ∷ b ∷ hi ∷ []) = none
payload_of n (a ∷ b ∷ hi ∷ lo ∷ bytes) =
    if a == 0 && (b == 3 && hi * 256 + lo == n) then some bytes else none

only : List ℕ → List (List ℕ) → Option (List ℕ)
only bytes [] = some bytes
only bytes (p ∷ ps) = none

-- The file in the packets from number `n` on, which the first short block ends.
unfoldable pub receive : ℕ → List (List ℕ) → Option (List ℕ)
unfolding payload_of only
receive n [] = none
receive n (p ∷ ps) = do
  bytes ← payload_of n p
  let longer = receive ((n + 1) % 2 ^ 16) ps >>= λ rest. some (bytes ++ rest)
  if ltb (length bytes) tftp_max_data_size then only bytes ps else longer

payload_of-data_header :
    (order : ByteOrder) (n : ℕ) (bytes : List ℕ)
    → n < 2 ^ 16
    → payload_of n (data_header order n ++ bytes) ≡ some bytes
unfolding data_header payload_of
payload_of-data_header order n bytes h =
    let number : n / 256 * 256 + n % 256 ≡ n = omega arith in
    let same : (n == n) ≡ true = ground arith in
    rw (bytes16-htons order op_data (omega arith), bytes16-htons order n h, number, same)

pub receive_last :
    (order : ByteOrder) (n : ℕ) (bytes : List ℕ)
    → n < 2 ^ 16
    → length bytes < tftp_max_data_size
    → receive n ((data_header order n ++ bytes) ∷ []) ≡ some bytes
unfolding receive
receive_last order n bytes h short =
    rw (payload_of-data_header order n bytes h, lt→ltb (length bytes) tftp_max_data_size short)

pub receive_next :
    (order : ByteOrder) (n : ℕ) (bytes rest : List ℕ) (ps : List (List ℕ))
    → n < 2 ^ 16
    → tftp_max_data_size ≤ length bytes
    → receive ((n + 1) % 2 ^ 16) ps ≡ some rest
    → receive n ((data_header order n ++ bytes) ∷ ps) ≡ some (bytes ++ rest)
unfolding receive
receive_next order n bytes rest ps h full e =
    rw (payload_of-data_header order n bytes h, le→ltb (length bytes) tftp_max_data_size full, e)
