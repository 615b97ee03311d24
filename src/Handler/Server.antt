-- ===== src/Handler/Server.antt =====
-- The other end of the line, for comparison: what a TFTP server gets from the frames that the
-- handler has written, and the numbers that it acknowledges.
use cwnet.Base.{
  ℕ, zero, suc, ◌+◌, ◌*◌, ◌/◌, ◌%◌, ◌^◌, ◌≡◌, ◌<◌, refl, ap, sym, ◌∙◌, List, [], ◌∷◌, ◌++◌,
  if◌then◌else◌, ◌==◌, length, drop, arith, append_assoc, append-nil, Bool-cases, inl, inr, false,
}
use cwnet.Slip.{slip_end, slip_escaped_end, slip_esc}
use cwnet.Slip.Spec.{encode, encode-nil, encode-cons, escape}
use cwnet.Net.Frame.{slip_frame}
use cwnet.Net.Build.{udp_datagram}
use cwnet.Net.State.{System}
use cwnet.Net.Send.{IsPacket}
use cwnet.Net.Request.{request_packet, data_packet}
use cwnet.Handler.Reliable.{Block}

-- A decoder of SLIP, up to the end marker.
pub unframe : List ℕ → List ℕ
unframe [] = []
unframe (x ∷ []) = if x == slip_end then [] else x ∷ []
unframe (x ∷ y ∷ rest) =
    let plain = unframe (y ∷ rest) in
    let behind = unframe rest in
    if x == slip_end
    then []
    else if x == slip_esc
    then (if y == slip_escaped_end then slip_end else slip_esc) ∷ behind
    else x ∷ plain

unframe_end : (rest : List ℕ) → unframe (slip_end ∷ rest) ≡ []
unfolding unframe
unframe_end [] = refl
unframe_end (y ∷ rest) = refl

unframe_plain :
    (x : ℕ) (rest : List ℕ)
    → (x == slip_end) ≡ false
    → (x == slip_esc) ≡ false
    → unframe (x ∷ rest) ≡ x ∷ unframe rest
unfolding unframe
unframe_plain x [] e f = rw e
unframe_plain x (y ∷ rest) e f = rw (e, f)

unframe-escape : (x : ℕ) (rest : List ℕ) → unframe (escape x ++ rest) ≡ x ∷ unframe rest
unframe-escape x rest = elim (Bool-cases (x == slip_end)) [
  | inl e ↦
      let same : slip_end ≡ x = ground arith in
      rw e (unfold unframe in ap (λ y. y ∷ unframe rest) same)
  | inr e ↦ elim (Bool-cases (x == slip_esc)) [
    | inl f ↦
        let same : slip_esc ≡ x = ground arith in
        rw (e, f) (unfold unframe in ap (λ y. y ∷ unframe rest) same)
    | inr f ↦ rw (e, f) (unframe_plain x rest e f)
  ]
]

pub unframe-encode : (xs rest : List ℕ) → unframe (encode xs ++ slip_end ∷ rest) ≡ xs
unframe-encode [] rest = ap (λ c. unframe (c ++ slip_end ∷ rest)) encode-nil ∙ unframe_end rest
unframe-encode (x ∷ xs) rest =
    ap (λ c. unframe (c ++ slip_end ∷ rest)) (encode-cons x xs)
    ∙ ap unframe (append_assoc (escape x) (encode xs) (slip_end ∷ rest))
    ∙ unframe-escape x (encode xs ++ slip_end ∷ rest)
    ∙ ap (◌∷◌ x) (unframe-encode xs rest)

drop_behind : (n k : ℕ) (xs ys : List ℕ) → n ≡ length xs + k → drop n (xs ++ ys) ≡ drop k ys
drop_behind n k [] ys e = let same : n ≡ k = omega (arith, e) in ap (λ m. drop m ys) same
drop_behind zero k (x ∷ xs) ys e = absurd (omega (arith, e))
drop_behind (suc n) k (x ∷ xs) ys e = drop_behind n k xs ys (omega (arith, e))

-- The TFTP packet of a frame, behind the headers of IP and UDP.
pub tftp_of : List ℕ → List ℕ
tftp_of frame = drop 28 (unframe frame)

tftp_of-slip_frame :
    (sys : System) (tftp packet : List ℕ)
    → IsPacket sys tftp packet
    → tftp_of (slip_frame packet) ≡ tftp
unfolding tftp_of udp_datagram
tftp_of-slip_frame sys tftp packet ok =
    ap (drop 28) (unframe-encode packet [] ∙ ok.packet_eq)
    ∙ drop_behind 28 8 ok.header (udp_datagram tftp) (omega (arith, ok.header_ok.byte_count))

-- What a TFTP packet brings: a block, if it is a data packet.
abbrev pub blocks_in : List ℕ → List Block
blocks_in [] = []
blocks_in (z ∷ []) = []
blocks_in (z ∷ op ∷ []) = []
blocks_in (z ∷ op ∷ hi ∷ []) = []
blocks_in (z ∷ op ∷ hi ∷ lo ∷ payload) =
    if op == 3 then record { number = hi * 256 + lo; payload = payload } ∷ [] else []

-- The number that is acknowledged: that of the block, or 0 for a request.
abbrev pub number_in : List ℕ → ℕ
number_in [] = 0
number_in (z ∷ []) = 0
number_in (z ∷ op ∷ []) = 0
number_in (z ∷ op ∷ hi ∷ []) = 0
number_in (z ∷ op ∷ hi ∷ lo ∷ payload) = if op == 3 then hi * 256 + lo else 0

-- All the blocks that the frames bring, and the number that the last one asks to be acknowledged.
pub received : List (List ℕ) → List Block
received [] = []
received (f ∷ fs) = blocks_in (tftp_of f) ++ received fs

pub last_number : List (List ℕ) → ℕ
last_number [] = 0
last_number (f ∷ []) = number_in (tftp_of f)
last_number (f ∷ g ∷ fs) = last_number (g ∷ fs)

received-append :
    (fs : List (List ℕ)) (f : List ℕ)
    → received (fs ++ f ∷ []) ≡ received fs ++ blocks_in (tftp_of f)
unfolding received
received-append [] f = append-nil (blocks_in (tftp_of f))
received-append (g ∷ fs) f =
    ap (◌++◌ (blocks_in (tftp_of g))) (received-append fs f)
    ∙ sym (append_assoc (blocks_in (tftp_of g)) (received fs) (blocks_in (tftp_of f)))

last_number-append :
    (fs : List (List ℕ)) (f : List ℕ) → last_number (fs ++ f ∷ []) ≡ number_in (tftp_of f)
unfolding last_number
last_number-append [] f = refl
last_number-append (g ∷ []) f = refl
last_number-append (g ∷ h ∷ fs) f = last_number-append (h ∷ fs) f

request_blocks : (name : List ℕ) → blocks_in (request_packet 2 name) ≡ []
unfolding request_packet
request_blocks [] = refl
request_blocks (a ∷ []) = refl
request_blocks (a ∷ b ∷ rest) = refl

request_number : (name : List ℕ) → number_in (request_packet 2 name) ≡ 0
unfolding request_packet
request_number [] = refl
request_number (a ∷ []) = refl
request_number (a ∷ b ∷ rest) = refl

module _ (sys : System) (fs : List (List ℕ)) (packet : List ℕ) where
  pub received_request :
      (name : List ℕ)
      → IsPacket sys (request_packet 2 name) packet
      → (received (fs ++ slip_frame packet ∷ []) ≡ received fs)
        × (last_number (fs ++ slip_frame packet ∷ []) ≡ 0)
  received_request name ok =
      let inner = tftp_of-slip_frame sys (request_packet 2 name) packet ok in
      (
        received-append fs (slip_frame packet)
            ∙ ap (◌++◌ (received fs)) (ap blocks_in inner ∙ request_blocks name)
            ∙ append-nil (received fs),
        last_number-append fs (slip_frame packet) ∙ ap number_in inner ∙ request_number name,
      )

  pub received_data :
      (k : ℕ) (payload : List ℕ)
      → k < 2 ^ 16
      → IsPacket sys (data_packet k payload) packet
      → (received (fs ++ slip_frame packet ∷ [])
          ≡ received fs ++ (record { number = k; payload = payload }) ∷ [])
        × (last_number (fs ++ slip_frame packet ∷ []) ≡ k)
  unfolding data_packet
  received_data k payload small ok =
      let inner = tftp_of-slip_frame sys (data_packet k payload) packet ok in
      let e : k / 256 * 256 + k % 256 ≡ k = omega arith in
      (
        received-append fs (slip_frame packet)
            ∙ ap (λ t. received fs ++ blocks_in t) inner
            ∙ ap (λ n. received fs ++ (record { number = n; payload = payload }) ∷ []) e,
        last_number-append fs (slip_frame packet) ∙ ap number_in inner ∙ e,
      )
