-- ===== src/Examples/Receiving.antt =====
-- A received frame at a concrete heap.
use cwnet.Base.{
  ℕ, zero, suc, ◌≡◌, refl, List, [], ◌∷◌, ◌++◌, none, some, true, if◌then◌else◌, ◌==◌, arith,
}
use cwnet.Slip.{Buffer}
use cwnet.Slip.Spec.{Codes, stop, plain}
use cwnet.Slip.Decode.Whole.{Frame}
use cwnet.Net.State.{Net}
use cwnet.Net.Laws.{IsFresh}
use cwnet.Net.Tftp.{extract_tftp_packet}
use cwnet.Net.Receive.{Extracted}
use cwnet.Net.Receive.Unpack.{extract_tftp_packet-Extracted}
use cwnet.Examples.{zeros, length-zeros}
use cwnet.Examples.Sending.{amiga, empty_net}

Codes-zeros : (n : ℕ) (c d : List ℕ) → Codes c d → Codes (zeros n ++ c) (zeros n ++ d)
Codes-zeros zero c d h = h
Codes-zeros (suc n) c d h =
    plain 0 (zeros n ++ c) (zeros n ++ d) (λ e. omega arith) (Codes-zeros n c d h)

-- An acknowledgement of block 1, with the end marker of the frame behind it.
abbrev ack : List ℕ
ack = 0 ∷ 4 ∷ 0 ∷ 1 ∷ 0xc0 ∷ []

ack-Codes : Codes ack ack
ack-Codes =
    plain 0 _ _ (λ e. omega arith)
      (plain 4 _ _ (λ e. omega arith)
        (plain 0 _ _ (λ e. omega arith)
          (plain 1 _ _ (λ e. omega arith) (plain 0xc0 _ _ (λ e. omega arith) stop))))

abbrev received : Buffer
received = record { b_addr = (zeros 20 ++ (zeros 8 ++ ack)) ++ zeros 991; b_size = 0 }

abbrev callers : Buffer
callers = record { b_addr = zeros 1024; b_size = 0 }

abbrev read_done : Net
read_done = record empty_net {
  cell = λ a. if a == 0 then some callers else if a == 1 then some received else none;
  next = 2;
  sreq = record (empty_net.sreq) { io_data = 1; io_actual = 33 };
}

read_done-IsFresh : IsFresh read_done
read_done-IsFresh a h = ground arith

abbrev ack-Frame :
    Frame
      (record { b_addr = received.b_addr; b_size = 33 })
      (zeros 20 ++ (zeros 8 ++ ack))
      (zeros 991)
ack-Frame = record {
  coded = zeros 20 ++ (zeros 8 ++ ack);
  block = refl;
  size = refl;
  fits = omega arith;
  codes = Codes-zeros 20 _ _ (Codes-zeros 8 _ _ ack-Codes);
}

extract_tftp_packet_example :
    (s : Net) × (extract_tftp_packet amiga 0 read_done ≡ some (true, s))
    × Extracted 0 1 ack read_done s
extract_tftp_packet_example =
    extract_tftp_packet-Extracted amiga read_done 0 callers received (zeros 20) (zeros 8) ack
      (zeros 991) read_done-IsFresh (refl, refl, refl) refl (length-zeros 1024) (λ e. omega arith)
      refl ack-Frame refl refl refl
