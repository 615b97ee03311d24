-- ===== src/Examples/Coding.antt =====
-- The coding of frames, the checksum and the headers at concrete bytes.
use cwnet.Base.{ℕ, suc, ◌≡◌, refl, ap, [], ◌∷◌, none, some, true, take, arith, ◌⊎◌, inl}
use cwnet.Slip.{Buffer, Coded, slip_encode_buffer, slip_decode_buffer}
use cwnet.Slip.Spec.{stop, plain, pair}
use cwnet.Slip.Encode.Whole.{contents, IsBlock, EncodedAll, Overflows, slip_encode_buffer_lem}
use cwnet.Slip.Decode.Whole.{
  Frame, slip_decode_buffer_plain, slip_decode_buffer_front, slip_decode_buffer_overrun,
}
use cwnet.Packet.{little_endian, calc_checksum, get_payload}
use cwnet.Packet.Checksum.{IsWord, memory_words, twice_length, calc_checksum_verifies}
use cwnet.Packet.Copy.{Holds, get_payload_short}
use cwnet.Examples.{zeros, length-zeros}

-- A packet buffer, and a source of three bytes of which the last two are escaped.
abbrev empty_buffer : Buffer
empty_buffer = record { b_addr = zeros 1024; b_size = 0 }

abbrev three_bytes : Buffer
three_bytes = record { b_addr = 1 ∷ 0xc0 ∷ 0xdb ∷ []; b_size = 3 }

slip_encode_buffer_example :
    (r : Coded) × (slip_encode_buffer empty_buffer three_bytes ≡ some r)
    × IsBlock r.dbuf
    × (EncodedAll (contents three_bytes) r ⊎ Overflows (contents three_bytes) r)
slip_encode_buffer_example =
    slip_encode_buffer_lem empty_buffer three_bytes (length-zeros 1024) (omega arith)

-- A frame without escape sequences, and one with one that ends with its block.
abbrev plain_frame : Buffer
plain_frame = record { b_addr = 1 ∷ 2 ∷ []; b_size = 2 }

abbrev plain_frame-Frame : Frame plain_frame (1 ∷ 2 ∷ []) []
plain_frame-Frame = record {
  coded = 1 ∷ 2 ∷ [];
  block = refl;
  size = refl;
  fits = omega arith;
  codes = plain 1 (2 ∷ []) (2 ∷ []) (λ e. omega arith) (plain 2 [] [] (λ e. omega arith) stop);
}

abbrev escaped_frame : Buffer
escaped_frame = record { b_addr = 1 ∷ 0xdb ∷ 0xdc ∷ []; b_size = 3 }

abbrev escaped_frame-Frame : Frame escaped_frame (1 ∷ 0xc0 ∷ []) []
escaped_frame-Frame = record {
  coded = 1 ∷ 0xdb ∷ 0xdc ∷ [];
  block = refl;
  size = refl;
  fits = omega arith;
  codes =
      plain 1 (0xdb ∷ 0xdc ∷ []) (0xc0 ∷ []) (λ e. omega arith)
        (pair 0xdc 0xc0 [] [] (inl (refl, refl)) stop);
}

slip_decode_buffer_plain_example :
    (r : Coded) × (slip_decode_buffer empty_buffer plain_frame ≡ some r)
    × (r.success ≡ true)
    × (r.errno ≡ 0)
    × (contents r.dbuf ≡ 1 ∷ 2 ∷ [])
slip_decode_buffer_plain_example =
    slip_decode_buffer_plain empty_buffer plain_frame (1 ∷ 2 ∷ []) [] (length-zeros 1024)
      plain_frame-Frame refl

-- The same frame in a longer block.
abbrev framed_block : Buffer
framed_block = record { b_addr = 0xdb ∷ 0xdc ∷ 7 ∷ []; b_size = 2 }

abbrev framed_block-Frame : Frame framed_block (0xc0 ∷ []) (7 ∷ [])
framed_block-Frame = record {
  coded = 0xdb ∷ 0xdc ∷ [];
  block = refl;
  size = refl;
  fits = omega arith;
  codes = pair 0xdc 0xc0 [] [] (inl (refl, refl)) stop;
}

abbrev decoded_block : Coded
decoded_block = record {
  dbuf = record { b_addr = 0xc0 ∷ 7 ∷ zeros 1022; b_size = 2 };
  errno = 0;
  success = true;
}

decoded_run : slip_decode_buffer empty_buffer framed_block ≡ some decoded_block
unfolding slip_decode_buffer
decoded_run = refl

slip_decode_buffer_front_example :
    (take 1 (decoded_block.dbuf).b_addr ≡ 0xc0 ∷ [])
    × (decoded_block.success ≡ true → (decoded_block.dbuf).b_size ≡ 2)
    × IsBlock decoded_block.dbuf
slip_decode_buffer_front_example =
    slip_decode_buffer_front empty_buffer framed_block (0xc0 ∷ []) (7 ∷ []) (length-zeros 1024)
      framed_block-Frame decoded_block decoded_run

slip_decode_buffer_overrun_example : slip_decode_buffer empty_buffer escaped_frame ≡ none
slip_decode_buffer_overrun_example =
    slip_decode_buffer_overrun empty_buffer escaped_frame (1 ∷ 0xc0 ∷ []) [] (length-zeros 1024)
      escaped_frame-Frame refl (omega arith)

calc_checksum_verifies_example :
    (sum : ℕ) × (calc_checksum little_endian
        (memory_words little_endian (0x1234 ∷ 0 ∷ 0xffff ∷ []))
        (twice_length (0x1234 ∷ 0 ∷ 0xffff ∷ []))
      ≡ some sum)
    × IsWord sum
    × (calc_checksum little_endian
          (memory_words little_endian (0x1234 ∷ sum ∷ 0xffff ∷ []))
          (twice_length (0x1234 ∷ sum ∷ 0xffff ∷ []))
        ≡ some 0)
calc_checksum_verifies_example =
    calc_checksum_verifies little_endian (0x1234 ∷ []) (0xffff ∷ []) (omega arith, tt)
      (omega arith, tt) (omega arith)

-- A packet buffer with one byte in use, and one with three.
abbrev one_used : Buffer
one_used = record { b_addr = 9 ∷ zeros 1023; b_size = 1 }

one_used-Holds : Holds one_used (9 ∷ [])
one_used-Holds = record {
  block = record { block_size = ap suc (length-zeros 1023); in_use = omega arith };
  bytes_eq = refl;
}

abbrev three_used : Buffer
three_used = record { b_addr = 7 ∷ 8 ∷ 9 ∷ zeros 1021; b_size = 3 }

three_used-Holds : Holds three_used (7 ∷ 8 ∷ 9 ∷ [])
three_used-Holds = record {
  block = record {
    block_size = ap (λ n. suc (suc (suc n))) (length-zeros 1021);
    in_use = omega arith;
  };
  bytes_eq = refl;
}

get_payload_short_example : get_payload 8 empty_buffer three_used ≡ none
get_payload_short_example =
    get_payload_short 8 empty_buffer three_used (omega arith) (omega arith) (length-zeros 1024)
