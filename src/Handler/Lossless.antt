-- ===== src/Handler/Lossless.antt =====
-- netio.c on a line that loses nothing, with a server behind it: the interface of Reliable, filled
-- with the model of netio.c. The devices and the server are not part of the program; `Serves` says
-- what they do.
pub mod Sends
pub mod Answers
pub mod Delivery
use cwnet.Base.{
  ℕ, ◌+◌, ◌/◌, ◌%◌, ◌≡◌, ◌≢◌, ◌<◌, List, [], ◌∷◌, ◌++◌, some, true, false, pos, length, drop, All,
}
use cwnet.Slip.{Buffer, max_buffer_size, slip_end, slip_esc}
use cwnet.Net.State.{Net, update, cmd_read, cmd_write}
use cwnet.Net.Kept.{Inv}
use cwnet.Handler.Server.{last_number}

-- A byte that SLIP does not escape.
abbrev pub IsPlain : ℕ → Type 0
IsPlain x = (x ≢ slip_end) × (x ≢ slip_esc)

-- An acknowledgement, with the end marker of its frame.
abbrev pub ack : ℕ → List ℕ
ack k = 0 ∷ 4 ∷ (k / 256) ∷ (k % 256) ∷ slip_end ∷ []

-- A write request that has ended well.
abbrev pub write_done : Net → Net
write_done s = record s { sreq = record (s.sreq) { pending = false; io_error = pos 0 } }

-- A read request that has ended well, with the frame at the front of the Buffer's block.
abbrev pub read_done : Net → Buffer → List ℕ → Net
read_done s b frame = record s {
  sreq = record (s.sreq) { pending = false; io_error = pos 0; io_actual = length frame };
  cell =
      update s.cell (s.sreq).io_data
        (some (record b { b_addr = frame ++ drop (length frame) b.b_addr }));
}

-- What the devices have done to the requests when the serial one is back at the port: a frame that
-- was written has gone out, and a read brings the server's acknowledgement of the last frame that
-- went out, as long as its number is below 192. The server goes on behind a block of fewer than 512
-- bytes, too, as the handler expects it to. The answer's headers have no bytes to escape.
pub record Serves (device : Net → Net) : Type 0 where
  pub ip_hdr : Net → List ℕ
  pub udp_hdr : Net → List ℕ
  pub ip_length : (s : Net) → length (ip_hdr s) ≡ 20
  pub udp_length : (s : Net) → length (udp_hdr s) ≡ 8
  pub ip_plain : (s : Net) → All IsPlain (ip_hdr s)
  pub udp_plain : (s : Net) → All IsPlain (udp_hdr s)
  pub writes :
      (s : Net)
      → (s.sreq).io_command ≡ cmd_write
      → (s.sreq).pending ≡ true
      → device s ≡ write_done s
  pub answers :
      (s : Net) (b : Buffer)
      → (s.sreq).io_command ≡ cmd_read
      → (s.sreq).pending ≡ true
      → s.cell (s.sreq).io_data ≡ some b
      → last_number s.wire < 192
      → device s ≡ read_done s b (ip_hdr s ++ (udp_hdr s ++ ack (last_number s.wire)))

module _ (pkt : ℕ) where
  -- The Buffer for received packets is there.
  pub record IsReady (s : Net) : Type 0 where
    pub out : Buffer
    pub room : length out.b_addr ≡ max_buffer_size
    pub kept : Inv pkt (λ o. o ≡ some out) s

  pub record IsWriting (s : Net) (k : ℕ) : Type 0 where
    pub ready : IsReady s
    pub writing : (s.sreq).io_command ≡ cmd_write
    pub pending : (s.sreq).pending ≡ true
    pub number : last_number s.wire ≡ k
    pub small : k < 192

  pub record IsReading (s : Net) (k : ℕ) : Type 0 where
    pub ready : IsReady s
    pub reading : (s.sreq).io_command ≡ cmd_read
    pub pending : (s.sreq).pending ≡ true
    pub number : last_number s.wire ≡ k
    pub small : k < 192
    pub into : Buffer
    pub found : s.cell (s.sreq).io_data ≡ some into
    pub differ : (s.sreq).io_data ≢ pkt
