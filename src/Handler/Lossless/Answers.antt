-- ===== src/Handler/Lossless/Answers.antt =====
-- netio.c at the end of a write, where the read of the answer is started, and when it has come.
use cwnet.Base.{
  ◌==◌, ℕ, suc, ◌+◌, ◌*◌, ◌/◌, ◌%◌, ◌^◌, ◌≡◌, ◌<◌, refl, ap, sym, ◌∙◌, List, [], ◌∷◌, ◌++◌, some,
  true, false, pos, length, take, drop, arith, Bool-cases, inl, inr, ◌>>=◌, All, take-append-drop,
  length-append,
}
use cwnet.Slip.{Buffer, max_buffer_size, slip_end}
use cwnet.Slip.Spec.{Codes, stop, plain}
use cwnet.Packet.{ByteOrder}
use cwnet.Packet.Copy.{Holds-size}
use cwnet.Packet.Order.{ntohs-word16}
use cwnet.Net.State.{
  System, Net, update, cmd_read, netio_get_status, netio_stop_timer, netio_timeout, recv_slip_frame,
}
use cwnet.Net.Laws.{IsFresh, allocated, fresh_block, with_buffer_ok}
use cwnet.Net.Tftp.{recv_tftp_packet, get_opcode, get_blknum}
use cwnet.Net.Receive.{Extracted}
use cwnet.Net.Receive.Unpack.{extract_tftp_packet-Extracted}
use cwnet.Handler.Server.{received}
use cwnet.Handler.Wire.{over_netio}
use cwnet.Handler.Lossless.{
  IsPlain, ack, write_done, read_done, Serves, IsReady, IsWriting, IsReading,
}

Codes-plain : (xs c d : List ℕ) → All IsPlain xs → Codes c d → Codes (xs ++ c) (xs ++ d)
Codes-plain [] c d h k = k
Codes-plain (x ∷ xs) c d h k = plain x (xs ++ c) (xs ++ d) (h.0).1 (Codes-plain xs c d h.1 k)

ack-Codes : (k : ℕ) → k < 192 → Codes (ack k) (ack k)
ack-Codes k small =
    plain 0 _ _ (λ e. omega arith)
      (plain 4 _ _ (λ e. omega arith)
        (plain (k / 256) _ _ (λ e. omega arith)
          (plain (k % 256) _ _ (λ e. omega arith) (plain slip_end _ _ (λ e. omega arith) stop))))

-- The opcode and the number of an acknowledgement.
module _ (order : ByteOrder) (b : Buffer) (k : ℕ) (small : k < 2 ^ 16)
    (front : take 5 b.b_addr ≡ ack k) where
  block_front : b.b_addr ≡ ack k ++ drop 5 b.b_addr
  block_front = sym (take-append-drop 5 b.b_addr) ∙ ap (λ xs. xs ++ drop 5 b.b_addr) front

  get_opcode-ack : get_opcode order b ≡ some 4
  unfolding get_opcode
  get_opcode-ack =
      ap (λ xs. get_opcode order (record b { b_addr = xs })) block_front
      ∙ ap some (ntohs-word16 order 0 4 (omega arith) (omega arith))

  get_blknum-ack : get_blknum order b ≡ some k
  unfolding get_blknum
  get_blknum-ack =
      let e : k / 256 * 256 + k % 256 ≡ k = omega arith in
      ap (λ xs. get_blknum order (record b { b_addr = xs })) block_front
      ∙ ap some (ntohs-word16 order (k / 256) (k % 256) (omega arith) (omega arith) ∙ e)

module _ (pkt : ℕ) where
  -- After a frame was unpacked, no block stands at an address that was not given out.
  extracted-IsFresh :
      (s s' : Net) (tftp : List ℕ)
      → pkt < s.next
      → IsFresh s
      → Extracted pkt (s.sreq).io_data tftp s s'
      → IsFresh s'
  extracted-IsFresh s s' tftp near fresh e a far = elim (Bool-cases (a == (s.sreq).io_data)) [
    | inl old ↦ let same : a ≡ (s.sreq).io_data = ground arith in ap s'.cell same ∙ e.gone
    | inr other ↦
        let le = e.next_le in
        e.others a (λ q. omega arith) (λ q. ground arith) ∙ fresh a (omega arith)
  ]

module _ (sys : System) (device : Net → Net) (pkt : ℕ)
    (memory : (n : ℕ) → sys.alloc_ok n ≡ true) where
  module _ (serves : Serves device) where
    -- The read of the answer that is started when a write has ended.
    reading_state : Net → Net
    unfolding fresh_block
    reading_state s = record s {
      errno = 0;
      cell = update s.cell s.next (some (fresh_block sys s));
      next = suc s.next;
      sreq = record (s.sreq) {
        eof_mode = true;
        io_command = cmd_read;
        io_length = max_buffer_size;
        io_data = s.next;
        pending = true;
      };
      treq = record { tv_secs = netio_timeout; running = true };
    }

    recv_lem : (s : Net) → recv_tftp_packet sys s ≡ some (true, reading_state s)
    unfolding recv_tftp_packet recv_slip_frame allocated reading_state
    recv_lem s = with_buffer_ok sys false _ s (memory s.next)

    reading-IsReady : (s : Net) → IsReady pkt s → IsReady pkt (reading_state s)
    unfolding reading_state
    reading-IsReady s r =
        let near = r.kept.near in
        let other : (s.next == pkt) ≡ false = ground arith in
        record {
          out = r.out;
          room = r.room;
          kept = record {
            fresh = λ a far. ground (arith, r.kept.fresh a (omega arith));
            near = omega (arith, near);
            has = rw other r.kept.has;
          };
        }

    pub written_ok :
        (s : Net) (k : ℕ)
        → IsWriting pkt s k
        → (s₁ s₂ s₃ : Net) × ((over_netio sys device pkt).stop_timer s ≡ some s₁)
          × ((over_netio sys device pkt).get_status s₁ ≡ some (pos 0, s₂))
          × ((over_netio sys device pkt).recv s₂ ≡ some (true, s₃))
          × IsReading pkt s₃ k
          × (received s₃.wire ≡ received s.wire)
    unfolding netio_stop_timer netio_get_status reading_state
    written_ok s k w =
        let s₁ : Net = record s { treq = record (s.treq) { running = false } } in
        let near = w.ready.kept.near in
        let kept = w.ready.kept in
        let ready₂ : IsReady pkt (write_done s₁) = record {
          out = w.ready.out;
          room = w.ready.room;
          kept = record { fresh = kept.fresh; near = kept.near; has = kept.has };
        } in
        (
          s₁,
          write_done s₁,
          reading_state (write_done s₁),
          refl,
          ap netio_get_status (serves.writes s₁ w.writing w.pending),
          recv_lem (write_done s₁),
          record {
            ready = reading-IsReady (write_done s₁) ready₂;
            reading = refl;
            pending = refl;
            number = w.number;
            small = w.small;
            into = fresh_block sys (write_done s₁);
            found = ground arith;
            differ = λ e. omega arith;
          },
          refl,
        )

    -- The state and the frame when the answer has come.
    pub answer_ok :
        (s : Net) (k : ℕ)
        → IsReading pkt s k
        → (s₁ s₂ s₃ : Net) × ((over_netio sys device pkt).stop_timer s ≡ some s₁)
          × ((over_netio sys device pkt).get_status s₁ ≡ some (pos 0, s₂))
          × ((over_netio sys device pkt).extract s₂ ≡ some (true, s₃))
          × ((over_netio sys device pkt).opcode s₃ ≡ some 4)
          × ((over_netio sys device pkt).blknum s₃ ≡ some k)
          × (received s₃.wire ≡ received s.wire)
          × IsReady pkt s₃
    unfolding netio_stop_timer netio_get_status
    answer_ok s k r =
        let s₁ : Net = record s { treq = record (s.treq) { running = false } } in
        let ip = serves.ip_hdr s₁ in
        let udp = serves.udp_hdr s₁ in
        let frame = ip ++ (udp ++ ack k) in
        let s₂ = read_done s₁ r.into frame in
        let x = (s.sreq).io_data in
        let kept = r.ready.kept in
        let brought : device s₁ ≡ s₂ =
          serves.answers s₁ r.into r.reading r.pending r.found (omega (arith, r.number, r.small))
          ∙ ap (λ n. read_done s₁ r.into (ip ++ (udp ++ ack n))) r.number in
        let fresh₂ : IsFresh s₂ = λ a far. ground (arith, kept.fresh a far, r.found) in
        let other : (x == pkt) ≡ false = (let differ = r.differ in ground arith) in
        let at_pkt : s₂.cell pkt ≡ some r.ready.out = rw other kept.has in
        let size : length frame ≡ 33 = omega (
          arith,
          length-append ip (udp ++ ack k),
          length-append udp (ack k),
          serves.ip_length s₁,
          serves.udp_length s₁,
        ) in
        let small = r.small in
        let near = kept.near in
        let (s₃, ran, e) =
          extract_tftp_packet-Extracted sys s₂ pkt r.ready.out
            (record (r.into) { b_addr = frame ++ drop (length frame) (r.into).b_addr }) ip udp
            (ack k) (drop (length frame) (r.into).b_addr) fresh₂ (memory _, memory _, memory _)
            at_pkt r.ready.room r.differ (ground arith)
            (record {
              coded = frame;
              block = refl;
              size = refl;
              fits = omega arith;
              codes =
                  Codes-plain ip _ _ (serves.ip_plain s₁)
                    (Codes-plain udp _ _ (serves.udp_plain s₁) (ack-Codes k small));
            })
            (serves.ip_length s₁) (serves.udp_length s₁) refl in
        let b = e.holds.block in
        let five : b.b_size ≡ 5 = Holds-size b (ack k) e.holds.holds in
        let front : take 5 b.b_addr ≡ ack k =
          ap (λ n. take n b.b_addr) (sym five) ∙ e.holds.holds.bytes_eq in
        (
          s₁,
          s₂,
          s₃,
          refl,
          ap netio_get_status brought,
          ran,
          ap (λ o. o >>= get_opcode sys.order) e.holds.found
              ∙ get_opcode-ack sys.order b k (omega arith) front,
          ap (λ o. o >>= get_blknum sys.order) e.holds.found
              ∙ get_blknum-ack sys.order b k (omega arith) front,
          ap received e.wire_eq,
          record {
            out = b;
            room = e.holds.holds.block.block_size;
            kept = record {
              fresh = extracted-IsFresh pkt s₂ s₃ (ack k) near fresh₂ e;
              near = omega (arith, near, e.next_le);
              has = e.holds.found;
            };
          },
        )
