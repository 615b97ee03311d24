-- ===== src/Minitftp/Served.antt =====
-- minitftp.c with a server that answers: the command reports success, and the server gets the file.
use cwnet.Base.{
  ℕ, ◌+◌, ◌*◌, ◌/◌, ◌%◌, ◌^◌, ◌≡◌, ◌<◌, ◌≤◌, refl, ap, ◌∙◌, List, [], ◌∷◌, ◌++◌, Option, some, none,
  ℤ, Bool, true, false, length, arith, take, ◌==◌, some-eq,
}
use cwnet.Protocol.{op_wrq, op_ack, tftp_max_data_size}
use cwnet.Packet.{ByteOrder}
use cwnet.Packet.Order.{ntohs-word16}
use cwnet.Net.Tftp.{request_bytes, data_header}
use cwnet.Minitftp.Packets.{
  max_pkt_size, get_opcode, get_blknum, data_packet, data_packet-data_header,
}
use cwnet.Minitftp.Host.{Host, Locals, Message, branch, fail, pure}
use cwnet.Minitftp.Command.{
  overwrite, check_answer, recv_packet, send_data_packet, send_next_block, keep_packet, set_pkt,
  send_if, keep_block, set_buffer, read_block, to_uint16,
}
use cwnet.Minitftp.Contract.{Lawful}
use cwnet.Minitftp.Runs.{
  runs_both, runs_returned, Completes, runs_bind, runs_pure, runs_get, runs_if, runs_do, runs_lift,
  runs_after, runs_call, runs_say,
}
use cwnet.Minitftp.Steps.{Sized, set_pkt_lem, set_buffer_lem}
use cwnet.Minitftp.Blocks.{Taken, read_block-Taken, Taken-Sized, to_uint16_small}

-- Every call succeeds, and after a packet was sent, the next that is received acknowledges it.
pub record Serves (host : Host) : Type 0 where
  pub opens : (name : List ℕ) (s : host.State) → (host.open_file name s).0 ≡ true
  pub has_socket : (s : host.State) → (host.socket s).0 ≡ true
  pub resolves :
      (node service : List ℕ) (s : host.State) → (host.getaddrinfo node service s).0 ≡ true
  pub reads : (n : ℕ) (s : host.State) → (bytes : List ℕ) × ((host.read n s).0 ≡ some bytes)
  pub sends : (packet : List ℕ) (s : host.State) → (host.sendto packet s).0 ≡ true
  pub accepts :
      (name : List ℕ) (s : host.State)
      → (s' : host.State) × (host.recvfrom max_pkt_size
            (host.sendto (request_bytes host.order op_wrq name) s).1
          ≡ some (some (0 ∷ 4 ∷ 0 ∷ 0 ∷ []), s'))
  pub acknowledges :
      (blknum : ℕ) (bytes : List ℕ) (s : host.State)
      → blknum < 2 ^ 16
      → (s' : host.State) × (host.recvfrom max_pkt_size
            (host.sendto (data_header host.order blknum ++ bytes) s).1
          ≡ some (some (0 ∷ 4 ∷ blknum / 256 ∷ blknum % 256 ∷ []), s'))

pub ack_opcode :
    (order : ByteOrder) (hi lo : ℕ) (rest : List ℕ)
    → get_opcode order (0 ∷ 4 ∷ hi ∷ lo ∷ rest) ≡ some op_ack
unfolding get_opcode
ack_opcode order hi lo rest = ap some (ntohs-word16 order 0 4 (omega arith) (omega arith))

ack_blknum :
    (order : ByteOrder) (n : ℕ) (rest : List ℕ)
    → n < 2 ^ 16
    → get_blknum order (0 ∷ 4 ∷ n / 256 ∷ n % 256 ∷ rest) ≡ some n
unfolding get_blknum
ack_blknum order n rest h =
    let e : n / 256 * 256 + n % 256 ≡ n = omega arith in
    ap some (ntohs-word16 order (n / 256) (n % 256) (omega arith) (omega arith) ∙ e)

-- What an acknowledgement does to the variables.
check_acked :
    (host : Host) (n : ℕ) (l : Locals host.State) (rest : List ℕ)
    → n < 2 ^ 16
    → l.pkt ≡ 0 ∷ 4 ∷ n / 256 ∷ n % 256 ∷ rest
    → Completes (check_answer host n) l (λ _ l'. l'.error ≡ l.error)
unfolding check_answer
check_acked host n l rest small e =
    let acked : (n == n) ≡ true = ground arith in
    runs_get _ (
      runs_lift (get_opcode host.order l.pkt) _
        (ap (get_opcode host.order) e ∙ ack_opcode host.order (n / 256) (n % 256) rest)
        (runs_if _ _ _
          (λ _.
            runs_lift (get_blknum host.order l.pkt) _
              (ap (get_blknum host.order) e ∙ ack_blknum host.order n rest small)
              (runs_if _ _ _ (λ _. runs_say _ refl) (λ f. cc (f, acked))))
          (λ f. cc f)))

keep_some :
    {W : Type 0} (o : Option (List ℕ)) (bytes : List ℕ) (l : Locals W)
    → o ≡ some bytes
    → Completes
        (keep_packet o)
        l
        (λ got l'. (got ≡ true) × (l'.error ≡ l.error) × (l'.pkt ≡ overwrite l.pkt bytes))
unfolding keep_packet
keep_some none bytes l e = cc e
keep_some (some a) bytes l e =
    runs_after (set_pkt a) _ (set_pkt_lem a l)
      (runs_pure _ (refl, refl, ap (overwrite l.pkt) (some-eq e)))

kept :
    {W : Type 0} (o : Option (List ℕ)) (bytes : List ℕ) (l : Locals W)
    → o ≡ some bytes
    → Completes (keep_block o) l (λ _ l'. l'.error ≡ l.error)
unfolding keep_block
kept none bytes l e = cc e
kept (some a) bytes l e = runs_after (set_buffer a) _ (set_buffer_lem a l) (runs_pure _ refl)

module _ (host : Host) (serves : Serves host) where
  -- A packet is received that was sent as an answer to `packet`.
  pub receives :
      (packet bytes : List ℕ) (w : host.State) (l : Locals host.State)
      → l.world ≡ (host.sendto packet w).1
      → (w' : host.State) × (host.recvfrom max_pkt_size (host.sendto packet w).1
          ≡ some (some bytes, w'))
      → Completes
          (recv_packet host)
          l
          (λ got l'. (got ≡ true) × (l'.error ≡ l.error) × (l'.pkt ≡ overwrite l.pkt bytes))
  unfolding recv_packet
  receives packet bytes w l e (w', answer) =
      runs_returned (host.recvfrom max_pkt_size) _ (ap (host.recvfrom max_pkt_size) e ∙ answer)
        (keep_some (some bytes) bytes (record l { world = w' }) refl)

  sends_block :
      (n datalen : ℕ) (l : Locals host.State)
      → Sized l
      → datalen ≤ tftp_max_data_size
      → Completes (send_data_packet host l.buffer n datalen) l (λ ok l'.
        (ok ≡ true)
        × (l'.error ≡ l.error)
        × (l'.world ≡ (host.sendto (data_header host.order n ++ take datalen l.buffer) l.world).1))
  unfolding send_data_packet send_if
  sends_block n datalen l size small =
      let packet = data_header host.order n ++ take datalen l.buffer in
      let stack = host.stack max_pkt_size l.world in
      runs_get _ (
        runs_lift (data_packet host.order stack l.buffer n datalen) _
          (data_packet-data_header host.order stack l.buffer n datalen
            (host.length-stack max_pkt_size l.world) small (omega (arith, size.buffer_size)))
          (runs_call (host.sendto packet) (serves.sends packet l.world, refl, refl)))

  no_failure :
      (ok : Bool) (m : Message) (l : Locals host.State)
      → ok ≡ true
      → Completes (branch ok (pure tt) (fail m)) l (λ _ l'. l' ≡ l)
  no_failure ok m l e = runs_if ok _ _ (λ _. runs_pure _ refl) (λ f. cc (e, f))

  reads_block : (l : Locals host.State) → Completes (read_block host) l (λ _ l'. l'.error ≡ l.error)
  unfolding read_block
  reads_block l =
      let read = host.read tftp_max_data_size l.world in
      let (bytes, given) = serves.reads tftp_max_data_size l.world in
      runs_do (host.read tftp_max_data_size) _
        (kept read.0 bytes (record l { world = read.1 }) given)

module _ (host : Host) (lawful : Lawful host) (serves : Serves host) where
  datalen_small :
      (l l₁ : Locals host.State) (buflen : ℤ)
      → Taken host lawful l buflen l₁
      → l₁.error ≡ false
      → to_uint16 buflen ≤ tftp_max_data_size
  unfolding Taken
  datalen_small l l₁ buflen t clear =
      let (bytes, n, small, taken, last, front) = (t.3 clear).1 in
      omega (arith, to_uint16_small buflen (length bytes) n small)

  -- A pass for which the server acknowledges the block.
  pub block_acked :
      (n : ℕ) (l : Locals host.State)
      → Sized l
      → n < 2 ^ 16
      → l.error ≡ false
      → Completes (send_next_block host n) l (λ _ l'. l'.error ≡ false)
  unfolding send_next_block
  block_acked n l size small clear =
      runs_bind (runs_both (read_block-Taken host lawful l size) (reads_block host serves l))
        λ buflen l₁ t. runs_get _ (
          let size₁ = Taken-Sized host lawful l l₁ buflen t.0 in
          let clear₁ = t.1 ∙ clear in
          let few = datalen_small l l₁ buflen t.0 clear₁ in
          let packet = data_header host.order n ++ take (to_uint16 buflen) l₁.buffer in
          runs_bind (sends_block host serves n (to_uint16 buflen) l₁ size₁ few) λ ok l₂ p.
            runs_bind (no_failure host serves ok _ l₂ p.0) λ _ l₃ u.
              runs_bind
                (receives host serves packet _ l₁.world l₃ (ap (λ x. x.world) u ∙ p.2)
                  (serves.acknowledges n (take (to_uint16 buflen) l₁.buffer) l₁.world small))
                λ got l₄ v. runs_bind (no_failure host serves got _ l₄ v.0) λ _ l₅ x.
                  runs_bind (check_acked host n l₅ _ small (ap (λ y. y.pkt) x ∙ v.2)) λ _ l₆ y.
                    runs_pure _
                      (y ∙ ap (λ z. z.error) x ∙ v.1 ∙ ap (λ z. z.error) u ∙ p.1 ∙ clear₁))
