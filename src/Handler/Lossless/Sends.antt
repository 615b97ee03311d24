-- ===== src/Handler/Lossless/Sends.antt =====
-- The sends of netio.c on a line that loses nothing.
use cwnet.Base.{
  ℕ, ◌+◌, ◌%◌, ◌^◌, ◌≡◌, ◌≤◌, ◌<◌, ap, ◌∙◌, List, [], ◌∷◌, ◌++◌, some, true, pos, length, take,
  drop, min, arith,
}
use cwnet.Slip.Spec.{encode}
use cwnet.Packet.{u16}
use cwnet.Net.State.{System, Net}
use cwnet.Net.Fits.{send_tftp_req_packet-Sent, send_tftp_data_packet-Sent}
use cwnet.Net.Kept.Routines.{safe_request, safe_data}
use cwnet.Handler.Server.{received, last_number, received_request, received_data}
use cwnet.Handler.Wire.{over_netio}
use cwnet.Handler.Lossless.{IsReady, IsWriting}

module _ (sys : System) (device : Net → Net) (pkt : ℕ)
    (memory : (n : ℕ) → sys.alloc_ok n ≡ true) where
  pub send_req_ok :
      (name : List ℕ) (s : Net)
      → IsReady pkt s
      → length name ≤ 255
      → (s' : Net) × ((over_netio sys device pkt).send_req 2 name s ≡ some (true, s'))
        × (received s'.wire ≡ received s.wire)
        × IsWriting pkt s' 0
  send_req_ok name s r short =
      let (packet, ok, (s', ran, sent)) =
        send_tftp_req_packet-Sent sys s 2 name r.kept.fresh (memory _)
          (memory _, memory _, memory _) (omega arith) short in
      let (bs, number) = received_request sys s.wire packet name ok in
      let (kept, _) =
        (safe_request pkt (λ o. o ≡ some r.out) sys 2 name).keeps s r.kept true s' ran in
      (
        s',
        ran,
        ap received sent.wire_eq ∙ bs,
        record {
          ready = record { out = r.out; room = r.room; kept = kept };
          writing = sent.writing;
          pending = sent.pending;
          number = ap last_number sent.wire_eq ∙ number;
          small = omega arith;
        },
      )

  pub send_data_ok :
      (k : ℕ) (bytes : List ℕ) (from n : ℕ) (s : Net)
      → IsReady pkt s
      → k < 192
      → from + n ≤ length bytes
      → length (encode (take (min n 512) (drop from bytes))) ≤ 959
      → (s' : Net) × ((over_netio sys device pkt).send_data k bytes from (pos n) s
          ≡ some (true, s'))
        × (received s'.wire
            ≡ received s.wire
              ++ (record { number = k % 2 ^ 16; payload = take (min n 512) (drop from bytes) })
                ∷ [])
        × IsWriting pkt s' k
  send_data_ok k bytes from n s r small fits short =
      let (packet, ok, (s', ran, sent)) =
        send_tftp_data_packet-Sent sys s k bytes from n r.kept.fresh (memory _)
          (memory _, memory _, memory _) fits short in
      let (bs, number) =
        received_data sys s.wire packet (u16 k) (take (min n 512) (drop from bytes)) (omega arith)
          ok in
      let (kept, _) =
        (safe_data pkt (λ o. o ≡ some r.out) sys k bytes from (pos n)).keeps s r.kept true s' ran in
      let same : k % 2 ^ 16 ≡ k = omega arith in
      (
        s',
        ran,
        ap received sent.wire_eq ∙ bs,
        record {
          ready = record { out = r.out; room = r.room; kept = kept };
          writing = sent.writing;
          pending = sent.pending;
          number = ap last_number sent.wire_eq ∙ number ∙ same;
          small = small;
        },
      )
