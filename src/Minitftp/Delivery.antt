-- ===== src/Minitftp/Delivery.antt =====
-- minitftp.c with a server that answers: the whole file arrives.
use cwnet.Base.{
  ℕ, zero, suc, ◌+◌, ◌-◌, ◌*◌, ◌%◌, ◌^◌, ◌≡◌, ◌<◌, ◌≤◌, refl, ap, sym, subst, ◌∙◌, List, ◌∷◌, ◌++◌,
  some, Bool, true, false, length, arith, ltb→lt, if◌then◌else◌,
}
use cwnet.Protocol.{op_wrq}
use cwnet.Net.Tftp.{request_bytes}
use cwnet.Minitftp.Packets.{
  max_pkt_size, get_basename, get_opcode, request_packet, request_packet-request_bytes,
}
use cwnet.Minitftp.Host.{done, Host, Locals, Message, M, branch, fail, say}
use cwnet.Minitftp.Command.{
  send_blocks, on_answer, send_req_packet, talk, with_socket, with_file, main_body, main, is_full,
}
use cwnet.Minitftp.Contract.{Lawful}
use cwnet.Minitftp.Runs.{
  runs_both, end_of, Completes, runs_bind, runs_pure, runs_get, runs_if, runs_do, runs_lift,
  runs_call, runs_say, runs_release,
}
use cwnet.Minitftp.Steps.{Sized, Same}
use cwnet.Minitftp.Blocks.{view, send_next_block-Pass, recv_packet-Carries, Same-Sized}
use cwnet.Minitftp.Loop.{go_on_cases, remaining-Pass, Pass-Sized}
use cwnet.Minitftp.Exchange.{send_req_packet-Asked, Asked-Sized, remaining-Asked}
use cwnet.Minitftp.Whole.{main_body-Ended, start, start-Sized, eq_then}
use cwnet.Minitftp.Receiver.{receive}
use cwnet.Minitftp.Served.{Serves, block_acked, receives, ack_opcode}

module _ (host : Host) (lawful : Lawful host) (serves : Serves host) where
  blocks_acked :
      (fuel n : ℕ) (l : Locals host.State)
      → Sized l
      → length (view host lawful l).remaining < 512 * fuel
      → l.error ≡ false
      → Completes (send_blocks host fuel n) l (λ _ l'. l'.error ≡ false)
  unfolding send_blocks
  blocks_acked zero n l size enough clear = absurd (omega arith)
  blocks_acked (suc fuel) n l size enough clear =
      let next = (n + 1) % 2 ^ 16 in
      let small : next < 2 ^ 16 = omega arith in
      runs_bind
        (runs_both (send_next_block-Pass host lawful next l size)
          (block_acked host lawful serves next l size small clear))
        λ buflen l₁ p. runs_get _ (
          runs_if _ _ _
            (λ more.
              let (full, go_on) = go_on_cases (is_full buflen) l₁.error more in
              blocks_acked fuel next l₁ (Pass-Sized host lawful next l l₁ buflen p.0)
                (remaining-Pass host lawful fuel next l l₁ buflen p.0 full go_on enough) p.1)
            (λ stop. runs_pure _ p.1))

  request_acked :
      (fuel : ℕ) (l : Locals host.State) (rest : List ℕ)
      → Sized l
      → length (view host lawful l).remaining < 512 * fuel
      → l.error ≡ false
      → l.pkt ≡ 0 ∷ 4 ∷ 0 ∷ 0 ∷ rest
      → Completes (on_answer host fuel) l (λ _ l'. l'.error ≡ false)
  unfolding on_answer
  request_acked fuel l rest size enough clear e = runs_get _ (
      runs_lift (get_opcode host.order l.pkt) _
        (ap (get_opcode host.order) e ∙ ack_opcode host.order 0 0 rest)
        (runs_if _ _ _
          (λ _.
            runs_bind
              (runs_say _ {P = λ _ l'. Same l l' × (l'.error ≡ l.error)}
                (record { world_eq = refl; pkt_eq = refl; buffer_eq = refl; flag = λ e. e }, refl))
              λ _ l₁ s.
                runs_bind
                  (blocks_acked fuel 0 l₁ (Same-Sized host lawful l l₁ s.0 size)
                    (subst (λ w. length (lawful.view w).remaining < 512 * fuel) (sym (s.0).world_eq)
                      enough)
                    (s.1 ∙ clear))
                  λ _ l₂ d. runs_say _ d)
          (λ f. cc f)))

  asks :
      (bname : List ℕ) (l : Locals host.State)
      → length bname ≤ max_pkt_size - 12
      → Completes (send_req_packet host op_wrq bname) l (λ ok l'.
        (ok ≡ true)
        × (l'.error ≡ l.error)
        × (l'.world ≡ (host.sendto (request_bytes host.order op_wrq bname) l.world).1))
  unfolding send_req_packet
  asks bname l short =
      let packet = request_bytes host.order op_wrq bname in
      runs_get _ (
        runs_lift (request_packet host.order (host.stack max_pkt_size l.world) op_wrq bname) _
          (request_packet-request_bytes host.order (host.stack max_pkt_size l.world) op_wrq bname
            (host.length-stack max_pkt_size l.world) short)
          (runs_call (host.sendto packet) (serves.sends packet l.world, refl, refl)))

  says :
      (ok : Bool) (m m' : Message) (l : Locals host.State)
      → ok ≡ true
      → Completes (branch ok (say m) (fail m')) l (λ _ l'. (l'.error ≡ l.error) × Same l l')
  says ok m m' l e =
      runs_if ok _ _
        (λ _.
          runs_say m
            (refl, record { world_eq = refl; pkt_eq = refl; buffer_eq = refl; flag = λ e. e }))
        (λ f. cc (e, f))

  talk_acked :
      (fuel : ℕ) (bname : List ℕ) (l : Locals host.State)
      → Sized l
      → length bname ≤ max_pkt_size - 12
      → length (view host lawful l).remaining < 512 * fuel
      → l.error ≡ false
      → Completes (talk host fuel bname) l (λ _ l'. l'.error ≡ false)
  unfolding talk
  talk_acked fuel bname l size short enough clear =
      let packet = request_bytes host.order op_wrq bname in
      runs_bind
        (runs_both (send_req_packet-Asked host lawful bname l size short) (asks bname l short))
        λ ok l₁ a. runs_bind (says ok _ _ l₁ (a.1).0) λ _ l₂ u.
          let size₂ =
            Same-Sized host lawful l₁ l₂ u.1 (Asked-Sized host lawful bname l l₁ ok a.0) in
          runs_bind
            (runs_both (recv_packet-Carries host lawful l₂ size₂) (
              receives host serves packet _ l.world l₂ ((u.1).world_eq ∙ (a.1).2)
                (serves.accepts bname l.world)))
            λ got l₃ v.
              let left = remaining-Asked host lawful bname l l₁ l₂ l₃ ok a.0 u.1 (v.0).1 in
              let clear₃ = (v.1).1 ∙ u.0 ∙ (a.1).1 ∙ clear in
              runs_bind {P = λ _ l'. l'.error ≡ false}
                (runs_if got _ _
                  (λ _.
                    runs_bind
                      (runs_say _ {P = λ _ l'. Same l₃ l' × (l'.error ≡ l₃.error)} (
                        record { world_eq = refl; pkt_eq = refl; buffer_eq = refl; flag = λ e. e },
                        refl,
                      ))
                      λ _ l₄ s.
                        request_acked fuel l₄ _ (Same-Sized host lawful l₃ l₄ s.0 (v.0).0)
                          (subst (λ r. length r < 512 * fuel)
                            (sym (ap (λ w. (lawful.view w).remaining) (s.0).world_eq ∙ left))
                            enough)
                          (s.1 ∙ clear₃) ((s.0).pkt_eq ∙ (v.1).2))
                  (λ f. cc (f, (v.1).0)))
                λ _ l₅ d. runs_release _ d

  -- What a call acquired, with the statements that use it.
  has :
      (ok : Bool) (m : M host.State (Unit {0})) (msg : Message) (l : Locals host.State)
      → ok ≡ true
      → Completes m l (λ _ l'. l'.error ≡ false)
      → Completes (branch ok m (fail msg)) l (λ _ l'. l'.error ≡ false)
  has ok m msg l e r = runs_if ok m (fail msg) (λ _. r) (λ f. cc (e, f))

  moved-Sized : (l : Locals host.State) (w : host.State) → Sized l → Sized (record l { world = w })
  moved-Sized l w size = record { pkt_size = size.pkt_size; buffer_size = size.buffer_size }

  with_file_acked :
      (fuel : ℕ) (node service bname : List ℕ) (l : Locals host.State)
      → Sized l
      → length bname ≤ max_pkt_size - 12
      → length (view host lawful l).remaining < 512 * fuel
      → l.error ≡ false
      → Completes (with_file host fuel node service bname) l (λ _ l'. l'.error ≡ false)
  unfolding with_file with_socket
  with_file_acked fuel node service bname l size short enough clear =
      let made = host.socket l.world in
      let w = (host.socket l.world).1 in
      let found = host.getaddrinfo node service w in
      let law = eq_then made.0 _ _ _ (lawful.socket_lem l.world) (serves.has_socket l.world) in
      let law' =
        eq_then found.0 _ _ _ (lawful.getaddrinfo_lem node service w)
          (serves.resolves node service w) in
      let e : (lawful.view found.1).remaining ≡ (view host lawful l).remaining =
        ap (λ v. v.remaining) law' ∙ ap (λ v. v.remaining) law in
      runs_do host.socket _ (
        runs_bind
          (has made.0 _ _ _ (serves.has_socket l.world) (
            runs_do (host.getaddrinfo node service) _ (
              runs_bind
                (has found.0 _ _ _ (serves.resolves node service w) (
                  talk_acked fuel bname (record l { world = found.1 }) (moved-Sized l found.1 size)
                    short (subst (λ r. length r < 512 * fuel) (sym e) enough) clear))
                λ _ l₁ d. runs_release _ d)))
          λ _ l₂ d. runs_release _ d)

  status_ok : (error : Bool) → error ≡ false → ◌≡◌ {A = ℕ} (if error then 1 else 0) 0
  status_ok true e = cc e
  status_ok false e = refl

  main_acked :
      (fuel : ℕ) (node service fname : List ℕ) (w : host.State)
      → length (get_basename fname) ≤ max_pkt_size - 12
      → length (lawful.content fname) < 512 * fuel
      → Completes
          (main_body host fuel node service fname)
          (start host lawful w)
          (λ status _. status ≡ 0)
  unfolding main_body
  main_acked fuel node service fname w short enough =
      let opened = host.open_file fname w in
      let law = eq_then opened.0 _ _ _ (lawful.open_file_lem fname w) (serves.opens fname w) in
      runs_if _ _ _ (λ long. absurd (omega (arith, ltb→lt _ _ long)))
        (λ _. runs_do (host.open_file fname) _ (
          runs_bind
            (has opened.0 _ _ _ (serves.opens fname w) (
              with_file_acked fuel node service (get_basename fname)
                (record (start host lawful w) { world = opened.1 })
                (moved-Sized (start host lawful w) opened.1 (start-Sized host lawful w)) short
                (subst (λ v. length v.remaining < 512 * fuel) (sym law) enough) refl))
            λ _ l₂ d. runs_get _ (runs_pure _ (status_ok l₂.error d))))

  -- If every call succeeds and the server acknowledges what it gets, the command ends with status
  -- 0 for a file of any size whose name has at most 1012 bytes behind the last slash, and the
  -- server, which gets the request and then the packets, assembles the file from them.
  pub main_delivers :
      (fuel : ℕ) (node service fname : List ℕ) (w : host.State)
      → length (get_basename fname) ≤ max_pkt_size - 12
      → length (lawful.content fname) < 512 * fuel
      → (l' : Locals host.State) × (packets : List (List ℕ)) × (main host fuel node service fname w
          ≡ done (0, l'))
        × ((view host lawful l').sent
            ≡ (lawful.view w).sent
              ++ request_bytes host.order op_wrq (get_basename fname) ∷ packets)
        × (receive 1 packets ≡ some (lawful.content fname))
  unfolding main
  main_delivers fuel node service fname w short enough =
      let (status, l', run, (done_so, zero_status)) = end_of (
        runs_both
          (main_body-Ended host lawful fuel node service fname (start host lawful w)
            (start-Sized host lawful w) enough)
          (main_acked fuel node service fname w short enough)) in
      let (packets, sent, got) = done_so.1 zero_status in
      (l', packets, run ∙ ap (λ n. done (n, l')) zero_status, sent, got)
