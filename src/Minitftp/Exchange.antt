-- ===== src/Minitftp/Exchange.antt =====
-- minitftp.c: the request, its answer and the loop, with everything that was acquired for them.
use cwnet.Base.{
  ℕ, ◌-◌, ◌*◌, ◌≡◌, ◌<◌, ◌≤◌, refl, ap, sym, subst, ◌∙◌, List, [], ◌∷◌, ◌++◌, some, Bool, true,
  false, length, append_assoc,
}
use cwnet.Protocol.{op_wrq}
use cwnet.Net.Tftp.{request_bytes}
use cwnet.Minitftp.Packets.{max_pkt_size, request_packet, request_packet-request_bytes, get_opcode}
use cwnet.Minitftp.Host.{Host, Locals, Message, fail, say, branch, ◌>>◌}
use cwnet.Minitftp.Command.{send_req_packet, on_answer, talk}
use cwnet.Minitftp.Contract.{Lawful, Handle, address_list}
use cwnet.Minitftp.Runs.{
  Runs, runs_bind, runs_get, runs_if, runs_weaken, runs_lift, runs_call, runs_fail, runs_release,
}
use cwnet.Minitftp.Steps.{Sized, Same, get_opcode_inside, say-Same, report_result}
use cwnet.Minitftp.Blocks.{view, posted_view, recv_packet-Carries, Same-Sized}
use cwnet.Minitftp.Loop.{Delivered, send_blocks-Delivered}
use cwnet.Minitftp.Receiver.{receive}

module _ (host : Host) (lawful : Lawful host) where
  Same-Delivered :
      (n : ℕ) (l l₁ l₂ l₃ : Locals host.State)
      → Same l l₁
      → Delivered host lawful n l₁ l₂
      → Same l₂ l₃
      → Delivered host lawful n l l₃
  Same-Delivered n l l₁ l₂ l₃ before d after =
      let start = ap lawful.view before.world_eq in
      let end = ap lawful.view after.world_eq in
      (
        record {
          sized = Same-Sized host lawful l₂ l₃ after (d.0).sized;
          held_eq = ap (λ v. v.held) end ∙ (d.0).held_eq ∙ ap (λ v. v.held) start;
          flag = λ f. before.flag ((d.0).flag (after.flag f));
        },
        λ f.
            let (packets, sent, got) = d.1 (after.flag f) in
            (
              packets,
              ap (λ v. v.sent) end ∙ sent ∙ ap (λ v. v.sent ++ packets) start,
              got ∙ ap (λ v. some v.remaining) start,
            ),
      )

  fail-Delivered :
      (n : ℕ) (m : Message) (l : Locals host.State)
      → Sized l
      → Runs (fail m) l (λ _. Delivered host lawful n l)
  fail-Delivered n m l size = runs_fail m (
    record {
      sized = record { pkt_size = size.pkt_size; buffer_size = size.buffer_size };
      held_eq = refl;
      flag = λ f. cc f;
    },
    λ f. cc f,
  )

  on_answer-Delivered :
      (fuel : ℕ) (l : Locals host.State)
      → Sized l
      → length (view host lawful l).remaining < 512 * fuel
      → Runs (on_answer host fuel) l (λ _. Delivered host lawful 1 l)
  unfolding on_answer
  on_answer-Delivered fuel l size enough =
      let (opcode, e) = get_opcode_inside host.order l.pkt size.pkt_size in
      runs_get _ (
        runs_lift (get_opcode host.order l.pkt) _ e (
          runs_if _ _ _
            (λ _. runs_bind (say-Same _ l) λ _ l₁ before.
              runs_bind
                (send_blocks-Delivered host lawful fuel 0 l₁
                  (Same-Sized host lawful l l₁ before size)
                  (subst (λ v. length v.remaining < 512 * fuel)
                    (sym (ap lawful.view before.world_eq)) enough))
                λ _ l₂ d.
                  runs_weaken (say-Same _ l₂)
                    (λ _ l₃ after. Same-Delivered 1 l l₁ l₂ l₃ before d after))
            (λ _. runs_if _ _ _ (λ _. fail-Delivered 1 _ l size) (λ _. fail-Delivered 1 _ l size))))

  -- The packet of the request has gone out, if the call says so.
  pub Asked : List ℕ → Locals host.State → Bool → Locals host.State → Type 0
  Asked bname l ok l' =
      Sized l'
      × ((view host lawful l').held ≡ (view host lawful l).held)
      × ((view host lawful l').remaining ≡ (view host lawful l).remaining)
      × (ok ≡ true
          → (view host lawful l').sent
            ≡ (view host lawful l).sent ++ request_bytes host.order op_wrq bname ∷ [])

  pub send_req_packet-Asked :
      (bname : List ℕ) (l : Locals host.State)
      → Sized l
      → length bname ≤ max_pkt_size - 12
      → Runs (send_req_packet host op_wrq bname) l (Asked bname l)
  unfolding send_req_packet Asked
  send_req_packet-Asked bname l size short =
      let stack = host.stack max_pkt_size l.world in
      let packet = request_bytes host.order op_wrq bname in
      let (h, r, s) = posted_view host lawful packet _ _ _ (lawful.sendto_lem packet l.world) in
      runs_get _ (
        runs_lift (request_packet host.order stack op_wrq bname) _
          (request_packet-request_bytes host.order stack op_wrq bname
            (host.length-stack max_pkt_size l.world) short)
          (runs_call (host.sendto packet)
            (record { pkt_size = size.pkt_size; buffer_size = size.buffer_size }, h, r, s)))

  -- What was acquired is released down to `rest`, and if the flag is not set, the request and the
  -- packets of the whole file have been sent.
  abbrev pub Exchanged :
      List ℕ → List Handle → List ℕ → Locals host.State → Locals host.State → Type 0
  Exchanged bname rest file l l' =
      ((view host lawful l').held ≡ rest)
      × (l'.error ≡ false
          → (packets : List (List ℕ)) × ((view host lawful l').sent
              ≡ (view host lawful l).sent ++ request_bytes host.order op_wrq bname ∷ packets)
            × (receive 1 packets ≡ some file))

  talked :
      (bname : List ℕ) (l l₁ l₂ l₃ l₄ : Locals host.State) (ok : Bool)
      → Asked bname l ok l₁
      → Same l₁ l₂ × (l₂.error ≡ false → ok ≡ true)
      → (view host lawful l₃ ≡ view host lawful l₂) × (l₃.error ≡ l₂.error)
      → Delivered host lawful 1 l₃ l₄
      → Exchanged bname (view host lawful l).held (view host lawful l).remaining l l₄
  unfolding Asked
  talked bname l l₁ l₂ l₃ l₄ ok a u v d =
      let same = v.0 ∙ ap lawful.view (u.0).world_eq in
      (
        (d.0).held_eq ∙ ap (λ x. x.held) same ∙ a.1,
        λ f.
            let (packets, sent, got) = d.1 f in
            (
              packets,
              sent
                  ∙ ap (λ x. x.sent ++ packets) same
                  ∙ ap (λ s. s ++ packets) (a.3 (u.1 (sym v.1 ∙ (d.0).flag f)))
                  ∙ append_assoc (view host lawful l).sent _ packets,
              got ∙ ap (λ x. some x.remaining) same ∙ ap some a.2,
            ),
      )

  pub Asked-Sized :
      (bname : List ℕ) (l l' : Locals host.State) (ok : Bool) → Asked bname l ok l' → Sized l'
  unfolding Asked
  Asked-Sized bname l l' ok a = a.0

  pub remaining-Asked :
      (bname : List ℕ) (l l₁ l₂ l₃ : Locals host.State) (ok : Bool)
      → Asked bname l ok l₁
      → Same l₁ l₂
      → view host lawful l₃ ≡ view host lawful l₂
      → (view host lawful l₃).remaining ≡ (view host lawful l).remaining
  unfolding Asked
  remaining-Asked bname l l₁ l₂ l₃ ok a u v =
      ap (λ x. x.remaining) (v ∙ ap lawful.view u.world_eq) ∙ a.2

  answered :
      (fuel : ℕ) (got : Bool) (m m' : Message) (l : Locals host.State)
      → Sized l
      → length (view host lawful l).remaining < 512 * fuel
      → Runs
          (branch got (say m >> on_answer host fuel) (fail m'))
          l
          (λ _. Delivered host lawful 1 l)
  answered fuel got m m' l size enough =
      runs_if got _ _
        (λ _. runs_bind (say-Same m l) λ _ l₁ before.
          runs_weaken
            (on_answer-Delivered fuel l₁ (Same-Sized host lawful l l₁ before size) (
              subst (λ v. length v.remaining < 512 * fuel) (sym (ap lawful.view before.world_eq))
                enough))
            (λ _ l₂ d.
              Same-Delivered 1 l l₁ l₂ l₂ before d
                (record { world_eq = refl; pkt_eq = refl; buffer_eq = refl; flag = λ e. e })))
        (λ _. fail-Delivered 1 m' l size)

  pub talk-Exchanged :
      (fuel : ℕ) (bname : List ℕ) (rest : List Handle) (l : Locals host.State)
      → Sized l
      → length bname ≤ max_pkt_size - 12
      → length (view host lawful l).remaining < 512 * fuel
      → (view host lawful l).held ≡ address_list ∷ rest
      → Runs (talk host fuel bname) l (λ _. Exchanged bname rest (view host lawful l).remaining l)
  unfolding talk
  talk-Exchanged fuel bname rest l size short enough held =
      runs_bind (send_req_packet-Asked bname l size short) λ ok l₁ a.
        runs_bind (report_result ok _ _ l₁) λ _ l₂ u.
          let size₂ = Same-Sized host lawful l₁ l₂ u.0 (Asked-Sized bname l l₁ ok a) in
          runs_bind (recv_packet-Carries host lawful l₂ size₂) λ got l₃ v.
            let left = remaining-Asked bname l l₁ l₂ l₃ ok a u.0 v.1 in
            runs_bind
              (answered fuel got _ _ l₃ v.0 (subst (λ r. length r < 512 * fuel) (sym left) enough))
              λ _ l₄ d.
                let (kept, done) = talked bname l l₁ l₂ l₃ l₄ ok a u (v.1, v.2) d in
                let freed = lawful.freeaddrinfo_lem l₄.world rest (kept ∙ held) in
                runs_release host.freeaddrinfo (
                  ap (λ x. x.held) freed,
                  λ f.
                      let (packets, sent, got) = done f in
                      (packets, ap (λ x. x.sent) freed ∙ sent, got),
                )
