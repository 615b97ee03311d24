-- ===== src/Minitftp/Whole.antt =====
-- minitftp.c: the whole command, on any host that keeps its contract.
use cwnet.Base.{
  ◌⊎◌, inl, inr, ℕ, ◌-◌, ◌*◌, ◌≡◌, ◌<◌, ◌≤◌, refl, ap, sym, subst, ◌∙◌, List, [], ◌∷◌, ◌++◌, some,
  Bool, true, false, length, arith, if◌then◌else◌, ltb→le,
}
use cwnet.Protocol.{op_wrq, tftp_max_data_size}
use cwnet.Net.Tftp.{request_bytes}
use cwnet.Minitftp.Packets.{max_pkt_size, get_basename}
use cwnet.Minitftp.Host.{waits, done, Host, Locals, M, Message, fail, branch}
use cwnet.Minitftp.Command.{talk, with_socket, with_file, main_body, main}
use cwnet.Minitftp.Contract.{Lawful, Handle, in_file, udp_socket, address_list}
use cwnet.Minitftp.Runs.{
  waited, ended, Runs, runs_bind, runs_pure, runs_get, runs_if, runs_weaken, runs_do, runs_fail,
  runs_release, runs_say,
}
use cwnet.Minitftp.Steps.{Sized}
use cwnet.Minitftp.Blocks.{view}
use cwnet.Minitftp.Exchange.{Exchanged, talk-Exchanged}
use cwnet.Minitftp.Receiver.{receive}

pub eq_then {ℓ} : {A : Type ℓ} (b : Bool) (x y z : A) → x ≡ (if b then y else z) → b ≡ true → x ≡ y
eq_then true x y z h e = h
eq_then false x y z h e = cc e

eq_else {ℓ} : {A : Type ℓ} (b : Bool) (x y z : A) → x ≡ (if b then y else z) → b ≡ false → x ≡ z
eq_else true x y z h e = cc e
eq_else false x y z h e = h

module _ (host : Host) (lawful : Lawful host) where
  -- The statements for something that was acquired, or a message.
  if_acquired :
      (ok : Bool) (m : M host.State (Unit {0})) (msg : Message) (bname file : List ℕ)
      (l l₁ : Locals host.State)
      → (ok ≡ false → (view host lawful l₁).held ≡ (view host lawful l).held)
      → (ok ≡ true
          → ((view host lawful l₁).sent ≡ (view host lawful l).sent)
            × Runs m l₁ (λ _. Exchanged host lawful bname (view host lawful l).held file l₁))
      → Runs
          (branch ok m (fail msg))
          l₁
          (λ _. Exchanged host lawful bname (view host lawful l).held file l)
  if_acquired ok m msg bname file l l₁ missing acquired =
      runs_if ok m (fail msg)
        (λ e.
          let (sent_eq, r) = acquired e in
          runs_weaken r λ _ l₂ x. (
            x.0,
            λ f.
                let (packets, sent, got) = x.1 f in
                (
                  packets,
                  sent ∙ ap (λ s. s ++ request_bytes host.order op_wrq bname ∷ packets) sent_eq,
                  got,
                ),
          ))
        (λ e. runs_fail msg (missing e, λ f. cc f))

  -- The last handle is released.
  releases :
      (close : host.State → host.State) (handle : Handle) (rest : List Handle) (bname file : List ℕ)
      (l l' : Locals host.State)
      → ((s : host.State) (others : List Handle)
          → (lawful.view s).held ≡ handle ∷ others
          → lawful.view (close s) ≡ record (lawful.view s) { held = others })
      → Exchanged host lawful bname (handle ∷ rest) file l l'
      → Exchanged host lawful bname rest file l (record l' { world = close l'.world })
  releases close handle rest bname file l l' law x =
      let freed = law l'.world rest x.0 in
      (
        ap (λ v. v.held) freed,
        λ f. let (packets, sent, got) = x.1 f in (packets, ap (λ v. v.sent) freed ∙ sent, got),
      )

  talk-Exchanged_file :
      (fuel : ℕ) (bname file : List ℕ) (rest : List Handle) (l : Locals host.State)
      → Sized l
      → length bname ≤ max_pkt_size - 12
      → length file < 512 * fuel
      → (view host lawful l).remaining ≡ file
      → (view host lawful l).held ≡ address_list ∷ rest
      → Runs (talk host fuel bname) l (λ _. Exchanged host lawful bname rest file l)
  talk-Exchanged_file fuel bname file rest l size short enough e held =
      subst (λ t. Runs (talk host fuel bname) l (λ _. Exchanged host lawful bname rest t l)) e
        (talk-Exchanged host lawful fuel bname rest l size short
          (subst (λ t. length t < 512 * fuel) (sym e) enough) held)

  moved-Sized : (l : Locals host.State) (w : host.State) → Sized l → Sized (record l { world = w })
  moved-Sized l w size = record { pkt_size = size.pkt_size; buffer_size = size.buffer_size }

  with_socket-Exchanged :
      (fuel : ℕ) (node service bname file : List ℕ) (rest : List Handle) (l : Locals host.State)
      → Sized l
      → length bname ≤ max_pkt_size - 12
      → length file < 512 * fuel
      → (view host lawful l).remaining ≡ file
      → (view host lawful l).held ≡ udp_socket ∷ rest
      → Runs
          (with_socket host fuel node service bname)
          l
          (λ _. Exchanged host lawful bname rest file l)
  unfolding with_socket
  with_socket-Exchanged fuel node service bname file rest l size short enough e held =
      let found = host.getaddrinfo node service l.world in
      let law = lawful.getaddrinfo_lem node service l.world in
      let l₁ : Locals host.State = record l { world = found.1 } in
      runs_do (host.getaddrinfo node service) _ (
        runs_bind
          (if_acquired found.0 _ _ bname file l l₁
            (λ no_list. ap (λ v. v.held) (eq_else found.0 _ _ _ law no_list))
            (λ got_list.
              let now = eq_then found.0 _ _ _ law got_list in
              (
                ap (λ v. v.sent) now,
                talk-Exchanged_file fuel bname file (view host lawful l).held l₁
                    (moved-Sized l found.1 size) short enough (ap (λ v. v.remaining) now ∙ e)
                    (ap (λ v. v.held) now),
              )))
          λ _ l₂ x. runs_release host.close_socket (
            releases host.close_socket udp_socket rest bname file l l₂ lawful.close_socket_lem
              (x.0 ∙ held, x.1)))

  with_file-Exchanged :
      (fuel : ℕ) (node service bname file : List ℕ) (rest : List Handle) (l : Locals host.State)
      → Sized l
      → length bname ≤ max_pkt_size - 12
      → length file < 512 * fuel
      → (view host lawful l).remaining ≡ file
      → (view host lawful l).held ≡ in_file ∷ rest
      → Runs
          (with_file host fuel node service bname)
          l
          (λ _. Exchanged host lawful bname rest file l)
  unfolding with_file
  with_file-Exchanged fuel node service bname file rest l size short enough e held =
      let made = host.socket l.world in
      let law = lawful.socket_lem l.world in
      let l₁ : Locals host.State = record l { world = made.1 } in
      runs_do host.socket _ (
        runs_bind
          (if_acquired made.0 _ _ bname file l l₁
            (λ no_socket. ap (λ v. v.held) (eq_else made.0 _ _ _ law no_socket))
            (λ got_socket.
              let now = eq_then made.0 _ _ _ law got_socket in
              (
                ap (λ v. v.sent) now,
                with_socket-Exchanged fuel node service bname file (view host lawful l).held l₁
                    (moved-Sized l made.1 size) short enough (ap (λ v. v.remaining) now ∙ e)
                    (ap (λ v. v.held) now),
              )))
          λ _ l₂ x. runs_release host.close_file (
            releases host.close_file in_file rest bname file l l₂ lawful.close_file_lem
              (x.0 ∙ held, x.1)))

  -- How the command ends: with what it acquired released, and if its status is 0, with the whole
  -- file sent behind the request.
  abbrev pub Ended : List ℕ → host.State → ℕ → Locals host.State → Type 0
  Ended fname w status l' =
      ((view host lawful l').held ≡ (lawful.view w).held)
      × (status ≡ 0
          → (packets : List (List ℕ)) × ((view host lawful l').sent
              ≡ (lawful.view w).sent
                ++ request_bytes host.order op_wrq (get_basename fname) ∷ packets)
            × (receive 1 packets ≡ some (lawful.content fname)))

  status_zero : (error : Bool) → ◌≡◌ {A = ℕ} (if error then 1 else 0) 0 → error ≡ false
  status_zero true h = absurd (omega arith)
  status_zero false h = refl

  pub main_body-Ended :
      (fuel : ℕ) (node service fname : List ℕ) (l : Locals host.State)
      → Sized l
      → length (lawful.content fname) < 512 * fuel
      → Runs (main_body host fuel node service fname) l (Ended fname l.world)
  unfolding main_body
  main_body-Ended fuel node service fname l size enough =
      let opened = host.open_file fname l.world in
      let law = lawful.open_file_lem fname l.world in
      let l₁ : Locals host.State = record l { world = opened.1 } in
      runs_if _ _ _
        (λ long.
          runs_bind (runs_say _ {P = λ _ l₂. l₂.world ≡ l.world} refl) λ _ l₂ same.
            runs_pure _ (ap (λ w. (lawful.view w).held) same, λ z. absurd (omega arith)))
        (λ short. runs_do (host.open_file fname) _ (
          runs_bind
            (if_acquired opened.0 _ _ (get_basename fname) (lawful.content fname) l l₁
              (λ no_file. ap (λ v. v.held) (eq_else opened.0 _ _ _ law no_file))
              (λ got_file.
                let now = eq_then opened.0 _ _ _ law got_file in
                (
                  ap (λ v. v.sent) now,
                  with_file-Exchanged fuel node service (get_basename fname) (lawful.content fname)
                      (view host lawful l).held l₁ (moved-Sized l opened.1 size) (ltb→le _ _ short)
                      enough (ap (λ v. v.remaining) now) (ap (λ v. v.held) now),
                )))
            λ _ l₂ x. runs_get _ (runs_pure _ (x.0, λ z. x.1 (status_zero l₂.error z)))))

  -- The variables of `main` at its start.
  abbrev pub start : host.State → Locals host.State
  start w = record {
    world = w;
    pkt = host.stack max_pkt_size w;
    buffer = host.stack tftp_max_data_size w;
    error = false;
    output = [];
  }

  pub start-Sized : (w : host.State) → Sized (start w)
  start-Sized w = record {
    pkt_size = host.length-stack max_pkt_size w;
    buffer_size = host.length-stack tftp_max_data_size w;
  }

  ended_or_waits :
      {P : ℕ → Locals host.State → Type 0} (m : M host.State ℕ) {l : Locals host.State}
      → Runs m l P
      → (m l ≡ waits)
        ⊎ ((status : ℕ) × (l' : Locals host.State) × (m l ≡ done (status, l')) × P status l')
  ended_or_waits m (waited ok w) = inl w
  ended_or_waits m (ended status l' run h) = inr (status, l', run, h)

  -- On any host, and whatever the network does, the command accesses nothing outside its arrays, and
  -- makes one pass of its loop more than the file has full blocks at most. Either it waits for ever
  -- in a call of `recvfrom`, which has no timeout, or it ends and has released what it acquired. If
  -- its status is 0, it has sent the request for the last part of the path, and packets from which
  -- a server assembles the whole file.
  pub main-Ended :
      (fuel : ℕ) (node service fname : List ℕ) (w : host.State)
      → length (lawful.content fname) < 512 * fuel
      → (main host fuel node service fname w ≡ waits)
        ⊎ ((status : ℕ) × (l' : Locals host.State) × (main host fuel node service fname w
              ≡ done (status, l'))
            × Ended fname w status l')
  unfolding main
  main-Ended fuel node service fname w enough =
      ended_or_waits _ (main_body-Ended fuel node service fname (start w) (start-Sized w) enough)
