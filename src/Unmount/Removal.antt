-- ===== src/Unmount/Removal.antt =====
-- unmount.c on top of the handler: what becomes of the device and of the handler.
use cwnet.Base.{
  ℕ, suc, zero, ◌+◌, ◌-◌, ◌≡◌, refl, ap, ◌∙◌, List, [], ◌∷◌, ◌++◌, Option, none, some, Bool, true,
  false, ◌&&◌, ◌⊎◌, inl, inr, if◌then◌else◌, ◌>>=◌, arith,
}
use cwnet.Handler.State.{Handler, client, die, return_dos_packet, dostrue}
use cwnet.Handler.Network.{NetIo}
use cwnet.Handler.Replies.{abort_io}
use cwnet.Handler.Loop.{main_loop, on_die}
use cwnet.Unmount.{
  DosList, Process, net_handler, System, remove_device, blocks_of, dismiss, send_die, deliver_die,
  with_packet, with_port, has_task, unmount, unmount_main, is_list, return_ok, return_fail,
}
use cwnet.Unmount.Search.{IsNamed, OtherNames, remove_device_lem}

module _ (net : NetIo) (alloc_ok : ℕ → Bool) where
  open net use {Net}

  -- The handler that has taken ACTION_DIE.
  abbrev pub stopped : Handler Net → Net → Handler Net
  stopped h w =
      return_dos_packet die dostrue 0
        (record h { net = w; port = []; running = false; dn_task = false })

  stays_stopped :
      (n : ℕ) (h : Handler Net) (w : Net)
      → main_loop net alloc_ok n (stopped h w) ≡ some (stopped h w)
  unfolding main_loop return_dos_packet
  stays_stopped zero h w = refl
  stays_stopped (suc n) h w = refl

  takes_die :
      (n : ℕ) (h : Handler Net) (w : Net)
      → h.running ≡ true
      → net.abort h.net ≡ some w
      → main_loop net alloc_ok (suc n) (record h { port = client die ∷ [] }) ≡ some (stopped h w)
  unfolding main_loop on_die abort_io
  takes_die n h w running aborted = rw (running, aborted) (stays_stopped n h w)

  stopped-eq :
      (n : ℕ) (s : System Net) (w : Net)
      → s.handler.running ≡ true
      → s.handler.dn_task ≡ true
      → s.handler.port ≡ []
      → net.abort s.handler.net ≡ some w
      → deliver_die net alloc_ok (suc n) true true net_handler s
        ≡ some (net_handler, record s { handler = stopped s.handler w })
  unfolding deliver_die
  stopped-eq n s w running task quiet aborted =
      let answer : Handler Net → Option (Process × System Net) =
        λ h'. some (net_handler, record s { handler = h' }) in
      let told : Option (Process × System Net) =
        main_loop net alloc_ok (suc n)
          (record s.handler { port = s.handler.port ++ client die ∷ [] })
        >>= answer in
      ap (λ b. if b then told else none) task
      ∙ ap
          (λ ms.
            main_loop net alloc_ok (suc n) (record s.handler { port = ms ++ client die ∷ [] })
            >>= answer)
          quiet
      ∙ ap (λ o. o >>= answer) (takes_die n s.handler w running aborted)

  die_sent :
      (n : ℕ) (s : System Net) (w : Net)
      → s.handler.running ≡ true
      → s.handler.dn_task ≡ true
      → s.handler.port ≡ []
      → net.abort s.handler.net ≡ some w
      → send_die net alloc_ok (suc n) true true net_handler s
        ≡ some (net_handler, record s { handler = stopped s.handler w })
  unfolding send_die with_port with_packet
  die_sent n s w running task quiet aborted =
      let asked = record s { ports = s.ports + 1; packets = s.packets + 1 } in
      let ports : s.ports + 1 - 1 ≡ s.ports = omega arith in
      let packets : s.packets + 1 - 1 ≡ s.packets = omega arith in
      rw (stopped-eq n asked w running task quiet aborted, ports, packets)

  not_sent :
      (n : ℕ) (port_ok pkt_ok : Bool) (p : Process) (s : System Net)
      → (port_ok && pkt_ok) ≡ false
      → send_die net alloc_ok n port_ok pkt_ok p s ≡ some (p, s)
  unfolding send_die with_port
  not_sent n false pkt_ok p s e = refl
  not_sent n true false p s e = let ports : s.ports + 1 - 1 ≡ s.ports = omega arith in rw ports
  not_sent n true true p s e = cc

  -- How the command ends for the node `d`, of the DOS list without it and of the granted requests.
  abbrev pub Removed :
      Bool → Option (ℕ × System Net) → System Net → DosList → List DosList → Net → Type 0
  Removed granted result s d kept w =
      ((granted ≡ true)
        × (result
            ≡ some (
              return_ok,
              record s {
                dev_info = kept;
                handler = stopped s.handler w;
                freed = s.freed ++ blocks_of d;
              },
            )))
      ⊎ ((granted ≡ false) × (result ≡ some (return_fail, record s { dev_info = kept })))

  dismiss_lem :
      (n : ℕ) (port_ok pkt_ok : Bool) (d : DosList) (s : System Net) {p : Process} {s' : System Net}
      → send_die net alloc_ok n port_ok pkt_ok d.process s ≡ some (p, s')
      → dismiss net alloc_ok n port_ok pkt_ok d s
        ≡ some (
            if has_task net alloc_ok n port_ok pkt_ok p s'
            then (return_fail, s')
            else (return_ok, record s' { freed = s'.freed ++ blocks_of d }))
  unfolding dismiss
  dismiss_lem n port_ok pkt_ok d s e = rw e

  -- Without a packet the handler goes on.
  left_alone :
      (n : ℕ) (port_ok pkt_ok : Bool) (d : DosList) (s : System Net)
      → d.process ≡ net_handler
      → s.handler.dn_task ≡ true
      → (port_ok && pkt_ok) ≡ false
      → dismiss net alloc_ok n port_ok pkt_ok d s ≡ some (return_fail, s)
  unfolding has_task
  left_alone n port_ok pkt_ok d s process task refused =
      dismiss_lem n port_ok pkt_ok d s (
        ap (λ p. send_die net alloc_ok n port_ok pkt_ok p s) process
        ∙ not_sent n port_ok pkt_ok net_handler s refused)
      ∙ ap
          (λ b. some (
            if b
            then (return_fail, s)
            else (return_ok, record s { freed = s.freed ++ blocks_of d })))
          task

  dismiss-Removed :
      (n : ℕ) (port_ok pkt_ok : Bool) (d : DosList) (s : System Net) (w : Net)
      → d.process ≡ net_handler
      → s.handler.running ≡ true
      → s.handler.dn_task ≡ true
      → s.handler.port ≡ []
      → net.abort s.handler.net ≡ some w
      → Removed
          (port_ok && pkt_ok)
          (dismiss net alloc_ok (suc n) port_ok pkt_ok d s)
          s
          d
          s.dev_info
          w
  unfolding has_task return_dos_packet
  dismiss-Removed n true true d s w process running task quiet aborted = inl (
    refl,
    dismiss_lem (suc n) true true d s (
        ap (λ p. send_die net alloc_ok (suc n) true true p s) process
        ∙ die_sent n s w running task quiet aborted),
  )
  dismiss-Removed n true false d s w process running task quiet aborted =
      inr (refl, left_alone (suc n) true false d s process task refl)
  dismiss-Removed n false pkt_ok d s w process running task quiet aborted =
      inr (refl, left_alone (suc n) false pkt_ok d s process task refl)

  -- Whatever stands in the DOS list (nodes with BCPL names of at most 127 bytes up to the device):
  -- for the name of the device with one byte behind it, which is not "list", the first node with
  -- that name is taken off the list, and all others stay in their order. Let that node be the
  -- handler's, which has its task in dn_Task, waits for packets, and can abort its I/O. If the
  -- message port and the packet can be had, the handler takes the packet, clears dn_Task and ends
  -- its main loop, and the command frees what the node holds and returns 0. Otherwise it returns
  -- 20, and the handler goes on, although its device is off the list.
  pub unmount_main-Removed :
      (n : ℕ) (port_ok pkt_ok : Bool) (dev : List ℕ) (c : ℕ) (before after : List DosList)
      (d : DosList) (s : System Net) (w : Net)
      → is_list (dev ++ c ∷ []) ≡ false
      → s.dev_info ≡ before ++ d ∷ after
      → OtherNames dev before
      → IsNamed dev d
      → d.process ≡ net_handler
      → s.handler.running ≡ true
      → s.handler.dn_task ≡ true
      → s.handler.port ≡ []
      → net.abort s.handler.net ≡ some w
      → Removed
          (port_ok && pkt_ok)
          (unmount_main net alloc_ok (suc n) port_ok pkt_ok ((dev ++ c ∷ []) ∷ []) s)
          s
          d
          (before ++ after)
          w
  unfolding unmount_main unmount
  unmount_main-Removed n port_ok pkt_ok dev c before after d s w other dol others named process
        running task quiet aborted =
      rw
        (
          other,
          ap (remove_device (dev ++ c ∷ [])) dol
              ∙ remove_device_lem dev c before after d others named,
        )
        (dismiss-Removed n port_ok pkt_ok d (record s { dev_info = before ++ after }) w process
          running task quiet aborted)
