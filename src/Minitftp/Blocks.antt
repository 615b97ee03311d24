-- ===== src/Minitftp/Blocks.antt =====
-- minitftp.c: one pass of the loop of `main`, on any host that keeps its contract.
use cwnet.Base.{
  some, Option, ℕ, ◌%◌, ◌^◌, ◌≡◌, ◌≤◌, ◌<◌, refl, ap, ap₂, subst, sym, ◌∙◌, List, [], ◌∷◌, ◌++◌,
  Bool, true, false, length, arith, ltb, Bool-cases, inl, inr, ℤ, pos, if◌then◌else◌, take, ltb→lt,
  ltb→le,
}
use cwnet.Protocol.{tftp_max_data_size}
use cwnet.Net.Tftp.{data_header}
use cwnet.Minitftp.Packets.{max_pkt_size, data_packet, data_packet-data_header, data_packet_long}
use cwnet.Minitftp.Host.{Host, Locals}
use cwnet.Minitftp.Command.{
  recv_packet, read_block, send_data_packet, send_next_block, to_uint16, send_if,
}
use cwnet.Minitftp.Contract.{Lawful, View}
use cwnet.Minitftp.Runs.{
  runs_await, Runs, runs_bind, runs_pure, runs_lift, runs_get, runs_do, runs_call, runs_weaken,
}
use cwnet.Minitftp.Steps.{
  Sized, Same, unless_failed, check_answer-Same, keep_packet-Sized, keep_block-Read, Read, failed,
  given,
}

pub to_uint16_small :
    (buflen : ℤ) (n : ℕ) → buflen ≡ pos n → n ≤ tftp_max_data_size → to_uint16 buflen ≡ n
to_uint16_small buflen n e small =
    let small_enough : n % 2 ^ 16 ≡ n = omega arith in ap to_uint16 e ∙ small_enough

module _ (host : Host) (lawful : Lawful host) where
  abbrev pub view : Locals host.State → View
  view l = lawful.view l.world

  -- What every statement leaves as it is, with the error flag that is never reset.
  pub record Carries (l l' : Locals host.State) : Type 0 where
    pub sized : Sized l'
    pub held_eq : (view l').held ≡ (view l).held
    pub flag : l'.error ≡ false → l.error ≡ false

  -- A block of the file has been read and sent.
  pub record Moved (blknum : ℕ) (l : Locals host.State) (buflen : ℤ) (l' : Locals host.State)
      : Type 0 where
    pub bytes : List ℕ
    pub buflen_eq : buflen ≡ pos (length bytes)
    pub small : length bytes ≤ tftp_max_data_size
    pub taken : (view l).remaining ≡ bytes ++ (view l').remaining
    pub last : length bytes < tftp_max_data_size → (view l').remaining ≡ []
    pub sent_eq : (view l').sent ≡ (view l).sent ++ (data_header host.order blknum ++ bytes) ∷ []

  -- The packet that goes out for `datalen` bytes of the buffer, if it does.
  pub Posted : ℕ → ℕ → Locals host.State → Bool → Locals host.State → Type 0
  Posted blknum datalen l ok l' =
      (l'.pkt ≡ l.pkt)
      × (l'.buffer ≡ l.buffer)
      × (l'.error ≡ l.error)
      × ((view l').held ≡ (view l).held)
      × ((view l').remaining ≡ (view l).remaining)
      × (ok ≡ true
          → datalen ≤ tftp_max_data_size
          → (view l').sent
            ≡ (view l).sent ++ (data_header host.order blknum ++ take datalen l.buffer) ∷ [])

  pub posted_view :
      (packet : List ℕ) (ok : Bool) (v v' : View)
      → v' ≡ (if ok then record v { sent = v.sent ++ packet ∷ [] } else v)
      → (v'.held ≡ v.held)
        × (v'.remaining ≡ v.remaining)
        × (ok ≡ true → v'.sent ≡ v.sent ++ packet ∷ [])
  posted_view packet true v v' e =
      (ap (λ x. x.held) e, ap (λ x. x.remaining) e, λ _. ap (λ x. x.sent) e)
  posted_view packet false v v' e = (ap (λ x. x.held) e, ap (λ x. x.remaining) e, λ f. cc f)

  pub send_data_packet-Posted :
      (blknum datalen : ℕ) (l : Locals host.State)
      → Sized l
      → Runs (send_data_packet host l.buffer blknum datalen) l (Posted blknum datalen l)
  unfolding send_data_packet Posted send_if
  send_data_packet-Posted blknum datalen l size =
      let block = host.length-stack max_pkt_size l.world in
      let stack = host.stack max_pkt_size l.world in
      elim (Bool-cases (ltb tftp_max_data_size datalen)) [
        | inl long ↦ runs_get _ (
            runs_lift (data_packet host.order stack l.buffer blknum datalen) _
              (data_packet_long host.order stack l.buffer blknum datalen block (ltb→lt _ _ long))
              (runs_pure _ (refl, refl, refl, refl, refl, λ e. cc e)))
        | inr small ↦
            let packet = data_header host.order blknum ++ take datalen l.buffer in
            let (h, r, s) = posted_view packet _ _ _ (lawful.sendto_lem packet l.world) in
            runs_get _ (
              runs_lift (data_packet host.order stack l.buffer blknum datalen) _
                (data_packet-data_header host.order stack l.buffer blknum datalen block
                  (ltb→le _ _ small) (omega (arith, ltb→le _ _ small, size.buffer_size)))
                (runs_call (host.sendto packet) (refl, refl, refl, h, r, λ e _. s e)))
      ]

  pub recv_packet-Carries :
      (l : Locals host.State)
      → Sized l
      → Runs (recv_packet host) l (λ _ l'. Sized l' × (view l' ≡ view l) × (l'.error ≡ l.error))
  unfolding recv_packet
  recv_packet-Carries l size = runs_await (host.recvfrom max_pkt_size) _ λ r w e.
      runs_weaken
        (keep_packet-Sized r (record l { world = w })
          (λ bytes got.
            lawful.recvfrom_some max_pkt_size l.world w bytes
              (e ∙ ap (λ (o : Option (List ℕ)). some (o, w)) got))
          (record { pkt_size = size.pkt_size; buffer_size = size.buffer_size }))
        (λ _ l' h. (h.0, ap lawful.view h.1 ∙ lawful.recvfrom_lem max_pkt_size l.world w r e, h.2))

  -- A read has happened: on success the buffer starts with the next bytes of the file.
  unfoldable pub Taken : Locals host.State → ℤ → Locals host.State → Type 0
  Taken l buflen l' =
      Sized l'
      × ((view l').held ≡ (view l).held)
      × ((view l').sent ≡ (view l).sent)
      × (l'.error ≡ false
          → (l.error ≡ false)
            × ((bytes : List ℕ) × (buflen ≡ pos (length bytes))
                × (length bytes ≤ tftp_max_data_size)
                × ((view l).remaining ≡ bytes ++ (view l').remaining)
                × (length bytes < tftp_max_data_size → (view l').remaining ≡ [])
                × (take (length bytes) l'.buffer ≡ bytes)))

  Read-Taken :
      (l l' : Locals host.State) (buflen : ℤ)
      → Sized l'
      → l'.world ≡ (host.read tftp_max_data_size l.world).1
      → Read
          (host.read tftp_max_data_size l.world).0
          (record l { world = (host.read tftp_max_data_size l.world).1 })
          l'
          buflen
      → Taken l buflen l'
  unfolding Taken
  Read-Taken l l' buflen size w (failed r e) = (
    size,
    ap (λ x. (lawful.view x).held) w ∙ lawful.read_held tftp_max_data_size l.world,
    ap (λ x. (lawful.view x).sent) w ∙ lawful.read_sent tftp_max_data_size l.world,
    λ f. cc (e, f),
  )
  Read-Taken l l' buflen size w (given r bytes e n front same) =
      let (small, next, rest) = lawful.read_some tftp_max_data_size l.world bytes e in
      let remains = ap (λ x. (lawful.view x).remaining) w in
      (
        size,
        ap (λ x. (lawful.view x).held) w ∙ lawful.read_held tftp_max_data_size l.world,
        ap (λ x. (lawful.view x).sent) w ∙ lawful.read_sent tftp_max_data_size l.world,
        λ f. (
          sym same ∙ f,
          (
            bytes,
            n,
            small,
            next ∙ ap (◌++◌ bytes) (sym remains),
            λ short. remains ∙ rest short,
            front,
          ),
        ),
      )

  pub read_block-Taken : (l : Locals host.State) → Sized l → Runs (read_block host) l (Taken l)
  unfolding read_block
  read_block-Taken l size =
      let read = host.read tftp_max_data_size l.world in
      runs_do (host.read tftp_max_data_size) _ (
        runs_weaken
          (keep_block-Read read.0 (record l { world = read.1 })
            (λ bytes e. (lawful.read_some tftp_max_data_size l.world bytes e).0)
            (record { pkt_size = size.pkt_size; buffer_size = size.buffer_size }))
          (λ r l' h. Read-Taken l l' r h.0 h.1 h.2))

  -- One pass keeps what the others need, and if the flag is not set, it has read and sent a block.
  unfoldable pub Pass : ℕ → Locals host.State → ℤ → Locals host.State → Type 0
  Pass blknum l buflen l' = Carries l l' × (l'.error ≡ false → Moved blknum l buflen l')

  pub Same-Sized : (l l' : Locals host.State) → Same l l' → Sized l → Sized l'
  Same-Sized l l' same size = record {
    pkt_size = ap length same.pkt_eq ∙ size.pkt_size;
    buffer_size = ap length same.buffer_eq ∙ size.buffer_size;
  }

  pub Posted-Sized :
      (blknum datalen : ℕ) (l l' : Locals host.State) (ok : Bool)
      → Posted blknum datalen l ok l'
      → Sized l
      → Sized l'
  unfolding Posted
  Posted-Sized blknum datalen l l' ok p size = record {
    pkt_size = ap length p.0 ∙ size.pkt_size;
    buffer_size = ap length p.1 ∙ size.buffer_size;
  }

  pub Taken-Sized : (l l' : Locals host.State) (buflen : ℤ) → Taken l buflen l' → Sized l'
  unfolding Taken
  Taken-Sized l l' buflen t = t.0

  -- The rest of the pass is about the answer: it leaves the file and the datagrams alone.
  settled :
      (blknum : ℕ) (l l₁ l₂ l' : Locals host.State) (buflen : ℤ) (ok : Bool)
      → Taken l buflen l₁
      → Posted blknum (to_uint16 buflen) l₁ ok l₂
      → Sized l'
      → view l' ≡ view l₂
      → (l'.error ≡ false → (l₂.error ≡ false) × (ok ≡ true))
      → Pass blknum l buflen l'
  unfolding Taken Posted Pass
  settled blknum l l₁ l₂ l' buflen ok t p size same flag =
      let clear : l'.error ≡ false → l₁.error ≡ false = λ f. sym p.2 ∙ (flag f).0 in
      (
        record {
          sized = size;
          held_eq = ap (λ v. v.held) same ∙ p.3 ∙ t.1;
          flag = λ f. (t.3 (clear f)).0;
        },
        λ f.
            let (bytes, n, small, taken, last, front) = (t.3 (clear f)).1 in
            let e : to_uint16 buflen ≡ length bytes =
              to_uint16_small buflen (length bytes) n small in
            let remains = ap (λ v. v.remaining) same ∙ p.4 in
            record {
              bytes = bytes;
              buflen_eq = n;
              small = small;
              taken = taken ∙ ap (◌++◌ bytes) (sym remains);
              last = λ short. remains ∙ last short;
              sent_eq =
                  ap (λ v. v.sent) same
                  ∙ p.5 (flag f).1 (subst (λ k. k ≤ tftp_max_data_size) (sym e) small)
                  ∙ ap₂ (λ before b. before ++ (data_header host.order blknum ++ b) ∷ []) t.2
                      (ap (λ k. take k l₁.buffer) e ∙ front);
            },
      )

  pub send_next_block-Pass :
      (blknum : ℕ) (l : Locals host.State)
      → Sized l
      → Runs (send_next_block host blknum) l (Pass blknum l)
  unfolding send_next_block
  send_next_block-Pass blknum l size = runs_bind (read_block-Taken l size) λ buflen l₁ t.
      runs_get _ (
        let size₁ = Taken-Sized l l₁ buflen t in
        runs_bind (send_data_packet-Posted blknum (to_uint16 buflen) l₁ size₁) λ ok l₂ p.
          let size₂ = Posted-Sized blknum (to_uint16 buflen) l₁ l₂ ok p size₁ in
          runs_bind (unless_failed ok _ l₂) λ _ l₃ u.
            runs_bind (recv_packet-Carries l₃ (Same-Sized l₂ l₃ u.0 size₂)) λ got l₄ v.
              runs_bind (unless_failed got _ l₄) λ _ l₅ x.
                let size₅ = Same-Sized l₄ l₅ x.0 v.0 in
                runs_bind (check_answer-Same host blknum l₅ size₅.pkt_size) λ _ l₆ y. runs_pure _ (
                  settled blknum l l₁ l₂ l₆ buflen ok t p (Same-Sized l₅ l₆ y size₅)
                    (ap lawful.view (y.world_eq ∙ (x.0).world_eq)
                      ∙ v.1
                      ∙ ap lawful.view (u.0).world_eq)
                    (λ f. let f₃ = sym v.2 ∙ (x.0).flag (y.flag f) in ((u.0).flag f₃, u.1 f₃))))
