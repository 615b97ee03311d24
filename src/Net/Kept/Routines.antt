-- ===== src/Net/Kept/Routines.antt =====
-- The routines of netio.c, one by one, as far as they leave the Buffer of the caller alone.
use cwnet.Base.{
  ℕ, suc, ◌+◌, ◌≡◌, ◌≢◌, refl, ap, sym, subst, ◌∙◌, List, Option, none, some, Bool, true, false,
  ◌==◌, arith, Bool-cases, inl, inr, if◌then◌else◌, ℤ, ltb, length, some-eq, store, memcpy,
}
use cwnet.Slip.{Buffer, max_buffer_size, slip_encode_buffer, slip_end, error_buffer_overflow}
use cwnet.Packet.{put_packet, ip_header, ip_bytes, u32, u16}
use cwnet.Net.State.{
  System, Net, M, ◌>>=◌, ◌>>◌, pure, set_errno, update, delete_buffer, create_buffer, with_buffer,
  send_slip_frame, or_null,
}
use cwnet.Net.Tftp.{
  create_udp_packet, create_ip_packet, create_slip_frame, add_slip_end, send_tftp_packet,
  send_tftp_req_packet, send_tftp_data_packet, unless_null, get_errno, request_bytes, data_header,
  block_size,
}
use cwnet.Net.Kept.{
  Inv, IsSafe, safe_bind, safe_pure, safe_lift, safe_deref, safe_set_errno, safe_assign,
  safe_delete,
}

module _ (pkt : ℕ) (P : Option Buffer → Type 0) where
  -- The result is not the Buffer of the caller.
  abbrev pub Apart : Option ℕ → Type 0
  Apart o = (a : ℕ) → o ≡ some a → a ≢ pkt

  Anything : {A : Type 0} → A → Type 0
  Anything a = Unit {0}

  safe_if :
      {A : Type 0} (b : Bool) (x y : M A) {Q : A → Type 0}
      → IsSafe pkt P x Q
      → IsSafe pkt P y Q
      → IsSafe pkt P (if b then x else y) Q
  safe_if true x y h k = h
  safe_if false x y h k = k

  safe_unless_null :
      (o : Option ℕ) (body : ℕ → M Bool)
      → Apart o
      → ((a : ℕ) → a ≢ pkt → IsSafe pkt P (body a) (λ _. Unit {0}))
      → IsSafe pkt P (unless_null o body) (λ _. Unit {0})
  safe_unless_null none body h k = safe_pure pkt P false tt
  safe_unless_null (some a) body h k = k a (h a refl)

  module _ (sys : System) where
    safe_create : IsSafe pkt P (create_buffer sys) Apart
    unfolding create_buffer
    safe_create = record {
      keeps = λ s i o s' e. elim (Bool-cases (sys.alloc_ok s.next)) [
        | inl met ↦
            let b : Buffer = record { b_addr = sys.junk s.next; b_size = 0 } in
            let t : Net = record s { cell = update s.cell s.next (some b); next = suc s.next } in
            let same = some-eq (
              sym (
                ap
                  (λ (ok : Bool).
                    if ok
                    then some (some s.next, t)
                    else some (none, record s { next = suc s.next }))
                  met)
              ∙ e) in
            let i' : Inv pkt P t = record {
              fresh = λ a far. ground (arith, i.fresh a (omega arith));
              near = omega (arith, i.near);
              has =
                  subst P
                    (let other : (s.next == pkt) ≡ false = (let near = i.near in ground arith) in
                      rw other)
                    i.has;
            } in
            (
              subst (Inv pkt P) (ap (λ u. u.1) same) i',
              λ a got at.
                  let new : s.next ≡ a = some-eq (ap (λ u. u.0) same ∙ got) in
                  omega (arith, i.near, new, at),
            )
        | inr refused ↦
            let t : Net = record s { next = suc s.next } in
            let same = some-eq (
              sym (
                ap
                  (λ (ok : Bool).
                    if ok
                    then some (
                      some s.next,
                      record s {
                        cell =
                            update s.cell s.next
                              (some (record { b_addr = sys.junk s.next; b_size = 0 }));
                        next = suc s.next;
                      },
                    )
                    else some (none, t))
                  refused)
              ∙ e) in
            let i' : Inv pkt P t = record {
              fresh = λ a far. i.fresh a (omega arith);
              near = omega (arith, i.near);
              has = i.has;
            } in
            (subst (Inv pkt P) (ap (λ u. u.1) same) i', λ a got at. cc (ap (λ u. u.0) same, got))
      ];
    }

    safe_with_buffer :
        {A : Type 0} (null : A) (body : ℕ → M A) {Q : A → Type 0}
        → Q null
        → ((a : ℕ) → a ≢ pkt → IsSafe pkt P (body a) Q)
        → IsSafe pkt P (with_buffer sys null body) Q
    unfolding with_buffer
    safe_with_buffer null body {Q} q k = safe_bind pkt P safe_create λ o apart. choose o apart
      where
        choose : (o : Option ℕ) → Apart o → IsSafe pkt P (or_null null body o) Q
        choose none apart = safe_bind pkt P (safe_set_errno pkt P _) λ _ _. safe_pure pkt P null q
        choose (some a) apart = k a (apart a refl)

    safe_some : (a : ℕ) → a ≢ pkt → IsSafe pkt P (set_errno 0 >> pure (some a)) Apart
    safe_some a differ =
        safe_bind pkt P (safe_set_errno pkt P 0)
          λ _ _. safe_pure pkt P (some a) (λ b e at. differ (some-eq e ∙ at))

    safe_null : (n : ℕ) → IsSafe pkt P (set_errno n >> pure none) Apart
    safe_null n =
        safe_bind pkt P (safe_set_errno pkt P n) λ _ _. safe_pure pkt P none (λ b e at. cc e)

    safe_udp : (p : ℕ) → IsSafe pkt P (create_udp_packet sys p) Apart
    unfolding create_udp_packet
    safe_udp p = safe_bind pkt P (safe_deref pkt P p) λ d _. safe_if _ _ _ (safe_null _) (
        safe_with_buffer none _ (λ b e at. cc e)
          λ a differ. safe_bind pkt P (safe_deref pkt P a) λ b _.
            safe_bind pkt P (safe_lift pkt P _) λ filled _.
              safe_bind pkt P (safe_assign pkt P a filled differ) λ _ _. safe_some a differ)

    safe_ip : (p : ℕ) → IsSafe pkt P (create_ip_packet sys p) Apart
    unfolding create_ip_packet
    safe_ip p = safe_bind pkt P (safe_deref pkt P p) λ d _. safe_if _ _ _ (safe_null _) (
        safe_with_buffer none _ (λ b e at. cc e)
          λ a differ. safe_bind pkt P (safe_deref pkt P a) λ b _.
            safe_bind pkt P (safe_lift pkt P (ip_header sys.order d.b_size)) λ hdr _.
              safe_bind pkt P (safe_lift pkt P (put_packet (ip_bytes sys.order hdr) b d))
                λ filled _.
                  safe_bind pkt P (safe_assign pkt P a filled differ) λ _ _. safe_some a differ)

    safe_end : (a : ℕ) → a ≢ pkt → IsSafe pkt P (add_slip_end a) Apart
    unfolding add_slip_end
    safe_end a differ = safe_bind pkt P (safe_deref pkt P a) λ f _.
        safe_if (ltb f.b_size max_buffer_size) _ _
          (safe_bind pkt P (safe_lift pkt P (store f.b_addr f.b_size slip_end)) λ marked _.
            safe_bind pkt P
              (safe_assign pkt P a (record { b_addr = marked; b_size = f.b_size + 1 }) differ)
              λ _ _. safe_some a differ)
          (safe_null error_buffer_overflow)

    safe_slip : (p : ℕ) → IsSafe pkt P (create_slip_frame sys p) Apart
    unfolding create_slip_frame
    safe_slip p =
        safe_with_buffer none _ (λ b e at. cc e)
          λ a differ. safe_bind pkt P (safe_deref pkt P p) λ d _.
            safe_bind pkt P (safe_deref pkt P a) λ f _.
              safe_bind pkt P (safe_lift pkt P (slip_encode_buffer f d)) λ c _.
                safe_bind pkt P (safe_assign pkt P a c.dbuf differ) λ _ _.
                  safe_bind pkt P (safe_set_errno pkt P c.errno) λ _ _.
                    safe_if c.success _ _ (safe_end a differ)
                      (safe_pure pkt P none (λ b e at. cc e))

    safe_errno : IsSafe pkt P get_errno (λ _. Unit {0})
    safe_errno = record {
      keeps = λ s i a s' e. (subst (Inv pkt P) (ap (λ t. t.1) (some-eq e)) i, tt);
    }

    safe_write : (f : ℕ) → IsSafe pkt P (send_slip_frame sys f true) (λ _. Unit {0})
    unfolding send_slip_frame
    safe_write f = safe_bind pkt P (safe_deref pkt P f) λ b _. record {
      keeps = λ s i a s' e. (
        subst (Inv pkt P) (ap (λ t. t.1) (some-eq e))
            (record { fresh = i.fresh; near = i.near; has = i.has }),
        tt,
      );
    }

    safe_packet : (p : ℕ) → p ≢ pkt → IsSafe pkt P (send_tftp_packet sys p true) (λ _. Unit {0})
    unfolding send_tftp_packet
    safe_packet p differ = safe_bind pkt P (safe_udp p) λ udp h.
        safe_unless_null udp _ h λ u u_differs. safe_bind pkt P (safe_delete pkt P p differ) λ _ _.
          safe_bind pkt P (safe_ip u) λ ip h'. safe_unless_null ip _ h' λ i i_differs.
            safe_bind pkt P (safe_delete pkt P u u_differs) λ _ _.
              safe_bind pkt P (safe_slip i) λ slip h''.
                safe_unless_null slip _ h'' λ f f_differs. safe_hand i f i_differs f_differs
      where
        safe_hand :
            (i f : ℕ)
            → i ≢ pkt
            → f ≢ pkt
            → IsSafe pkt P
                (delete_buffer i
                  >> (send_slip_frame sys f true >>= λ sent.
                      delete_buffer f >> (get_errno >>= λ e. pure (e == 0))))
                (λ _. Unit {0})
        safe_hand i f i_differs f_differs = safe_bind pkt P (safe_delete pkt P i i_differs) λ _ _.
            safe_bind pkt P (safe_write f) λ _ _.
              safe_bind pkt P (safe_delete pkt P f f_differs)
                λ _ _. safe_bind pkt P safe_errno λ e _. safe_pure pkt P (e == 0) tt

    pub safe_request :
        (opcode : ℕ) (fname : List ℕ)
        → IsSafe pkt P (send_tftp_req_packet sys opcode fname) (λ _. Unit {0})
    unfolding send_tftp_req_packet
    safe_request opcode fname =
        safe_if (ltb max_buffer_size (length fname + 12)) _ _
          (safe_bind pkt P (safe_set_errno pkt P error_buffer_overflow)
            λ _ _. safe_pure pkt P false tt)
          (safe_with_buffer false _ tt λ a differ. safe_bind pkt P (safe_deref pkt P a) λ b _.
            safe_bind pkt P
              (safe_lift pkt P (
                memcpy b.b_addr 0 (request_bytes sys.order opcode fname) 0
                  (length (request_bytes sys.order opcode fname))))
              λ filled _.
                safe_bind pkt P
                  (safe_assign pkt P a (record { b_addr = filled; b_size = length fname + 12 })
                    differ)
                  λ _ _. safe_packet a differ)

    pub safe_data :
        (blknum : ℕ) (bytes : List ℕ) (from : ℕ) (n : ℤ)
        → IsSafe pkt P (send_tftp_data_packet sys blknum bytes from n) (λ _. Unit {0})
    unfolding send_tftp_data_packet
    safe_data blknum bytes from n = safe_with_buffer false _ tt λ a differ.
        safe_bind pkt P (safe_deref pkt P a) λ b _.
          safe_bind pkt P
            (safe_lift pkt P (memcpy b.b_addr 0 (data_header sys.order (u16 blknum)) 0 4))
            λ one _.
              safe_bind pkt P (safe_lift pkt P (memcpy one 4 bytes from (block_size n))) λ two _.
                safe_bind pkt P
                  (safe_assign pkt P a (record { b_addr = two; b_size = u32 (block_size n + 4) })
                    differ)
                  λ _ _. safe_packet a differ
