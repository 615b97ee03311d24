-- ===== src/Net/Frame.antt =====
-- `create_slip_frame`: when it makes the frame of a packet, and when it reports an overflow.
use cwnet.Base.{
  ℕ, suc, ◌+◌, ◌≡◌, ◌≤◌, ◌<◌, refl, ap, ◌∙◌, List, [], ◌∷◌, ◌++◌, Option, none, some, true,
  if◌then◌else◌, length, arith, ◌⊎◌, inl, inr, ltb, take, Bool-cases, take-set, set, length-set,
  store-some,
}
use cwnet.Slip.{Buffer, max_buffer_size, slip_encode_buffer, slip_end, Coded, error_buffer_overflow}
use cwnet.Slip.Spec.{encode}
use cwnet.Slip.Encode.Whole.{IsBlock, slip_encode_buffer_lem, EncodedAll, Overflows}
use cwnet.Packet.Copy.{Holds}
use cwnet.Net.State.{System, Net, M, ◌>>◌, pure, set_errno, deref, assign, update}
use cwnet.Net.Laws.{
  IsFresh, Full, Made, allocated, fresh_block, fresh_block-size, with_buffer_ok, deref-allocated,
  deref-allocated_other, run,
}
use cwnet.Net.Tftp.{create_slip_frame, add_slip_end}

-- The frame of a packet: its coding and the end marker.
abbrev pub slip_frame : List ℕ → List ℕ
slip_frame bytes = encode bytes ++ slip_end ∷ []

module _ (sys : System) (s : Net) where
  -- The state behind the call of `slip_encode_buffer`.
  coded_state : Coded → Net
  unfolding allocated
  coded_state c = record (allocated sys s) {
    errno = c.errno;
    cell = update (allocated sys s).cell s.next (some c.dbuf);
  }

  coded_state_lem :
      (c : Coded) (k : M (Option ℕ))
      → (assign s.next c.dbuf >> (set_errno c.errno >> k)) (allocated sys s) ≡ k (coded_state c)
  unfolding assign set_errno allocated coded_state
  coded_state_lem c k = ground arith

  marked : Buffer → Buffer
  marked b = record { b_addr = set b.b_addr b.b_size slip_end; b_size = b.b_size + 1 }

  marked-Holds :
      (b : Buffer) (bytes : List ℕ)
      → Holds b bytes
      → b.b_size < max_buffer_size
      → Holds (marked b) (bytes ++ slip_end ∷ [])
  unfolding marked
  marked-Holds b bytes h room =
      let e : b.b_size + 1 ≡ suc b.b_size = omega arith in
      record {
        block = record {
          block_size = length-set b.b_addr b.b_size slip_end ∙ h.block.block_size;
          in_use = omega arith;
        };
        bytes_eq =
            ap (λ n. take n (set b.b_addr b.b_size slip_end)) e
            ∙ take-set b.b_size b.b_addr slip_end (omega (arith, h.block.block_size))
            ∙ ap (λ t. t ++ slip_end ∷ []) h.bytes_eq;
      }

  marked_state : Coded → Net
  unfolding coded_state marked
  marked_state c = record (coded_state c) {
    errno = 0;
    cell = update (coded_state c).cell s.next (some (marked c.dbuf));
  }

  add_slip_end_lem :
      (c : Coded)
      → IsBlock c.dbuf
      → (c.dbuf).b_size < max_buffer_size
      → add_slip_end s.next (coded_state c) ≡ some (some s.next, marked_state c)
  unfolding add_slip_end coded_state marked_state deref assign set_errno
  add_slip_end_lem c b room =
      ground (arith, store-some (c.dbuf).b_addr (c.dbuf).b_size slip_end, b.block_size)

  add_slip_end_full :
      (c : Coded)
      → max_buffer_size ≤ (c.dbuf).b_size
      → add_slip_end s.next (coded_state c)
        ≡ some (none, record (coded_state c) { errno = error_buffer_overflow })
  unfolding add_slip_end coded_state deref set_errno
  add_slip_end_full c full = ground arith

  marked_state-Made :
      (c : Coded) (bytes : List ℕ) → Holds (marked c.dbuf) bytes → Made s (marked_state c) bytes
  unfolding marked_state allocated
  marked_state-Made c bytes h = record {
    made = record { block = marked c.dbuf; found = ground arith; holds = h };
    others = λ a ne. ground arith;
    next_eq = refl;
    no_error = refl;
    sreq_eq = refl;
    treq_eq = refl;
    wire_eq = refl;
  }

module _ (sys : System) (s : Net) (p : ℕ) (bytes : List ℕ) (fresh : IsFresh s)
    (memory : sys.alloc_ok s.next ≡ true) (f : Full s p bytes) where
  abbrev after_coding : Coded → M (Option ℕ)
  after_coding c = if c.success then add_slip_end s.next else pure none

  after_coding_ok :
      (c : Coded) (t : Net) → c.success ≡ true → after_coding c t ≡ add_slip_end s.next t
  after_coding_ok c t e = ap (λ b. (if b then add_slip_end s.next else pure none) t) e

  -- The call up to the coding of the data.
  coding :
      (c : Coded)
      → slip_encode_buffer (fresh_block sys s) f.block ≡ some c
      → create_slip_frame sys p s ≡ after_coding c (coded_state sys s c)
  unfolding create_slip_frame
  coding c e =
      with_buffer_ok sys none _ s memory
      ∙ run (deref p) _ (allocated sys s) (deref-allocated_other sys s p f.block fresh f.found)
      ∙ run (deref s.next) _ (allocated sys s) (deref-allocated sys s)
      ∙ rw e (coded_state_lem sys s c (after_coding c))

  module _ (c : Coded) (e : slip_encode_buffer (fresh_block sys s) f.block ≡ some c) where
    frame-Made :
        IsBlock c.dbuf
        → EncodedAll bytes c
        → length (encode bytes) < max_buffer_size
        → (s' : Net) × (create_slip_frame sys p s ≡ some (some s.next, s'))
          × Made s s' (slip_frame bytes)
    frame-Made block all short =
        let room : (c.dbuf).b_size < max_buffer_size = omega (arith, all.size) in
        (
          marked_state sys s c,
          coding c e
              ∙ after_coding_ok c (coded_state sys s c) all.ok
              ∙ add_slip_end_lem sys s c block room,
          marked_state-Made sys s c (slip_frame bytes) (
              marked-Holds sys s c.dbuf (encode bytes)
                (record { block = block; bytes_eq = all.coded }) room),
        )

    frame_full :
        EncodedAll bytes c
        → max_buffer_size ≤ length (encode bytes)
        → (s' : Net) × (create_slip_frame sys p s ≡ some (none, s'))
          × (s'.errno ≡ error_buffer_overflow)
          × (s'.wire ≡ s.wire)
    unfolding coded_state
    frame_full all long = (
      record (coded_state sys s c) { errno = error_buffer_overflow },
      coding c e
          ∙ after_coding_ok c (coded_state sys s c) all.ok
          ∙ add_slip_end_full sys s c (omega (arith, all.size)),
      refl,
      refl,
    )

    frame_cut :
        Overflows bytes c
        → (s' : Net) × (create_slip_frame sys p s ≡ some (none, s'))
          × (s'.errno ≡ error_buffer_overflow)
          × (s'.wire ≡ s.wire)
    unfolding coded_state
    frame_cut o = (coded_state sys s c, coding c e ∙ rw (o.failed), o.overflow, refl)

  -- With memory for its Buffer, `create_slip_frame` makes the frame of its data exactly when the
  -- coding leaves room for the end marker; otherwise it returns NULL and reports an overflow.
  pub create_slip_frame_lem :
      ((length (encode bytes) < max_buffer_size)
        × ((s' : Net) × (create_slip_frame sys p s ≡ some (some s.next, s'))
            × Made s s' (slip_frame bytes)))
      ⊎ ((max_buffer_size ≤ length (encode bytes))
          × ((s' : Net) × (create_slip_frame sys p s ≡ some (none, s'))
              × (s'.errno ≡ error_buffer_overflow)
              × (s'.wire ≡ s.wire)))
  create_slip_frame_lem =
      let (c, e, block, outcome) =
        slip_encode_buffer_lem (fresh_block sys s) f.block (fresh_block-size sys s)
          (omega (arith, f.holds.block.block_size, f.holds.block.in_use)) in
      elim (rw (f.holds.bytes_eq) at outcome) [
        | inl all ↦ elim (Bool-cases (ltb (length (encode bytes)) max_buffer_size)) [
          | inl short ↦ inl (ground arith, frame-Made c e block all (ground arith))
          | inr long ↦ inr (ground arith, frame_full c e all (ground arith))
        ]
        | inr o ↦ inr (o.too_long, frame_cut c e o)
      ]
