-- ===== src/Net/Receive.antt =====
-- What `extract_tftp_packet` makes of a frame without escape sequences.
pub mod Unpack
use cwnet.Base.{
  ℕ, suc, ◌+◌, ◌≡◌, ◌≢◌, ◌<◌, ◌≤◌, refl, ap, sym, ◌∙◌, List, ◌++◌, none, some, Bool, true, false,
  if◌then◌else◌, ◌==◌, length, arith, memcpy, take, Bool-cases, ltb, inl, inr,
}
use cwnet.Slip.{Buffer, Coded, max_buffer_size}
use cwnet.Slip.Decode.Whole.{Frame, slip_decode_buffer_plain, slip_decode_buffer_front}
use cwnet.Packet.Copy.{Holds, get_payload-Holds, memcpy_lem}
use cwnet.Net.State.{
  System, Net, M, ◌>>=◌, ◌>>◌, pure, lift, deref, assign, set_errno, update, delete_buffer,
}
use cwnet.Net.Laws.{
  IsFresh, Full, Full-lt, Made, Made-IsFresh, allocated, fresh_block, fresh_block-size,
  with_buffer_ok, deref-allocated, deref-allocated_other, filled, fill_lem, filled-Made, deref_lem,
  run, freed, freed-Full, freed-IsFresh, delete_buffer_lem,
}
use cwnet.Net.Tftp.{get_serial, get_data_from, extract_tftp_packet, unless_null}

-- With memory for its Buffer, `get_data_from` makes a Buffer of what stands behind the header.
get_data_from-Made :
    (sys : System) (s : Net) (p len : ℕ) (hdr rest : List ℕ)
    → IsFresh s
    → sys.alloc_ok s.next ≡ true
    → Full s p (hdr ++ rest)
    → length hdr ≡ len
    → (s' : Net) × (get_data_from sys len p s ≡ some (some s.next, s')) × Made s s' rest
unfolding get_data_from
get_data_from-Made sys s p len hdr rest fresh memory full e =
    let (r, get, h) =
      get_payload-Holds len (fresh_block sys s) full.block hdr rest (fresh_block-size sys s)
        full.holds e in
    (
      filled sys s r,
      with_buffer_ok sys none _ s memory
          ∙ run (deref p) _ (allocated sys s)
              (deref-allocated_other sys s p full.block fresh full.found)
          ∙ run (deref s.next) _ (allocated sys s) (deref-allocated sys s)
          ∙ rw get (fill_lem sys s r),
      filled-Made sys s r rest h,
    )

-- The state after the frame was decoded.
decoded : System → Net → Buffer → Net
unfolding allocated
decoded sys s b = record (allocated sys s) {
  errno = 0;
  cell = update (allocated sys s).cell s.next (some b);
}

decoded_lem :
    (sys : System) (s : Net) (c : Coded) (b : Buffer) (yes_ no_ : M Bool)
    → c.dbuf ≡ b
    → c.errno ≡ 0
    → c.success ≡ true
    → (assign s.next c.dbuf >> (set_errno c.errno >> (if c.success then yes_ else no_)))
        (allocated sys s)
      ≡ yes_ (decoded sys s b)
unfolding assign set_errno allocated decoded
decoded_lem sys s c b yes_ no_ e f g = ground arith

decoded-Made :
    (sys : System) (s : Net) (b : Buffer) (bytes : List ℕ)
    → Holds b bytes
    → Made s (decoded sys s b) bytes
unfolding decoded allocated
decoded-Made sys s b bytes h = record {
  made = record { block = b; found = ground arith; holds = h };
  others = λ a ne. ground arith;
  next_eq = refl;
  no_error = refl;
  sreq_eq = refl;
  treq_eq = refl;
  wire_eq = refl;
}

-- `s'` is `s` after the TFTP packet was copied to `pkt`: the Buffer `x` is freed, and every other
-- one is as it was.
pub record Extracted (pkt x : ℕ) (tftp : List ℕ) (s s' : Net) : Type 0 where
  pub holds : Full s' pkt tftp
  pub no_error : s'.errno ≡ 0
  pub wire_eq : s'.wire ≡ s.wire
  pub gone : s'.cell x ≡ none
  pub next_le : s.next ≤ s'.next
  pub others : (c : ℕ) → c ≢ pkt → c ≢ x → s'.cell c ≡ s.cell c

freed_self : (s : Net) (x : ℕ) → (freed s x).cell x ≡ none
unfolding freed
freed_self s x = ground arith

freed_other : (s : Net) (x c : ℕ) → x ≢ c → (freed s x).cell c ≡ s.cell c
unfolding freed
freed_other s x c differ = ground arith

-- The step of a layer: a new Buffer is made from `x`, and `x` is freed.
Extracted-after :
    (pkt x : ℕ) (tftp bytes : List ℕ) (s s₁ s' : Net)
    → IsFresh s
    → x < s.next
    → x ≢ pkt
    → Made s s₁ bytes
    → Extracted pkt s.next tftp (freed s₁ x) s'
    → Extracted pkt x tftp s s'
unfolding freed
Extracted-after pkt x tftp bytes s s₁ s' fresh near differ m e = record {
  holds = e.holds;
  no_error = e.no_error;
  wire_eq = e.wire_eq ∙ m.wire_eq;
  next_le = omega (arith, m.next_eq, e.next_le);
  gone = e.others x differ (λ q. omega arith) ∙ freed_self s₁ x;
  others = λ c other kept. elim (Bool-cases (c == s.next)) [
    | inl new ↦
        let q : c ≡ s.next = ground arith in ap s'.cell q ∙ e.gone ∙ sym (fresh c (omega arith))
    | inr old ↦
        let q : c ≢ s.next = λ r. ground arith in
        e.others c other q ∙ freed_other s₁ x c (λ r. kept (sym r)) ∙ m.others c q
  ];
}
