-- ===== src/Handler/Transfer/Whole.antt =====
-- The whole of a file: every buffer in blocks of 512 bytes.
use cwnet.Base.{
  ℕ, zero, suc, ◌+◌, ◌-◌, ◌*◌, ◌/◌, ◌≡◌, ◌≤◌, ◌<◌, refl, ap, ap₂, sym, ◌∙◌, List, [], ◌∷◌, ◌++◌,
  false, ℤ, pos, length, take, drop, min, arith, inl, inr, sub_nat, exceeds, append-nil,
  append_assoc, All, Bool-cases, ltb, drop_all, drop-drop, take-append-drop, take_all, length-drop,
  length-take, length-append,
}
use cwnet.Handler.State.{
  FileBuffer, TransferState, data_sent, finished, Handler, send_next_buffer, continue_buffer,
  file_finished, buffer_finished, write_return,
}
use cwnet.Handler.Network.{NetIo}
use cwnet.Handler.Reliable.{Block, Reliable, Runs, here, then_, Runs-trans}
use cwnet.Handler.Transfer.{
  file_at, buffer_at, Waiting, Told, written, answered, continued, buffer_done, next_sent, all_sent,
}

-- The bytes of several pieces in a row.
abbrev pub joined : List (List ℕ) → List ℕ
joined [] = []
joined (p ∷ ps) = p ++ joined ps

-- Packets with the numbers behind `k`.
abbrev pub numbered : ℕ → List (List ℕ) → List Block
numbered k [] = []
numbered k (p ∷ ps) = record { number = k + 1; payload = p } ∷ numbered (k + 1) ps

abbrev pub IsShort : List ℕ → Type 0
IsShort p = length p ≤ 512

-- The blocks that buffers of these contents may take.
abbrev pub blocks_needed : List (List ℕ) → ℕ
blocks_needed [] = 0
blocks_needed (b ∷ bs) = length b / 512 + 1 + blocks_needed bs

numbered-append :
    (k : ℕ) (ps qs : List (List ℕ))
    → numbered k (ps ++ qs) ≡ numbered k ps ++ numbered (k + length ps) qs
numbered-append k [] qs = let e : k + 0 ≡ k = omega arith in ap (λ n. numbered n qs) (sym e)
numbered-append k (p ∷ ps) qs =
    let e : k + 1 + length ps ≡ k + suc (length ps) = omega arith in
    ap (◌∷◌ (record { number = k + 1; payload = p }))
      (numbered-append (k + 1) ps qs ∙ ap (λ n. numbered (k + 1) ps ++ numbered n qs) e)

joined-append : (ps qs : List (List ℕ)) → joined (ps ++ qs) ≡ joined ps ++ joined qs
joined-append [] qs = refl
joined-append (p ∷ ps) qs =
    ap (◌++◌ p) (joined-append ps qs) ∙ sym (append_assoc p (joined ps) (joined qs))

All-append {ℓ κ} :
    {A : Type ℓ} (P : A → Type κ) (xs ys : List A) → All P xs → All P ys → All P (xs ++ ys)
All-append P [] ys h k = k
All-append P (x ∷ xs) ys h k = (h.0, All-append P xs ys h.1 k)

-- A block and what is behind it.
block_split : (n : ℕ) (xs : List ℕ) → n ≡ length xs → take (min n 512) xs ++ drop 512 xs ≡ xs
block_split n xs e = elim (Bool-cases (ltb 512 n)) [
  | inl long ↦ let m : min n 512 ≡ 512 = ground arith in rw m (take-append-drop 512 xs)
  | inr short ↦
      let m : min n 512 ≡ n = ground arith in
      rw (m, drop_all 512 xs (ground arith), append-nil) (take_all n xs (omega arith))
]

module _ (net : NetIo) (line : Reliable net) where
  open line use {Sendable}

  -- Whatever block is cut out of the bytes, its packet can be sent.
  abbrev pub AllSendable : List ℕ → Type 0
  AllSendable bytes = (c n : ℕ) → Sendable (take (min n 512) (drop c bytes))

module _ (net : NetIo) (line : Reliable net) (i : ℕ) (name : List ℕ) (code : ℕ) where
  open net use {Net}
  open line use {blocks, Writing, limit}

  -- The packets `sent` have gone to the server between `h` and `h'`.
  abbrev pub Delivers : ℕ → List (List ℕ) → Handler Net → Handler Net → Type 0
  Delivers k sent h h' =
      Runs net h h' × (blocks h'.net ≡ blocks h.net ++ numbered k sent) × All IsShort sent

  Delivers-trans :
      (k : ℕ) (ps qs : List (List ℕ)) {h h' h'' : Handler Net}
      → Delivers k ps h h'
      → Delivers (k + length ps) qs h' h''
      → Delivers k (ps ++ qs) h h''
  Delivers-trans k ps qs {h} d e = (
    Runs-trans net d.0 e.0,
    e.1
        ∙ ap (λ b. b ++ numbered (k + length ps) qs) d.1
        ∙ append_assoc (blocks h.net) (numbered k ps) (numbered (k + length ps) qs)
        ∙ ap (◌++◌ (blocks h.net)) (sym (numbered-append k ps qs)),
    All-append IsShort ps qs d.2 e.2,
  )

  -- After a block of the buffer was sent: what is left of the buffer follows.
  abbrev RestSent : ℕ → List FileBuffer → List ℕ → ℕ → ℕ → Handler Net → Type 0
  RestSent k bs bytes c q h =
      (h' : Handler Net) × (sent : List (List ℕ)) × Delivers k sent h h'
      × Told net line i send_next_buffer (file_at name data_sent (k + length sent) code bs) h'
      × (joined sent ≡ drop (c + 512) bytes)
      × (length sent ≤ q)

  module _ (bs : List FileBuffer) (bytes : List ℕ) (fit : AllSendable net line bytes) where
    last_acked :
        (k c n q : ℕ) (left : ℤ) (h : Handler Net)
        → sub_nat (pos n) 512 ≡ left
        → exceeds left 0 ≡ false
        → c + n ≡ length bytes
        → n ≤ 512
        → Waiting net line i write_return
            (file_at name data_sent k code (buffer_at bytes c n ∷ bs))
            h
        → Writing h.net k
        → RestSent k bs bytes c q h
    last_acked k c n q left h rest none_left size short w acks =
        let (h₁, r₁, w₁, acks₁, b₁) = written net line i _ k h w acks in
        let (h₂, r₂, t₂, b₂) =
          answered net line i name k code bs bytes c n left buffer_finished h₁ rest (rw none_left)
            w₁ acks₁ in
        let (h₃, r₃, t₃, b₃) = buffer_done net line i name data_sent k code _ bs h₂ t₂ in
        let e : k + 0 ≡ k = omega arith in
        (
          h₃,
          [],
          (
            then_ (then_ (then_ here r₁) r₂) r₃,
            ap blocks b₃ ∙ b₂ ∙ b₁ ∙ sym (append-nil (blocks h.net)),
            tt,
          ),
          rw e t₃,
          sym (drop_all (c + 512) bytes (omega arith)),
          omega arith,
        )

    -- One block more, and then what is left.
    one_acked :
        (k c n : ℕ) (h : Handler Net)
        → c + n ≡ length bytes
        → 512 < n
        → k + 1 < limit
        → Waiting net line i write_return
            (file_at name data_sent k code (buffer_at bytes c n ∷ bs))
            h
        → Writing h.net k
        → (h' : Handler Net) × Delivers k
            (take (min (n - 512) 512) (drop (c + 512) bytes) ∷ [])
            h
            h'
          × Waiting net line i write_return
              (file_at name data_sent (k + 1) code (buffer_at bytes (c + 512) (n - 512) ∷ bs))
              h'
          × Writing h'.net (k + 1)
    one_acked k c n h size long small w acks =
        let (h₁, r₁, w₁, acks₁, b₁) = written net line i _ k h w acks in
        let (h₂, r₂, t₂, b₂) =
          answered net line i name k code bs bytes c n (pos (n - 512)) continue_buffer h₁
            (ground arith) (ground arith) w₁ acks₁ in
        let (h₃, r₃, w₃, (b₃, acks₃)) =
          continued net line i name k code bs bytes c (n - 512) h₂ t₂ (omega arith)
            (fit (c + 512) (n - 512)) small in
        let short : length (take (min (n - 512) 512) (drop (c + 512) bytes)) ≤ 512 =
          omega (arith, length-take (min (n - 512) 512) (drop (c + 512) bytes)) in
        (
          h₃,
          (
            then_ (then_ (then_ here r₁) r₂) r₃,
            b₃
                ∙ ap
                    (λ b.
                      b
                      ++ (record {
                        number = k + 1;
                        payload = take (min (n - 512) 512) (drop (c + 512) bytes);
                      })
                        ∷ [])
                    (b₂ ∙ b₁),
            (short, tt),
          ),
          w₃,
          acks₃,
        )

    -- What is left of the buffer, in at most `q` blocks.
    rest_sent :
        (q k c n : ℕ) (h : Handler Net)
        → n ≤ 512 * q + 512
        → c + n ≡ length bytes
        → k + q < limit
        → Waiting net line i write_return
            (file_at name data_sent k code (buffer_at bytes c n ∷ bs))
            h
        → Writing h.net k
        → RestSent k bs bytes c q h
    rest_sent zero k c n h few size small w acks =
        last_acked k c n zero (sub_nat (pos n) 512) h refl (ground arith) size (omega arith) w acks
    rest_sent (suc q) k c n h few size small w acks = elim (Bool-cases (ltb 512 n)) [
      | inr short ↦
          last_acked k c n (suc q) (sub_nat (pos n) 512) h refl (ground arith) size (ground arith) w
            acks
      | inl long ↦
          let more : 512 < n = ground arith in
          let (h₁, d, w₁, acks₁) = one_acked k c n h size more (omega arith) w acks in
          let (h₂, sent, d', told, all, count) =
            rest_sent q (k + 1) (c + 512) (n - 512) h₁ (omega arith) (omega arith) (omega arith) w₁
              acks₁ in
          let p = take (min (n - 512) 512) (drop (c + 512) bytes) in
          let e : k + 1 + length sent ≡ k + suc (length sent) = omega arith in
          let size' : n - 512 ≡ length (drop (c + 512) bytes) =
            omega (arith, length-drop (c + 512) bytes) in
          (
            h₂,
            p ∷ sent,
            Delivers-trans k (p ∷ []) sent d d',
            rw (← e) told,
            ap (◌++◌ p) (all ∙ sym (drop-drop (c + 512) 512 (c + 512 + 512) bytes refl))
                ∙ block_split (n - 512) (drop (c + 512) bytes) size',
            omega arith,
          )
    ]

  abbrev pub buffers_of : List (List ℕ) → List FileBuffer
  buffers_of [] = []
  buffers_of (b ∷ bs) = buffer_at b 0 (length b) ∷ buffers_of bs

  -- A buffer whose turn it is.
  buffer_sent :
      (st : TransferState) (k : ℕ) (bs : List FileBuffer) (bytes : List ℕ) (h : Handler Net)
      → AllSendable net line bytes
      → k + (length bytes / 512 + 1) < limit
      → Told net line i send_next_buffer
          (file_at name st k code (buffer_at bytes 0 (length bytes) ∷ bs))
          h
      → (h' : Handler Net) × (sent : List (List ℕ)) × Delivers k sent h h'
        × Told net line i send_next_buffer (file_at name data_sent (k + length sent) code bs) h'
        × (joined sent ≡ bytes)
        × (length sent ≤ length bytes / 512 + 1)
  buffer_sent st k bs bytes h fit small t =
      let n = length bytes in
      let (h₁, r₁, w₁, (b₁, acks₁)) =
        next_sent net line i name st k code bs bytes n h t (omega arith) (fit 0 n) (omega arith) in
      let (h₂, sent, d, told, all, count) =
        rest_sent bs bytes fit (n / 512) (k + 1) 0 n h₁ (omega arith) (omega arith) (omega arith) w₁
          acks₁ in
      let p = take (min n 512) bytes in
      let short : length p ≤ 512 = omega (arith, length-take (min n 512) bytes) in
      let first : Delivers k (p ∷ []) h h₁ = (then_ here r₁, b₁, (short, tt)) in
      let e : k + 1 + length sent ≡ k + suc (length sent) = omega arith in
      (
        h₂,
        p ∷ sent,
        Delivers-trans k (p ∷ []) sent first d,
        rw (← e) told,
        ap (◌++◌ p) all ∙ block_split n bytes refl,
        omega arith,
      )

  -- On a reliable line whose packets can hold every block of the buffers, and with no client about,
  -- a transfer runs through: from the acknowledged write request on (or the end of a buffer, after
  -- block k), the loop sends every buffer of the file in packets of at most 512 bytes with the
  -- numbers k + 1, k + 2, ... whose contents in a row are the file's, and then sets S_FINISHED and
  -- is free for the next file. The number of the last block is one that the server acknowledges.
  pub transfer_complete :
      (st : TransferState) (k : ℕ) (bufs : List (List ℕ)) (h : Handler Net)
      → All (AllSendable net line) bufs
      → k + blocks_needed bufs < limit
      → Told net line i send_next_buffer (file_at name st k code (buffers_of bufs)) h
      → (h' : Handler Net) × (sent : List (List ℕ)) × Delivers k sent h h'
        × Told net line i file_finished (file_at name finished (k + length sent) code []) h'
        × (joined sent ≡ joined bufs)
        × (h'.busy ≡ false)
  transfer_complete st k [] h fit small t =
      let (h', r, t', same, idle) = all_sent net line i name st k code h t in
      let e : k + 0 ≡ k = omega arith in
      (
        h',
        [],
        (then_ here r, ap blocks same ∙ sym (append-nil (blocks h.net)), tt),
        rw e t',
        refl,
        idle,
      )
  transfer_complete st k (b ∷ bufs) h fit small t =
      let (h₁, sent, d, t₁, all, count) =
        buffer_sent st k (buffers_of bufs) b h fit.0 (omega arith) t in
      let (h₂, sent', d', t₂, all', idle) =
        transfer_complete data_sent (k + length sent) bufs h₁ fit.1 (omega arith) t₁ in
      let e : k + length sent + length sent' ≡ k + length (sent ++ sent') =
        omega (arith, length-append sent sent') in
      (
        h₂,
        sent ++ sent',
        Delivers-trans k sent sent' d d',
        rw (← e) t₂,
        joined-append sent sent' ∙ ap₂ ◌++◌ all all',
        idle,
      )
