-- ===== src/Handler/Queue.antt =====
-- The queue of files: what a client's calls put into it, and which file is sent next.
use cwnet.Base.{
  ℕ, zero, suc, ◌+◌, ◌≡◌, ◌≢◌, ◌<◌, refl, ap, sym, ◌∙◌, List, [], ◌∷◌, Option, none, some, true,
  false, Bool-cases, inl, inr, get_elem?, arith, some-eq,
}
use cwnet.Handler.State.{
  FileTransfer, TransferState, queued, ready, wrq_sent, rrq_sent, data_sent, error, finished,
}
use cwnet.Handler.Files.{get_next_file_from_queue, ready_from, is_ready}

-- The transfer `i` is ready, and none before it is.
pub record FirstReady (fs : List FileTransfer) (i : ℕ) : Type 0 where
  pub file : FileTransfer
  pub found : get_elem? fs i ≡ some file
  pub is_next : file.ftx_state ≡ ready
  pub earlier : (j : ℕ) (f : FileTransfer) → j < i → get_elem? fs j ≡ some f → f.ftx_state ≢ ready

-- No transfer is ready.
abbrev pub NoneReady : List FileTransfer → Type 0
NoneReady fs = (j : ℕ) (f : FileTransfer) → get_elem? fs j ≡ some f → f.ftx_state ≢ ready

-- What the search finds: a ready file, or none.
abbrev pub Found : List FileTransfer → Option ℕ → Type 0
Found fs none = NoneReady fs
Found fs (some i) = FirstReady fs i

is_ready-eq : (st : TransferState) → is_ready st ≡ true → st ≡ ready
is_ready-eq ready e = refl
is_ready-eq queued e = cc e
is_ready-eq wrq_sent e = cc e
is_ready-eq rrq_sent e = cc e
is_ready-eq data_sent e = cc e
is_ready-eq error e = cc e
is_ready-eq finished e = cc e

is_ready-neq : (st : TransferState) → is_ready st ≡ false → st ≢ ready
is_ready-neq st e same = let r : is_ready st ≡ true = ap is_ready same in cc

-- `o` counted from `i` on.
abbrev shifted : ℕ → Option ℕ → Option ℕ
shifted i none = none
shifted i (some k) = some (i + k)

shifted-suc : (i : ℕ) (o : Option ℕ) → shifted (suc i) o ≡ shifted i (shifted 1 o)
shifted-suc i none = refl
shifted-suc i (some k) = let e : suc i + k ≡ i + (1 + k) = omega arith in ap some e

ready_from-shifted :
    (i : ℕ) (fs : List FileTransfer) → ready_from i fs ≡ shifted i (ready_from 0 fs)
unfolding ready_from
ready_from-shifted i [] = refl
ready_from-shifted i (f ∷ fs) = elim (Bool-cases (is_ready f.ftx_state)) [
  | inl now ↦ let e : i + 0 ≡ i = omega arith in rw now (ap some (sym e))
  | inr not_yet ↦ rw not_yet (
      ready_from-shifted (suc i) fs
      ∙ shifted-suc i (ready_from 0 fs)
      ∙ ap (shifted i) (sym (ready_from-shifted 1 fs)))
]

earlier_cons :
    (f : FileTransfer) (fs : List FileTransfer) (i : ℕ)
    → f.ftx_state ≢ ready
    → ((j : ℕ) (g : FileTransfer) → j < i → get_elem? fs j ≡ some g → g.ftx_state ≢ ready)
    → (j : ℕ) (g : FileTransfer) → j < suc i
    → get_elem? (f ∷ fs) j ≡ some g
    → g.ftx_state ≢ ready
earlier_cons f fs i other h zero g less e =
    λ r. other (ap (λ (t : FileTransfer). t.ftx_state) (some-eq e) ∙ r)
earlier_cons f fs i other h (suc j) g less e = h j g (omega arith) e

none_cons :
    (f : FileTransfer) (fs : List FileTransfer)
    → f.ftx_state ≢ ready
    → NoneReady fs
    → NoneReady (f ∷ fs)
none_cons f fs other h zero g e =
    λ r. other (ap (λ (t : FileTransfer). t.ftx_state) (some-eq e) ∙ r)
none_cons f fs other h (suc j) g e = h j g e

Found-cons :
    (f : FileTransfer) (fs : List FileTransfer) (o : Option ℕ)
    → f.ftx_state ≢ ready
    → Found fs o
    → Found (f ∷ fs) (shifted 1 o)
Found-cons f fs none other h = none_cons f fs other h
Found-cons f fs (some i) other h =
    let e : 1 + i ≡ suc i = omega arith in
    rw e (record {
      file = h.file;
      found = h.found;
      is_next = h.is_next;
      earlier = earlier_cons f fs i other h.earlier;
    })

none_empty : NoneReady []
none_empty j f e = cc

-- The file that is sent next is the first one of the queue in S_READY, and there is none only if no
-- file of the queue is ready.
pub get_next_file_from_queue-Found :
    (fs : List FileTransfer) → Found fs (get_next_file_from_queue fs)
unfolding get_next_file_from_queue ready_from
get_next_file_from_queue-Found [] = λ j f e. none_empty j f e
get_next_file_from_queue-Found (f ∷ fs) = elim (Bool-cases (is_ready f.ftx_state)) [
  | inl now ↦ rw now (record {
    file = f;
    found = refl;
    is_next = is_ready-eq f.ftx_state now;
    earlier = λ j g less e. absurd (omega arith);
  })
  | inr not_yet ↦
      rw (not_yet, ready_from-shifted 1 fs)
        (Found-cons f fs (ready_from 0 fs) (is_ready-neq f.ftx_state not_yet)
          (get_next_file_from_queue-Found fs))
]
