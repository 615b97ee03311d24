-- ===== src/Handler/Transfer/Session.antt =====
-- A client's session with the handler, up to the end of the transfer.
use cwnet.Base.{
  sym, ℕ, suc, ◌+◌, ◌≡◌, ◌<◌, refl, ap, ◌∙◌, List, [], ◌∷◌, ◌++◌, map, none, some, false, get_elem?,
  length, arith, Bool-cases, inl, inr, All, subst,
}
use cwnet.Handler.Names.{bcpl_to_c_str, url_file_name}
use cwnet.Handler.State.{
  FileTransfer, ready, finished, Handler, find_output, write, end_file, send_next_buffer, wrq_sent,
  own, holds_own,
}
use cwnet.Handler.Network.{NetIo}
use cwnet.Handler.Files.{get_next_file_from_queue, ready_from, is_ready, new_buffer}
use cwnet.Handler.Accept.{serve, file_accepted, get_elem?-last}
use cwnet.Handler.Reliable.{Reliable, Runs, Runs-trans}
use cwnet.Handler.Transfer.{file_at, buffer_at, Told}
use cwnet.Handler.Transfer.Start.{transfer_started}
use cwnet.Handler.Transfer.Whole.{
  transfer_complete, buffers_of, numbered, joined, blocks_needed, IsShort, AllSendable,
}

ready_from-last :
    (i : ℕ) (fs : List FileTransfer) (f : FileTransfer)
    → ready_from i fs ≡ none
    → f.ftx_state ≡ ready
    → ready_from i (fs ++ f ∷ []) ≡ some (i + length fs)
unfolding ready_from
ready_from-last i [] f h e = let k : i + 0 ≡ i = omega arith in rw (e, k) refl
ready_from-last i (g ∷ fs) f h e = elim (Bool-cases (is_ready g.ftx_state)) [
  | inl now ↦ cc (rw now at h)
  | inr later ↦
      let k : suc i + length fs ≡ i + suc (length fs) = omega arith in
      rw later (ready_from-last (suc i) fs f (rw later at h) e ∙ ap some k)
]

get_next_file_from_queue-last :
    (fs : List FileTransfer) (f : FileTransfer)
    → get_next_file_from_queue fs ≡ none
    → f.ftx_state ≡ ready
    → get_next_file_from_queue (fs ++ f ∷ []) ≡ some (length fs)
unfolding get_next_file_from_queue
get_next_file_from_queue-last fs f h e =
    let k : 0 + length fs ≡ length fs = omega arith in ready_from-last 0 fs f h e ∙ ap some k

buffers_of-map :
    (net : NetIo) (line : Reliable net) (i : ℕ) (name : List ℕ) (code : ℕ) (pieces : List (List ℕ))
    → map new_buffer pieces ≡ buffers_of net line i name code pieces
unfolding new_buffer
buffers_of-map net line i name code [] = refl
buffers_of-map net line i name code (p ∷ pieces) =
    ap (◌∷◌ (buffer_at p 0 (length p))) (buffers_of-map net line i name code pieces)

module _ (net : NetIo) (line : Reliable net) where
  open net use {Net}
  open line use {blocks, Ready, Requestable, limit}

  -- A client opens a file by its URL on an idle handler with no ready file in its queue, writes it
  -- in pieces and closes it, with memory for each request. On a reliable line that is at rest,
  -- whose packets can hold the name and every block of the pieces, and with no other client about,
  -- the rounds of the loop that follow bring all of it to the server: data packets of at most 512
  -- bytes with the numbers 1, 2, 3, ... whose contents in a row are what was written; then the
  -- file's state is S_FINISHED, and the handler is free again. The pieces need fewer
  -- blocks than the numbers that the server acknowledges.
  pub session_complete :
      (bstr fname name : List ℕ) (pieces : List (List ℕ)) (h : Handler Net)
      → bcpl_to_c_str bstr ≡ some fname
      → url_file_name fname ≡ some name
      → h.port ≡ []
      → h.busy ≡ false
      → get_next_file_from_queue h.transfers ≡ none
      → Ready h.net
      → Requestable name
      → All (AllSendable net line) pieces
      → blocks_needed pieces < limit
      → (h₁ h₂ : Handler Net) × (sent : List (List ℕ)) × (serve net
            (find_output bstr
              ∷ (map (write (length h.transfers)) pieces ++ end_file (length h.transfers) ∷ []))
            h
          ≡ some h₁)
        × Runs net h₁ h₂
        × (blocks h₂.net ≡ blocks h.net ++ numbered 0 sent)
        × All IsShort sent
        × (joined sent ≡ joined pieces)
        × (get_elem? h₂.transfers (length h.transfers)
            ≡ some (file_at name finished (0 + length sent) 0 []))
        × (h₂.busy ≡ false)
  unfolding holds_own
  session_complete bstr fname name pieces h string url empty idle waiting rest named fit small =
      let i = length h.transfers in
      let free : holds_own h.port ≡ false = ap holds_own empty in
      let (h₁, served, c) = file_accepted net bstr fname name pieces h string url free in
      let f = file_at name ready 0 0 (map new_buffer pieces) in
      let queue = c.queue_eq in
      let port = c.port_eq ∙ ap (λ m. m ++ own ∷ []) empty in
      let same = buffers_of-map net line i name 0 pieces in
      let (h₂, started, told, b) =
        transfer_started net line i name (map new_buffer pieces) h₁ port c.asks (c.busy_eq ∙ idle)
          (ap get_next_file_from_queue queue
            ∙ get_next_file_from_queue-last h.transfers f waiting refl)
          (ap (λ t. get_elem? t i) queue ∙ get_elem?-last h.transfers f)
          (subst Ready (sym c.net_eq) rest) named in
      let told' =
        subst (λ bs. Told net line i send_next_buffer (file_at name wrq_sent 0 0 bs) h₂) same
          told in
      let (h₃, sent, (r, b', short), told'', all, idle') =
        transfer_complete net line i name 0 wrq_sent 0 pieces h₂ fit (omega arith) told' in
      (
        h₁,
        h₃,
        sent,
        served,
        Runs-trans net started r,
        b' ∙ ap (λ bs. bs ++ numbered 0 sent) (b ∙ ap blocks c.net_eq),
        short,
        all,
        told''.found,
        idle',
      )
