-- ===== src/Handler/Lossless/Delivery.antt =====
-- A client's session and a transfer on the handler and netio.c together, up to what a server reads
-- off the frames.
use cwnet.Base.{
  ℕ, ◌+◌, ◌≡◌, ◌≤◌, ◌<◌, List, [], ◌∷◌, ◌++◌, map, none, some, true, false, length, take, drop, min,
  get_elem?, All, arith,
}
use cwnet.Slip.Spec.{encode}
use cwnet.Net.State.{System, Net}
use cwnet.Handler.Names.{bcpl_to_c_str, url_file_name}
use cwnet.Handler.State.{
  TransferState, finished, Handler, find_output, write, end_file, send_next_buffer, file_finished,
}
use cwnet.Handler.Files.{get_next_file_from_queue}
use cwnet.Handler.Accept.{serve}
use cwnet.Handler.Reliable.{Reliable, Runs}
use cwnet.Handler.Server.{received}
use cwnet.Handler.Transfer.{file_at, Told}
use cwnet.Handler.Transfer.Session.{session_complete}
use cwnet.Handler.Transfer.Whole.{
  transfer_complete, buffers_of, numbered, joined, blocks_needed, IsShort,
}
use cwnet.Handler.Wire.{over_netio}
use cwnet.Handler.Lossless.{Serves, IsReady, IsWriting, IsReading}
use cwnet.Handler.Lossless.Sends.{send_req_ok, send_data_ok}
use cwnet.Handler.Lossless.Answers.{written_ok, answer_ok}

-- Whatever block is cut out of the bytes, its coding leaves room for that of the headers.
abbrev pub AllFit : List ℕ → Type 0
AllFit bytes = (c n : ℕ) → length (encode (take (min n 512) (drop c bytes))) ≤ 959

module _ (sys : System) (device : Net → Net) (pkt : ℕ) (memory : (n : ℕ) → sys.alloc_ok n ≡ true)
    (serves : Serves device) where
  abbrev pub lossless : Reliable (over_netio sys device pkt)
  lossless = record {
    limit = 192;
    limit_le = omega arith;
    blocks = λ s. received s.wire;
    Writing = IsWriting pkt;
    Reading = IsReading pkt;
    Ready = IsReady pkt;
    Requestable = λ name. length name ≤ 255;
    Sendable = λ bytes. length (encode bytes) ≤ 959;
    send_req_ok = send_req_ok sys device pkt memory;
    send_data_ok = send_data_ok sys device pkt memory;
    written_ok = written_ok sys device pkt memory serves;
    answer_ok = answer_ok sys device pkt memory serves;
  }

  -- The handler on netio.c, with memory for every request, devices that lose nothing and a server
  -- that acknowledges what it gets, up to the number 191 and behind a short block, too: a client opens a file by its URL on an idle
  -- handler with no ready file in its queue, writes it in pieces and closes it. Where the name has at
  -- most 255 bytes, the codings of the blocks fit and the pieces need fewer than 192 blocks, and no
  -- other client is about, the rounds of the loop that follow put frames on the wire that a decoder
  -- of SLIP reads as data packets of at most 512 bytes with the numbers 1, 2, 3, ... whose contents
  -- in a row are what was written; then the file's state is S_FINISHED, and the handler is free.
  pub session_delivered :
      (bstr fname name : List ℕ) (pieces : List (List ℕ)) (h : Handler Net)
      → bcpl_to_c_str bstr ≡ some fname
      → url_file_name fname ≡ some name
      → h.port ≡ []
      → h.busy ≡ false
      → get_next_file_from_queue h.transfers ≡ none
      → IsReady pkt h.net
      → length name ≤ 255
      → All AllFit pieces
      → blocks_needed pieces < 192
      → (h₁ h₂ : Handler Net) × (sent : List (List ℕ)) × (serve
            (over_netio sys device pkt)
            (find_output bstr
              ∷ (map (write (length h.transfers)) pieces ++ end_file (length h.transfers) ∷ []))
            h
          ≡ some h₁)
        × Runs (over_netio sys device pkt) h₁ h₂
        × (received (h₂.net).wire ≡ received (h.net).wire ++ numbered 0 sent)
        × All IsShort sent
        × (joined sent ≡ joined pieces)
        × (get_elem? h₂.transfers (length h.transfers)
            ≡ some (file_at name finished (0 + length sent) 0 []))
        × (h₂.busy ≡ false)
  session_delivered bstr fname name pieces h string url empty idle waiting rest named fit small =
      session_complete (over_netio sys device pkt) lossless bstr fname name pieces h string url
        empty idle waiting rest named fit small

  -- The handler on netio.c, with memory for every request, devices that lose nothing and a server
  -- that acknowledges what it gets, up to the number 191 and behind a short block, too: a transfer
  -- whose write request was acknowledged (or that is at the end of a buffer, after block k) runs
  -- through, with no client about. Where the codings of the blocks fit, and k and the blocks that the
  -- buffers need are fewer than 192, the rounds of the loop put every buffer of the file on the wire,
  -- in frames that a decoder of SLIP reads as data packets of at most 512 bytes with the numbers
  -- k + 1, k + 2, ... whose contents in a row are the file's. Then the file's state is S_FINISHED, the
  -- internal packet says so, and the handler is free.
  pub transfer_delivered :
      (i : ℕ) (name : List ℕ) (code : ℕ) (st : TransferState) (k : ℕ) (bufs : List (List ℕ))
      (h : Handler Net)
      → All AllFit bufs
      → k + blocks_needed bufs < 192
      → Told
          (over_netio sys device pkt)
          lossless
          i
          send_next_buffer
          (file_at name st k code
            (buffers_of (over_netio sys device pkt) lossless i name code bufs))
          h
      → (h' : Handler Net) × (sent : List (List ℕ)) × Runs (over_netio sys device pkt) h h'
        × (received (h'.net).wire ≡ received (h.net).wire ++ numbered k sent)
        × All IsShort sent
        × (joined sent ≡ joined bufs)
        × Told
            (over_netio sys device pkt)
            lossless
            i
            file_finished
            (file_at name finished (k + length sent) code [])
            h'
        × (h'.busy ≡ false)
  transfer_delivered i name code st k bufs h fit small told =
      let (h', sent, (r, b, short), told', all, idle) =
        transfer_complete (over_netio sys device pkt) lossless i name code st k bufs h fit small
          told in
      (h', sent, r, b, short, all, told', idle)
