-- ===== src/Handler/Accept.antt =====
-- A client's session: a file is opened, written in pieces, and closed.
use cwnet.Base.{
  ℕ, suc, ◌≡◌, refl, ap, ◌∙◌, List, [], ◌∷◌, ◌++◌, map, Option, none, some, Bool, true, false,
  ◌>>=◌, length, get_elem?, set, append_assoc, append-nil,
}
use cwnet.Handler.Names.{bcpl_to_c_str, url_file_name}
use cwnet.Handler.State.{
  FileBuffer, FileTransfer, TransferState, queued, ready, Handler, Request, find_output, write,
  end_file, send_next_file, own, return_dos_packet, send_internal_packet, transfer, set_transfer,
  holds_own, number, dostrue,
}
use cwnet.Handler.Network.{NetIo}
use cwnet.Handler.Files.{do_find_output, do_write, on_end, new_transfer, new_buffer}
use cwnet.Handler.Loop.{on_request}

pub get_elem?-last {ℓ} :
    {A : Type ℓ} (xs : List A) (x : A) → get_elem? (xs ++ x ∷ []) (length xs) ≡ some x
get_elem?-last [] x = refl
get_elem?-last (y ∷ xs) x = get_elem?-last xs x

set-last {ℓ} :
    {A : Type ℓ} (xs : List A) (x y : A) → set (xs ++ x ∷ []) (length xs) y ≡ xs ++ y ∷ []
set-last [] x y = refl
set-last (z ∷ xs) x y = ap (◌∷◌ z) (set-last xs x y)

abbrev pub all_ok : ℕ → Bool
all_ok n = true

module _ (net : NetIo) where
  open net use {Net}

  -- The packets of a client, one after the other.
  abbrev pub serve : List Request → Handler Net → Option (Handler Net)
  serve [] h = some h
  serve (r ∷ rs) h = on_request net all_ok r h >>= serve rs

  module _ (fs : List FileTransfer) (name : List ℕ) where
    -- The file that the client has open, with what was written so far.
    abbrev pub open_file : TransferState → List FileBuffer → FileTransfer
    open_file st bs = record {
      ftx_fname = name;
      ftx_state = st;
      ftx_blknum = 0;
      ftx_error = 0;
      ftx_buffers = bs;
    }

    -- `h'` is `h` with the open file as the last of the queue.
    record Open (bs : List FileBuffer) (h h' : Handler Net) : Type 0 where
      queue_eq : h'.transfers ≡ fs ++ open_file queued bs ∷ []
      port_eq : h'.port ≡ h.port
      net_eq : h'.net ≡ h.net
      busy_eq : h'.busy ≡ h.busy

    write-Open :
        (bs : List FileBuffer) (bytes : List ℕ) (h h' : Handler Net)
        → Open bs h h'
        → (h'' : Handler Net) × (on_request net all_ok (write (length fs) bytes) h' ≡ some h'')
          × Open (bs ++ new_buffer bytes ∷ []) h h''
    unfolding on_request do_write transfer set_transfer return_dos_packet
    write-Open bs bytes h h' o =
        let last : get_elem? h'.transfers (length fs) ≡ some (open_file queued bs) =
          ap (λ t. get_elem? t (length fs)) o.queue_eq ∙ get_elem?-last fs (open_file queued bs) in
        let f' = open_file queued (bs ++ new_buffer bytes ∷ []) in
        (
          return_dos_packet (write (length fs) bytes) (number (length bytes)) 0
              (set_transfer (length fs) f' (record h' { requests = suc (suc h'.requests) })),
          rw last,
          record {
            queue_eq =
                ap (λ t. set t (length fs) f') o.queue_eq ∙ set-last fs (open_file queued bs) f';
            port_eq = o.port_eq;
            net_eq = o.net_eq;
            busy_eq = o.busy_eq;
          },
        )

    writes-Open :
        (pieces : List (List ℕ)) (rest : List Request) (bs : List FileBuffer) (h h' : Handler Net)
        → Open bs h h'
        → (h'' : Handler Net) × (serve (map (write (length fs)) pieces ++ rest) h' ≡ serve rest h'')
          × Open (bs ++ map new_buffer pieces) h h''
    writes-Open [] rest bs h h' o = (h', refl, rw (append-nil bs) o)
    writes-Open (p ∷ pieces) rest bs h h' o =
        let (h₁, ran, o₁) = write-Open bs p h h' o in
        let (h₂, ran', o₂) = writes-Open pieces rest (bs ++ new_buffer p ∷ []) h h₁ o₁ in
        (
          h₂,
          ap (λ m. m >>= serve (map (write (length fs)) pieces ++ rest)) ran ∙ ran',
          (rw (append_assoc bs (new_buffer p ∷ []) (map new_buffer pieces)) at o₂),
        )

    -- The queue after the file was closed, and the packet that starts the next transfer.
    pub record Closed (bs : List FileBuffer) (h h' : Handler Net) : Type 0 where
      pub queue_eq : h'.transfers ≡ fs ++ open_file ready bs ∷ []
      pub port_eq : h'.port ≡ h.port ++ own ∷ []
      pub asks : h'.outpkt ≡ record { dp_type = send_next_file; dp_arg1 = none }
      pub net_eq : h'.net ≡ h.net
      pub busy_eq : h'.busy ≡ h.busy

    end-Closed :
        (bs : List FileBuffer) (h h' : Handler Net)
        → holds_own h.port ≡ false
        → Open bs h h'
        → (h'' : Handler Net) × (on_request net all_ok (end_file (length fs)) h' ≡ some h'')
          × Closed bs h h''
    unfolding on_request on_end transfer set_transfer return_dos_packet send_internal_packet
    end-Closed bs h h' free o =
        let last : get_elem? h'.transfers (length fs) ≡ some (open_file queued bs) =
          ap (λ t. get_elem? t (length fs)) o.queue_eq ∙ get_elem?-last fs (open_file queued bs) in
        let f' = open_file ready bs in
        let free' : holds_own h'.port ≡ false = ap holds_own o.port_eq ∙ free in
        (
          record (return_dos_packet (end_file (length fs)) dostrue 0
              (set_transfer (length fs) f' (record h' { ftx = some (length fs) }))) {
                outpkt = record { dp_type = send_next_file; dp_arg1 = none };
                port = h'.port ++ own ∷ [];
              },
          rw (last, free'),
          record {
            queue_eq =
                ap (λ t. set t (length fs) f') o.queue_eq ∙ set-last fs (open_file queued bs) f';
            port_eq = ap (λ m. m ++ own ∷ []) o.port_eq;
            asks = refl;
            net_eq = o.net_eq;
            busy_eq = o.busy_eq;
          },
        )

  -- A client opens a file by its URL, writes it in pieces and closes it, with memory for each piece
  -- and the internal packet not on the port: the queue ends with a ready file of the URL's name,
  -- whose buffers are the pieces in the order of the writes, the rest of the queue is as it was,
  -- and the internal packet asks for the next file to be sent.
  pub file_accepted :
      (bstr fname name : List ℕ) (pieces : List (List ℕ)) (h : Handler Net)
      → bcpl_to_c_str bstr ≡ some fname
      → url_file_name fname ≡ some name
      → holds_own h.port ≡ false
      → (h' : Handler Net) × (serve
            (find_output bstr
              ∷ (map (write (length h.transfers)) pieces ++ end_file (length h.transfers) ∷ []))
            h
          ≡ some h')
        × Closed h.transfers name (map new_buffer pieces) h h'
  unfolding on_request do_find_output new_transfer
  file_accepted bstr fname name pieces h string url free =
      let h₁ : Handler Net = record h {
        requests = suc h.requests;
        transfers = h.transfers ++ new_transfer name ∷ [];
        replies =
            h.replies
            ++ (record {
              request = find_output bstr;
              res1 = dostrue;
              res2 = 0;
              handle = some (length h.transfers);
              info = none;
            })
              ∷ [];
      } in
      let opened : on_request net all_ok (find_output bstr) h ≡ some h₁ = rw (string, url) in
      let end_ = end_file (length h.transfers) ∷ [] in
      let (h₂, ran, o) =
        writes-Open h.transfers name pieces end_ [] h h₁
          (record { queue_eq = refl; port_eq = refl; net_eq = refl; busy_eq = refl }) in
      let (h₃, ended, c) = end-Closed h.transfers name (map new_buffer pieces) h h₂ free o in
      (
        h₃,
        ap (λ m. m >>= serve (map (write (length h.transfers)) pieces ++ end_)) opened
            ∙ ran
            ∙ ap (λ m. m >>= serve []) ended,
        c,
      )
