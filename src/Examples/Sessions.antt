-- ===== src/Examples/Sessions.antt =====
-- A session with a handler whose line loses nothing, and the queue and the locks of a handler.
use cwnet.Base.{
  ℕ, ◌%◌, ◌^◌, ◌≡◌, refl, List, [], ◌∷◌, ◌++◌, map, none, some, true, false, take, drop, min, ℤ,
  pos, negsuc,
}
use cwnet.Handler.Names.{
  bcpl_to_c_str, url_file_name, after_first, after_last, or_else, skip_two, until_nul,
}
use cwnet.Handler.State.{
  Handler, Request, find_output, write, end_file, send_next_file, no_action, holds_own,
}
use cwnet.Handler.Network.{NetIo}
use cwnet.Handler.Files.{new_buffer}
use cwnet.Handler.Accept.{serve, file_accepted, Closed}
use cwnet.Handler.Reliable.{Block}

-- The line: the packets that the server has, and the number that it acknowledges next.
pub record Line : Type 0 where
  pub got : List Block
  pub acks : ℕ

abbrev pub to_send : ℤ → ℕ
to_send (pos n) = n
to_send (negsuc n) = 512

abbrev pub put_data : ℕ → List ℕ → ℕ → ℤ → Line → Line
put_data k bytes from n s = record {
  got =
      s.got
      ++ (record { number = k % 2 ^ 16; payload = take (min (to_send n) 512) (drop from bytes) })
        ∷ [];
  acks = k % 2 ^ 16;
}

abbrev pub direct : NetIo
direct = record {
  Net = Line;
  errno = λ s. 0;
  send_req = λ op name s. some (true, record s { acks = 0 });
  send_data = λ k bytes from n s. some (true, put_data k bytes from n s);
  recv = λ s. some (true, s);
  extract = λ s. some (true, s);
  opcode = λ s. some 4;
  blknum = λ s. some s.acks;
  stop_timer = λ s. some s;
  get_status = λ s. some (pos 0, s);
  abort = λ s. some s;
}

abbrev pub quiet : Handler Line
quiet = record {
  running = true;
  busy = false;
  transfers = [];
  locks = [];
  lock_blocks = 0;
  requests = 0;
  outpkt = record { dp_type = send_next_file; dp_arg1 = none };
  iopkt1 = record { dp_type = no_action; dp_arg1 = none };
  port = [];
  replies = [];
  ftx = none;
  dn_task = true;
  net = record { got = []; acks = 0 };
}

-- "n://h/f", as a BCPL string and as a C string
abbrev pub url : List ℕ
url = b'n' ∷ b':' ∷ b'/' ∷ b'/' ∷ b'h' ∷ b'/' ∷ b'f' ∷ []

pub url_string : bcpl_to_c_str (7 ∷ url) ≡ some url
unfolding bcpl_to_c_str until_nul
url_string = refl

pub url_name : url_file_name url ≡ some (b'f' ∷ [])
unfolding url_file_name after_last after_first or_else skip_two
url_name = refl

abbrev session : List Request
session = find_output (7 ∷ url) ∷ (map (write 0) ((1 ∷ 2 ∷ []) ∷ (3 ∷ []) ∷ []) ++ end_file 0 ∷ [])

file_accepted_example :
    (h' : Handler Line) × (serve direct session quiet ≡ some h')
    × Closed direct [] (b'f' ∷ []) (map new_buffer ((1 ∷ 2 ∷ []) ∷ (3 ∷ []) ∷ [])) quiet h'
unfolding holds_own
file_accepted_example =
    file_accepted direct (7 ∷ url) url (b'f' ∷ []) ((1 ∷ 2 ∷ []) ∷ (3 ∷ []) ∷ []) quiet url_string
      url_name refl
