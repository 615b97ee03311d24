-- ===== src/Minitftp/Contract.antt =====
-- What the documentation of the C library says of the calls of minitftp.c.
use cwnet.Base.{ℕ, ◌≡◌, ◌≤◌, ◌<◌, List, [], ◌∷◌, ◌++◌, some, Option, if◌then◌else◌, length}
use cwnet.Minitftp.Host.{Host}

pub data Handle : Type 0 where
  in_file udp_socket address_list : Handle

-- The bytes of the file that have not been read, the datagrams that have been sent, and what has
-- been acquired and not been released, the last first.
pub record View : Type 0 where
  pub remaining : List ℕ
  pub sent : List (List ℕ)
  pub held : List Handle

-- A file has the bytes `content name`, of which `read` gives the next ones, fewer than it is asked
-- for only at the end.
pub record Lawful (host : Host) : Type 0 where
  pub view : host.State → View
  pub content : List ℕ → List ℕ
  pub open_file_lem :
      (name : List ℕ) (s : host.State)
      → view (host.open_file name s).1 ≡ (
          if (host.open_file name s).0
          then record (view s) { remaining = content name; held = in_file ∷ (view s).held }
          else view s)
  pub socket_lem :
      (s : host.State)
      → view (host.socket s).1 ≡ (
          if (host.socket s).0
          then record (view s) { held = udp_socket ∷ (view s).held }
          else view s)
  pub getaddrinfo_lem :
      (node service : List ℕ) (s : host.State)
      → view (host.getaddrinfo node service s).1 ≡ (
          if (host.getaddrinfo node service s).0
          then record (view s) { held = address_list ∷ (view s).held }
          else view s)
  pub read_sent : (n : ℕ) (s : host.State) → (view (host.read n s).1).sent ≡ (view s).sent
  pub read_held : (n : ℕ) (s : host.State) → (view (host.read n s).1).held ≡ (view s).held
  pub read_some :
      (n : ℕ) (s : host.State) (bytes : List ℕ)
      → (host.read n s).0 ≡ some bytes
      → (length bytes ≤ n)
        × ((view s).remaining ≡ bytes ++ (view (host.read n s).1).remaining)
        × (length bytes < n → (view (host.read n s).1).remaining ≡ [])
  pub sendto_lem :
      (packet : List ℕ) (s : host.State)
      → view (host.sendto packet s).1 ≡ (
          if (host.sendto packet s).0
          then record (view s) { sent = (view s).sent ++ packet ∷ [] }
          else view s)
  pub recvfrom_lem :
      (n : ℕ) (s s' : host.State) (r : Option (List ℕ))
      → host.recvfrom n s ≡ some (r, s')
      → view s' ≡ view s
  pub recvfrom_some :
      (n : ℕ) (s s' : host.State) (bytes : List ℕ)
      → host.recvfrom n s ≡ some (some bytes, s')
      → length bytes ≤ n
  pub freeaddrinfo_lem :
      (s : host.State) (rest : List Handle)
      → (view s).held ≡ address_list ∷ rest
      → view (host.freeaddrinfo s) ≡ record (view s) { held = rest }
  pub close_socket_lem :
      (s : host.State) (rest : List Handle)
      → (view s).held ≡ udp_socket ∷ rest
      → view (host.close_socket s) ≡ record (view s) { held = rest }
  pub close_file_lem :
      (s : host.State) (rest : List Handle)
      → (view s).held ≡ in_file ∷ rest
      → view (host.close_file s) ≡ record (view s) { held = rest }
