-- ===== src/Minitftp/Loop.antt =====
-- minitftp.c: the loop of `main` ends, and when it ends without an error the file has been sent.
use cwnet.Base.{
  ℕ, zero, suc, ◌+◌, ◌*◌, ◌%◌, ◌^◌, ◌≡◌, ◌<◌, ◌≤◌, refl, ap, sym, ◌∙◌, List, [], ◌∷◌, ◌++◌, some,
  Bool, true, false, not, ◌&&◌, ◌==◌, length, arith, ℤ, pos, append-nil, append_assoc,
  length-append,
}
use cwnet.Protocol.{tftp_max_data_size}
use cwnet.Net.Tftp.{data_header}
use cwnet.Minitftp.Host.{Host, Locals}
use cwnet.Minitftp.Command.{send_blocks, is_full}
use cwnet.Minitftp.Contract.{Lawful}
use cwnet.Minitftp.Runs.{Runs, runs_bind, runs_pure, runs_get, runs_if, runs_weaken}
use cwnet.Minitftp.Steps.{Sized}
use cwnet.Minitftp.Blocks.{view, Carries, Pass, send_next_block-Pass}
use cwnet.Minitftp.Receiver.{receive, receive_last, receive_next}

pub go_on_cases : (a b : Bool) → (a && not b) ≡ true → (a ≡ true) × (b ≡ false)
go_on_cases true true h = cc h
go_on_cases true false h = (refl, refl)
go_on_cases false b h = cc h

stop_cases : (a b : Bool) → (a && not b) ≡ false → b ≡ false → a ≡ false
stop_cases true b h e = cc (h, ap (λ x. true && not x) e)
stop_cases false b h e = refl

is_full_size :
    (buflen : ℤ) (n : ℕ) → buflen ≡ pos n → is_full buflen ≡ true → tftp_max_data_size ≤ n
is_full_size buflen n e h =
    let full : (n == tftp_max_data_size) ≡ true = sym (ap is_full e) ∙ h in ground arith

not_full_size :
    (buflen : ℤ) (n : ℕ)
    → buflen ≡ pos n
    → is_full buflen ≡ false
    → n ≤ tftp_max_data_size
    → n < tftp_max_data_size
not_full_size buflen n e h small =
    let part : (n == tftp_max_data_size) ≡ false = sym (ap is_full e) ∙ h in ground arith

-- What is left behind a full block.
less_left :
    (fuel : ℕ) (before bytes after : List ℕ)
    → before ≡ bytes ++ after
    → tftp_max_data_size ≤ length bytes
    → length before < 512 * suc fuel
    → length after < 512 * fuel
less_left fuel before bytes after e full enough =
    omega (arith, ap length e, length-append bytes after)

module _ (host : Host) (lawful : Lawful host) where
  -- If the flag is not set, a server that expects block `n` has got all that was left of the file.
  abbrev pub Delivered : ℕ → Locals host.State → Locals host.State → Type 0
  Delivered n l l' =
      Carries host lawful l l'
      × (l'.error ≡ false
          → (packets : List (List ℕ)) × ((view host lawful l').sent
              ≡ (view host lawful l).sent ++ packets)
            × (receive n packets ≡ some (view host lawful l).remaining))

  -- The last pass.
  finished :
      (n : ℕ) (l l₁ : Locals host.State) (buflen : ℤ)
      → n < 2 ^ 16
      → Pass host lawful n l buflen l₁
      → (is_full buflen && not l₁.error) ≡ false
      → Delivered n l l₁
  unfolding Pass
  finished n l l₁ buflen small p stop = (
    p.0,
    λ f.
        let m = p.1 f in
        let short =
          not_full_size buflen (length m.bytes) m.buflen_eq
            (stop_cases (is_full buflen) l₁.error stop f) m.small in
        (
          (data_header host.order n ++ m.bytes) ∷ [],
          m.sent_eq,
          receive_last host.order n m.bytes small short
              ∙ ap some (sym (m.taken ∙ ap (◌++◌ m.bytes) (m.last short) ∙ append-nil m.bytes)),
        ),
  )

  -- A full pass with the rest of the loop behind it.
  continued :
      (n : ℕ) (l l₁ l' : Locals host.State) (buflen : ℤ)
      → n < 2 ^ 16
      → Pass host lawful n l buflen l₁
      → is_full buflen ≡ true
      → Delivered ((n + 1) % 2 ^ 16) l₁ l'
      → Delivered n l l'
  unfolding Pass
  continued n l l₁ l' buflen small p more d = (
    record {
      sized = (d.0).sized;
      held_eq = (d.0).held_eq ∙ (p.0).held_eq;
      flag = λ f. (p.0).flag ((d.0).flag f);
    },
    λ f.
        let m = p.1 ((d.0).flag f) in
        let (packets, sent, got) = d.1 f in
        let full = is_full_size buflen (length m.bytes) m.buflen_eq more in
        (
          (data_header host.order n ++ m.bytes) ∷ packets,
          sent
              ∙ ap (λ s. s ++ packets) m.sent_eq
              ∙ append_assoc (view host lawful l).sent _ packets,
          receive_next host.order n m.bytes _ packets small full got ∙ ap some (sym m.taken),
        ),
  )

  pub Pass-Sized :
      (n : ℕ) (l l₁ : Locals host.State) (buflen : ℤ) → Pass host lawful n l buflen l₁ → Sized l₁
  unfolding Pass
  Pass-Sized n l l₁ buflen p = (p.0).sized

  pub remaining-Pass :
      (fuel n : ℕ) (l l₁ : Locals host.State) (buflen : ℤ)
      → Pass host lawful n l buflen l₁
      → is_full buflen ≡ true
      → l₁.error ≡ false
      → length (view host lawful l).remaining < 512 * suc fuel
      → length (view host lawful l₁).remaining < 512 * fuel
  unfolding Pass
  remaining-Pass fuel n l l₁ buflen p full clear enough =
      let m = p.1 clear in
      less_left fuel (view host lawful l).remaining m.bytes (view host lawful l₁).remaining m.taken
        (is_full_size buflen (length m.bytes) m.buflen_eq full) enough

  pub send_blocks-Delivered :
      (fuel n : ℕ) (l : Locals host.State)
      → Sized l
      → length (view host lawful l).remaining < 512 * fuel
      → Runs (send_blocks host fuel n) l (λ _. Delivered ((n + 1) % 2 ^ 16) l)
  unfolding send_blocks
  send_blocks-Delivered zero n l size enough = absurd (omega arith)
  send_blocks-Delivered (suc fuel) n l size enough =
      let next = (n + 1) % 2 ^ 16 in
      let small : next < 2 ^ 16 = omega arith in
      runs_bind (send_next_block-Pass host lawful next l size) λ buflen l₁ p. runs_get _ (
        runs_if _ _ _
          (λ more.
            let (full, clear) = go_on_cases (is_full buflen) l₁.error more in
            runs_weaken
              (send_blocks-Delivered fuel next l₁ (Pass-Sized next l l₁ buflen p)
                (remaining-Pass fuel next l l₁ buflen p full clear enough))
              (λ _ l' d. continued next l l₁ l' buflen small p full d))
          (λ stop. runs_pure _ (finished next l l₁ buflen small p stop)))
