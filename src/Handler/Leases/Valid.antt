-- ===== src/Handler/Leases/Valid.antt =====
-- The validity of the locks across do_locate_object and ACTION_FREE_LOCK.
use cwnet.Base.{
  ℕ, suc, ◌+◌, ◌≡◌, ◌<◌, refl, ap, sym, subst, ◌∙◌, List, [], ◌∷◌, ◌++◌, none, some, Bool, length,
  arith, some-eq, >>=-eq-some, Bool-cases, Option-cases, inl, inr, length-append,
}
use cwnet.Handler.Names.{bcpl_to_c_str}
use cwnet.Handler.State.{Handler, LinkedLock, locate_object, return_dos_packet}
use cwnet.Handler.Locks.{do_locate_object, locate, on_free_lock, find_lock_in_list, remove_lock}
use cwnet.Handler.Leases.{
  IsValid, Known, Lacks, Distinct, Located, Known-Lacks, Known-le, Known-append, Distinct-append,
  find_lock_in_list-Lacks, remove_lock-All, remove_lock-Distinct, length-remove_lock,
  locate-Located,
}

module _ {N : Type 0} where
  Located-IsValid :
      (h h₁ h' : Handler N)
      → IsValid h
      → h₁.requests ≡ suc h.requests
      → h₁.locks ≡ h.locks
      → h₁.lock_blocks ≡ h.lock_blocks + 1
      → Located h.requests h₁ h'
      → IsValid h'
  Located-IsValid h h₁ h' v next same blocks o = elim o.locks_eq [
    | inl kept ↦
        let e : h'.locks ≡ h.locks = kept ∙ same in
        record {
          distinct = subst Distinct (sym e) v.distinct;
          known =
              subst (λ ls. Known h'.requests ls) (sym e)
                (Known-le h.requests h'.requests h.locks (omega (arith, o.requests_eq)) v.known);
          blocks = omega (arith, ap length e, o.blocks_eq, v.blocks);
        }
    | inr (l, fresh, added) ↦
        let e : h'.locks ≡ h.locks ++ l ∷ [] = added ∙ ap (λ ls. ls ++ l ∷ []) same in
        let lacks : Lacks l.address h.locks =
          Known-Lacks h.requests l.address h.locks (omega arith) v.known in
        record {
          distinct = subst Distinct (sym e) (Distinct-append h.locks l v.distinct lacks);
          known =
              subst (λ ls. Known h'.requests ls) (sym e)
                (Known-append h'.requests h.locks l
                  (Known-le h.requests h'.requests h.locks (omega (arith, o.requests_eq)) v.known)
                  (omega (arith, o.requests_eq)));
          blocks =
              omega (arith, ap length e, length-append h.locks (l ∷ []), o.blocks_eq, v.blocks);
        }
  ]

  -- Every branch of do_locate_object that returns keeps the locks valid: their addresses are
  -- different from each other and were given out before, and each takes one of the allocated
  -- blocks.
  pub do_locate_object-IsValid :
      (alloc_ok : ℕ → Bool) (dir : ℕ) (bstr : List ℕ) (mode : ℕ) (h h' : Handler N)
      → IsValid h
      → do_locate_object alloc_ok dir bstr mode h ≡ some h'
      → IsValid h'
  unfolding do_locate_object return_dos_packet
  do_locate_object-IsValid alloc_ok dir bstr mode h h' v e =
      let (fname, name, done) = >>=-eq-some (bcpl_to_c_str bstr) _ e in
      elim (Bool-cases (alloc_ok h.requests)) [
        | inl memory ↦
            let h₁ : Handler N = record h {
              requests = suc h.requests;
              lock_blocks = h.lock_blocks + 1;
            } in
            subst IsValid (some-eq (rw memory at done)) (
              Located-IsValid h h₁
                (locate (locate_object dir bstr mode) h.requests dir fname mode h₁) v refl refl refl
                (locate-Located (locate_object dir bstr mode) h.requests dir fname mode h₁))
        | inr full ↦ subst IsValid (some-eq (rw full at done)) (record {
          distinct = v.distinct;
          known = Known-le h.requests (suc h.requests) h.locks (omega arith) v.known;
          blocks = v.blocks;
        })
      ]

  -- ACTION_FREE_LOCK keeps the locks valid, and afterwards no lock is found at the address that was
  -- freed.
  pub on_free_lock-IsValid :
      (a : ℕ) (h : Handler N)
      → IsValid h
      → IsValid (on_free_lock (some a) h)
        × (find_lock_in_list a (on_free_lock (some a) h).locks ≡ none)
  unfolding on_free_lock return_dos_packet
  on_free_lock-IsValid a h v = elim (Option-cases (find_lock_in_list a h.locks)) [
    | inl missing ↦
        rw (missing, on_free_lock)
          (record { distinct = v.distinct; known = v.known; blocks = v.blocks }, missing)
    | inr (l, found) ↦
        let (d, lacks) = remove_lock-Distinct a h.locks v.distinct in
        rw (found, on_free_lock)
          (
            record {
              distinct = d;
              known =
                  remove_lock-All (λ (m : LinkedLock). m.address < h.requests) a h.locks v.known;
              blocks = omega (arith, length-remove_lock a h.locks l found, v.blocks);
            },
            find_lock_in_list-Lacks a (remove_lock a h.locks) lacks,
          )
  ]
