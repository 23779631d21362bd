-- ===== src/Descriptors/Laws.antt =====
-- Opening and closing descriptors.
use matte_os.Base.{
  ap, ◌∙◌, ℕ, ◌<◌, ◌≡◌, ◌≢◌, refl, none, some, arith, length, get_elem?, set, Option-cases, inl,
  inr, get_elem?-set_self, get_elem?-set_ne,
}
use matte_os.Errors.{ErrorOr, value, error, create_from_string}
use matte_os.Descriptors.{
  FileDescriptorTable, free_slot, open_fd, get, close, clear_slots, close_all,
}
use matte_os.Descriptors.Slots.{
  FirstFree, free_slot-FirstFree, free_slot_full, set_back, in_range, get_elem?-clear_slots,
}

module _ {ℓ} {A : Type ℓ} where
  with_fd : FileDescriptorTable A → ℕ → A → FileDescriptorTable A
  with_fd t k d = record { fds = set t.fds k (some d) }

  -- The two ends of `open_fd`.
  pub data OpenOutcome (d : A) (t : FileDescriptorTable A)
      : ErrorOr ℕ × FileDescriptorTable A → Type ℓ where
    no_slot :
        ((k : ℕ) → get_elem? t.fds k ≢ some none)
        → OpenOutcome d t (error (create_from_string "No free file descriptors!"), t)
    opened :
        (k : ℕ) (t' : FileDescriptorTable A)
        → FirstFree t.fds k
        → get k t' ≡ some (value d)
        → ((j : ℕ) → k ≢ j → get j t' ≡ get j t)
        → OpenOutcome d t (value k, t')

  get_at :
      (k : ℕ) (t : FileDescriptorTable A) (d : A)
      → get_elem? t.fds k ≡ some (some d)
      → get k t ≡ some (value d)
  unfolding get
  get_at k t d e = rw (get, e) refl

  get_same :
      (k : ℕ) (t t' : FileDescriptorTable A)
      → get_elem? t'.fds k ≡ get_elem? t.fds k
      → get k t' ≡ get k t
  unfolding get
  get_same k t t' e = rw (get, e) refl

  open_error :
      (d : A) (t : FileDescriptorTable A)
      → free_slot t.fds 0 ≡ none
      → open_fd d t ≡ (error (create_from_string "No free file descriptors!"), t)
  unfolding open_fd
  open_error d t e = rw (open_fd, e) refl

  open_value :
      (d : A) (t : FileDescriptorTable A) (k : ℕ)
      → free_slot t.fds 0 ≡ some k
      → open_fd d t ≡ (value k, with_fd t k d)
  unfolding open_fd with_fd
  open_value d t k e = rw (open_fd, e) refl

  opened-FirstFree :
      (d : A) (t : FileDescriptorTable A) (k : ℕ)
      → FirstFree t.fds k
      → OpenOutcome d t (value k, with_fd t k d)
  unfolding with_fd
  opened-FirstFree d t k f =
      opened k (with_fd t k d) f
        (get_at k (with_fd t k d) d
          (get_elem?-set_self t.fds k (some d) (in_range t.fds k none f.empty)))
        (λ j ne. get_same j t (with_fd t k d) (get_elem?-set_ne t.fds (some d) ne))

  first_of : (t : FileDescriptorTable A) (n : ℕ) → free_slot t.fds 0 ≡ some n → FirstFree t.fds n
  first_of t n e =
      let (k, same, f) = free_slot-FirstFree t.fds 0 n e in
      let same' : n ≡ k = omega arith in rw same' f

  -- `open_fd` takes the lowest free slot: `get` of it then returns the descriptor, and that of any other
  -- slot what it returned before. When no slot is free it fails and changes nothing.
  pub open_fd-OpenOutcome : (d : A) (t : FileDescriptorTable A) → OpenOutcome d t (open_fd d t)
  open_fd-OpenOutcome d t = elim (Option-cases (free_slot t.fds 0)) [
    | inl none_free ↦
        rw (open_error d t none_free) (no_slot (λ k. free_slot_full t.fds 0 k none_free))
    | inr (k, e) ↦ rw (open_value d t k e) (opened-FirstFree d t k (first_of t k e))
  ]

  close_step :
      (k : ℕ) (t : FileDescriptorTable A) (d : A)
      → get_elem? t.fds k ≡ some (some d)
      → close k t ≡ (value tt, record { fds = set t.fds k none })
  unfolding close
  close_step k t d e = rw (close, e) refl

  close_again :
      (k : ℕ) (t : FileDescriptorTable A)
      → get_elem? t.fds k ≡ some none
      → close k t ≡ (error (create_from_string "File descriptor already closed!"), t)
  unfolding close
  close_again k t e = rw (close, e) refl

  -- Where a slot is free, the descriptor that `open_fd` returns can be closed once: that restores the
  -- table as it was, and closing it again is an error.
  pub close-open_fd :
      (d : A) (t : FileDescriptorTable A) (free : ℕ)
      → get_elem? t.fds free ≡ some none
      → (fd : ℕ) × (t' : FileDescriptorTable A) × (open_fd d t ≡ (value fd, t'))
        × (close fd t' ≡ (value tt, t))
        × (close fd t ≡ (error (create_from_string "File descriptor already closed!"), t))
  unfolding with_fd
  close-open_fd d t free e = elim (Option-cases (free_slot t.fds 0)) [
    | inl none_free ↦ absurd (free_slot_full t.fds 0 free none_free e)
    | inr (k, at) ↦
        let f = first_of t k at in
        (
          k,
          with_fd t k d,
          open_value d t k at,
          close_step k (with_fd t k d) d
                (get_elem?-set_self t.fds k (some d) (in_range t.fds k none f.empty))
              ∙ ap (λ l. (value tt, record { fds = l })) (set_back t.fds k d f.empty),
          close_again k t f.empty,
        )
  ]

  get_empty :
      (k : ℕ) (t : FileDescriptorTable A)
      → get_elem? t.fds k ≡ some none
      → get k t ≡ some (error (create_from_string "Invalid file descriptor!"))
  unfolding get
  get_empty k t e = rw (get, e) refl

  get_found :
      (k : ℕ) (t : FileDescriptorTable A) (d : A)
      → get k t ≡ some (value d)
      → get_elem? t.fds k ≡ some (some d)
  unfolding get
  get_found k t d e = elim (Option-cases (get_elem? t.fds k)) [
    | inl out ↦ let s : get k t ≡ none = rw (get, out) refl in absurd cc
    | inr (none, there) ↦ absurd cc (get_empty k t there, e)
    | inr (some d', there) ↦ let s = get_at k t d' there in let same : d' ≡ d = cc in cc
  ]

  -- A descriptor that is found can be closed: then it is invalid, and the others are what they were.
  pub get-close :
      (k : ℕ) (t : FileDescriptorTable A) (d : A)
      → get k t ≡ some (value d)
      → (t' : FileDescriptorTable A) × (close k t ≡ (value tt, t'))
        × (get k t' ≡ some (error (create_from_string "Invalid file descriptor!")))
        × ((j : ℕ) → k ≢ j → get j t' ≡ get j t)
  get-close k t d e =
      let there = get_found k t d e in
      let t' : FileDescriptorTable A = record { fds = set t.fds k none } in
      (
        t',
        close_step k t d there,
        get_empty k t' (get_elem?-set_self t.fds k none (in_range t.fds k (some d) there)),
        λ j ne. get_same j t t' (get_elem?-set_ne t.fds none ne),
      )

  -- After `close_all` every descriptor of the table is invalid.
  pub get-close_all :
      (t : FileDescriptorTable A) (k : ℕ)
      → k < length t.fds
      → get k (close_all t).1 ≡ some (error (create_from_string "Invalid file descriptor!"))
  unfolding close_all
  get-close_all t k lt =
      get_empty k (record { fds = clear_slots t.fds }) (get_elem?-clear_slots t.fds k lt)
