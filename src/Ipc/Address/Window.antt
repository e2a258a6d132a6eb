-- ===== src/Ipc/Address/Window.antt =====
-- The window that archive/include/xpmem.hh attaches for a block.
use charm_experiments.Common.{
  find-put_self, ==_ne, Option-cases, find, put, ℕ, ◌+◌, ◌-◌, ◌%◌, ◌^◌, ◌≤◌, ◌<◌, ◌≡◌, ap, ◌∙◌, ◌≢◌,
  inl, inr, ◌⊎◌, Bool, none, refl, some, arith, if◌then◌else◌, ok, nat_eq,
}
use charm_experiments.Ipc.Address.{
  instance_of, instance_at, attach_window, length_of, base_of, get_instance, translate_address,
  Segments,
}

aligned : (p : ℕ) → (p - (p - base_of p)) % 8388608 ≡ 0
aligned p = omega arith

pub window_holds :
    (p size : ℕ)
    → 0 < size
    → size + 16777216 < 2 ^ 64
    → (base_of p ≤ p)
      × (p - base_of p + size ≤ length_of p size)
      × (length_of p size ≤ size + 16777216)
window_holds p size lt fits = (omega arith, omega arith, omega arith)

module _ (xpmem_get : ℕ → ℕ) (xpmem_attach : ℕ → ℕ → ℕ → ℕ) (here pe segid : ℕ) (s : Segments)
    (known : find pe s.segments ≡ some segid) where
  -- The handle of the segment: the one that this process has, or the one that it asks for.
  abbrev pub IsHandle : ℕ → Type 0
  IsHandle apid =
      (find segid s.instances ≡ some apid)
      ⊎ ((find segid s.instances ≡ none) × (apid ≡ xpmem_get segid))

  -- The instance of a segment that this process knows is asked for once: a second call gives the
  -- same handle and changes nothing.
  get_instance_again :
      (i : ℕ × Segments) × (get_instance xpmem_get pe s ≡ some i)
      × (get_instance xpmem_get pe i.1 ≡ some i)
      × IsHandle i.0
  unfolding get_instance
  get_instance_again = elim (Option-cases (find segid s.instances)) [
    | inr (apid, e) ↦
        let run : instance_at xpmem_get (find pe s.segments) s ≡ some (apid, s) =
          ap (λ o. instance_at xpmem_get o s) known
          ∙ ap (λ o. some (instance_of xpmem_get segid o s)) e in
        ((apid, s), run, run, inl e)
    | inl e ↦
        let s' = record s { instances = put segid (xpmem_get segid) s.instances } in
        (
          (xpmem_get segid, s'),
          ap (λ o. instance_at xpmem_get o s) known
              ∙ ap (λ o. some (instance_of xpmem_get segid o s)) e,
          ap (λ o. instance_at xpmem_get o s') known
              ∙ ap (λ o. some (instance_of xpmem_get segid o s'))
                  (find-put_self segid (xpmem_get segid) s.instances),
          inr (e, refl),
        )
  ]

  -- A block of another process, whose segment is known, of less than 2 ^ 64 - 2 ^ 24 bytes, is
  -- found at its place in a window that is attached with the handle of the segment: the one that this
  -- process has, or else the one that xpmem_get gives for the segment. The window starts at a multiple
  -- of 8 MiB, holds the whole block and is at most 16 MiB longer; a second translation gives the same
  -- address and changes nothing.
  pub translate_address_window :
      (p size : ℕ)
      → pe ≢ here
      → 0 < size
      → size + 16777216 < 2 ^ 64
      → (apid : ℕ) × (s' : Segments) × (offset : ℕ) × (len : ℕ) × (translate_address xpmem_get
            xpmem_attach here pe p size s
          ≡ ok ((xpmem_attach apid (p - offset) len + offset) % 2 ^ 64, s'))
        × (translate_address xpmem_get xpmem_attach here pe p size s'
            ≡ ok ((xpmem_attach apid (p - offset) len + offset) % 2 ^ 64, s'))
        × IsHandle apid
        × ((p - offset) % 8388608 ≡ 0)
        × (offset + size ≤ len)
        × (len ≤ size + 16777216)
  unfolding translate_address
  translate_address_window p size other lt fits =
      let ((apid, s'), first, again, handle) = get_instance_again in
      let (below, inside, short) = window_holds p size lt fits in
      let branch = λ (t : Segments) (b : Bool).
        if b then ok (p, t) else attach_window xpmem_attach p size (get_instance xpmem_get pe t) in
      let place : base_of p ≡ p - (p - base_of p) = omega (arith, below) in
      let moved =
        ap (λ k. ok ((xpmem_attach apid k (length_of p size) + (p - base_of p)) % 2 ^ 64, s'))
          place in
      (
        apid,
        s',
        p - base_of p,
        length_of p size,
        ap (branch s) (==_ne pe here other) ∙ ap (attach_window xpmem_attach p size) first ∙ moved,
        ap (branch s') (==_ne pe here other) ∙ ap (attach_window xpmem_attach p size) again ∙ moved,
        handle,
        aligned p,
        inside,
        short,
      )
