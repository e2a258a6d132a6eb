-- ===== src/Warp/Probes.antt =====
-- The loop over the probes in `__run_once` of warp/warp.hpp.
use charm_experiments.Common.{
  map, length, suc, arith, subst, ℕ, ◌+◌, ◌-◌, ◌%◌, ◌^◌, ◌≡◌, refl, sym, ◌∙◌, ◌⊎◌, inl, inr, Bool,
  true, false, Option, none, some, List, [], ◌∷◌, if◌then◌else◌, nat_eq,
}
use charm_experiments.Warp.Turns.{length-insert_at, requests}
use charm_experiments.Warp.Tally.{IsQuiet, IsTally, IsQuiet-trans, IsQuiet-refl}
use charm_experiments.Warp.{
  allocate, set_properties, insert_at, request_into, sizeof_message, Message, probe_one,
  request_sized, run_probes, Mpi, Rank,
}

-- The loop over the probes `l` has stopped: none is left, or the message of the first one left has not
-- come, as the last call of MPI told. Each probe that is gone has become a request.
pub record HasStopped {M V T : Type 0} (mpi : Mpi M V) (tested : M → ℕ → Type 0) (come went : M → ℕ)
    (l : List (ℕ × ℕ × ℕ)) (s s' : Rank M V T) : Type 0 where
  pub same_tasks : s'.tasks ≡ s.tasks
  pub stopped :
      (s'.probes ≡ [])
      ⊎ ((w : M) × (p : ℕ × ℕ × ℕ) × (rest : List (ℕ × ℕ × ℕ)) × (s'.probes ≡ p ∷ rest)
          × ((mpi.iprobe p.2 w).0 ≡ none)
          × (s'.mpi ≡ (mpi.iprobe p.2 w).1))
  pub none_lost : requests s' + length s'.probes ≡ requests s + length l
  pub quiet : IsQuiet tested come went s.mpi s'.mpi

module _ {M V T : Type 0} (mpi : Mpi M V) where
  emplaced_tasks :
      (e : ℕ × Message V) (s : Rank M V T) (before : Bool) (i : ℕ)
      → (if before
          then record s { passed = insert_at i e s.passed }
          else record s { ahead = insert_at i e s.ahead }).tasks
        ≡ s.tasks
  emplaced_tasks e s true i = refl
  emplaced_tasks e s false i = refl

  tasks-request_sized :
      (obj ep size tag : ℕ) (s : Rank M V T) → (request_sized mpi obj ep size tag s).tasks ≡ s.tasks
  unfolding request_sized request_into
  tasks-request_sized obj ep size tag s =
      let m = set_properties obj ep tag (allocate size (mpi.new_memory s.mpi)) in
      let (req, w) = mpi.irecv m s.mpi in
      let (before, i) = mpi.place req (map (λ x. x.0) s.passed) (map (λ x. x.0) s.ahead) in
      emplaced_tasks (req, m) (record s { mpi = w }) before i

  requests_emplaced :
      (e : ℕ × Message V) (s : Rank M V T) (before : Bool) (i : ℕ)
      → requests (
          if before
          then record s { passed = insert_at i e s.passed }
          else record s { ahead = insert_at i e s.ahead })
        ≡ suc (requests s)
  requests_emplaced e s true i = omega (arith, length-insert_at i e s.passed)
  requests_emplaced e s false i = omega (arith, length-insert_at i e s.ahead)

  mpi_emplaced :
      (e : ℕ × Message V) (s : Rank M V T) (before : Bool) (i : ℕ)
      → (if before
          then record s { passed = insert_at i e s.passed }
          else record s { ahead = insert_at i e s.ahead }).mpi
        ≡ s.mpi
  mpi_emplaced e s true i = refl
  mpi_emplaced e s false i = refl

  requests-request_sized :
      (obj ep size tag : ℕ) (s : Rank M V T)
      → requests (request_sized mpi obj ep size tag s) ≡ suc (requests s)
  unfolding request_sized request_into
  requests-request_sized obj ep size tag s =
      let m = set_properties obj ep tag (allocate size (mpi.new_memory s.mpi)) in
      let (req, w) = mpi.irecv m s.mpi in
      let (before, i) = mpi.place req (map (λ x. x.0) s.passed) (map (λ x. x.0) s.ahead) in
      requests_emplaced (req, m) (record s { mpi = w }) before i

module _ {M V T : Type 0} (mpi : Mpi M V) (tested : M → ℕ → Type 0) (come went : M → ℕ)
    (tally : IsTally mpi tested come went) where
  request_sized-IsQuiet :
      (obj ep size tag : ℕ) (s : Rank M V T)
      → IsQuiet tested come went s.mpi (request_sized mpi obj ep size tag s).mpi
  unfolding request_sized request_into
  request_sized-IsQuiet obj ep size tag s =
      let m = set_properties obj ep tag (allocate size (mpi.new_memory s.mpi)) in
      let (req, w) = mpi.irecv m s.mpi in
      let (before, i) = mpi.place req (map (λ x. x.0) s.passed) (map (λ x. x.0) s.ahead) in
      subst (IsQuiet tested come went s.mpi)
        (sym (mpi_emplaced mpi (req, m) (record s { mpi = w }) before i))
        (tally.irecv_quiet m s.mpi)

  probe_one-HasStopped :
      (next : Rank M V T → Rank M V T) (obj ep tag : ℕ) (rest : List (ℕ × ℕ × ℕ)) (s : Rank M V T)
      (o : Option ℕ)
      → o ≡ (mpi.iprobe tag s.mpi).0
      → ((s : Rank M V T) → HasStopped mpi tested come went rest s (next s))
      → HasStopped mpi tested come went
          ((obj, ep, tag) ∷ rest)
          s
          (probe_one mpi next (obj, ep, tag) rest s (o, (mpi.iprobe tag s.mpi).1))
  unfolding probe_one
  probe_one-HasStopped next obj ep tag rest s none e h = record {
    same_tasks = refl;
    stopped = inr (s.mpi, (obj, ep, tag), rest, refl, sym e, refl);
    none_lost = refl;
    quiet = tally.iprobe_quiet tag s.mpi;
  }
  probe_one-HasStopped next obj ep tag rest s (some count) e h =
      let size = (count + (2 ^ 64 - sizeof_message)) % 2 ^ 64 in
      let s1 = record s { mpi = (mpi.iprobe tag s.mpi).1 } in
      let s2 = request_sized mpi obj ep size tag s1 in
      let p = h s2 in
      record {
        same_tasks = p.same_tasks ∙ tasks-request_sized mpi obj ep size tag s1;
        stopped = p.stopped;
        none_lost = omega (arith, p.none_lost, requests-request_sized mpi obj ep size tag s1);
        quiet = IsQuiet-trans tested come went s.mpi s1.mpi _ (tally.iprobe_quiet tag s.mpi) (
            IsQuiet-trans tested come went s1.mpi s2.mpi _
              (request_sized-IsQuiet obj ep size tag s1) p.quiet);
      }

  pub run_probes-HasStopped :
      (l : List (ℕ × ℕ × ℕ)) (s : Rank M V T)
      → HasStopped mpi tested come went l s (run_probes mpi l s)
  unfolding run_probes
  run_probes-HasStopped [] s = record {
    same_tasks = refl;
    stopped = inl refl;
    none_lost = refl;
    quiet = IsQuiet-refl tested come went s.mpi;
  }
  run_probes-HasStopped ((obj, ep, tag) ∷ rest) s =
      probe_one-HasStopped (run_probes mpi rest) obj ep tag rest s (mpi.iprobe tag s.mpi).0 refl
        (run_probes-HasStopped rest)
