-- ===== src/Charmlite/Core/Early.antt =====
-- Messages that reach a PE before their collective does (archive/charmlite/src/core.cc).
use charm_experiments.Common.{
  append_assoc, >>=_assoc, find-put_self, abort, fault, out_of_fuel, fun_ext, refl, ◌∙◌, ap,
  >>=-eq-ok, put, append-nil, arith, sym, ◌∙◌, true, All, some, ap, none, find, ◌++◌, ℕ, ◌≡◌, false,
  List, [], ◌∷◌, Outcome, ok, ◌>>=◌,
}
use charm_experiments.Charmlite.Destination.{
  endpoint, CollectiveIndex, collective_index_eq, to_endpoint,
}
use charm_experiments.Charmlite.Collective
use charm_experiments.Charmlite.Message.{Message}
use charm_experiments.Charmlite.Core.{
  is_new_lem, create, kind_at, waiting_for, deliver_to, Collective, deliver_each,
  deliver_to_endpoint, Program, Pe, deliver,
}

-- A message to an element of the collective `col`, which creates nothing of the PE's.
pub record IsFor {P : Type 0} (col : CollectiveIndex) (m : Message P) : Type 0 where
  pub chare : ℕ
  pub entry : ℕ
  pub bcast : ℕ
  pub addressed : m.dst ≡ to_endpoint col chare entry bcast
  pub ordinary : m.has_collective_kind ≡ false

module _ {P T : Type 0} (prog : Program P T) where
  -- the arrivals at a PE, in order
  pub deliver_all : ℕ → List (Message P) → Pe P T → Outcome (Pe P T)
  deliver_all fuel [] pe = ok pe
  deliver_all fuel (m ∷ ms) pe = deliver prog fuel m pe >>= deliver_all fuel ms

  deliver_all-nil : (fuel : ℕ) (o : Outcome (Pe P T)) → (o >>= deliver_all fuel []) ≡ o
  unfolding deliver_all
  deliver_all-nil fuel (ok pe) = refl
  deliver_all-nil fuel abort = refl
  deliver_all-nil fuel fault = refl
  deliver_all-nil fuel out_of_fuel = refl

  deliver_all-append :
      (fuel : ℕ) (ms : List (Message P)) (m : Message P) (pe : Pe P T)
      → deliver_all fuel (ms ++ (m ∷ [])) pe ≡ (deliver_all fuel ms pe >>= deliver prog fuel m)
  unfolding deliver_all
  deliver_all-append fuel [] m pe = deliver_all-nil fuel (deliver prog fuel m pe)
  deliver_all-append fuel (x ∷ ms) m pe =
      ap (λ (f : Pe P T → Outcome (Pe P T)). deliver prog fuel x pe >>= f)
        (fun_ext (deliver_all-append fuel ms m))
      ∙ sym (>>=_assoc (deliver prog fuel x pe) (deliver_all fuel ms) (deliver prog fuel m))

  module _ (fuel : ℕ) (col : CollectiveIndex) where
    deliver_lem :
        (m : Message P) (pe : Pe P T)
        → IsFor col m
        → deliver prog fuel m pe ≡ deliver_to prog fuel col m true (find col pe.table) pe
    unfolding deliver deliver_to_endpoint endpoint
    deliver_lem m pe f = simp (deliver, f.addressed, f.ordinary)

    deliver_waits :
        (m : Message P) (pe : Pe P T)
        → IsFor col m
        → find col pe.table ≡ none
        → deliver prog fuel m pe
          ≡ ok (record pe { buffer = put col (waiting_for col pe ++ (m ∷ [])) pe.buffer })
    unfolding deliver_to
    deliver_waits m pe f n = deliver_lem m pe f ∙ ap (λ o. deliver_to prog fuel col m true o pe) n

    waits_more :
        (m : Message P) (pe : Pe P T)
        → waiting_for {P = P} {T = T} col
            (record pe { buffer = put col (waiting_for col pe ++ (m ∷ [])) pe.buffer })
          ≡ waiting_for col pe ++ (m ∷ [])
    waits_more m pe = ground (arith, find-put_self col (waiting_for col pe ++ (m ∷ [])) pe.buffer)

    deliver_here :
        (m : Message P) (pe : Pe P T) (c c1 : Collective P T)
        → IsFor col m
        → find col pe.table ≡ some c
        → Collective.deliver (prog.runtime col) fuel m true c ≡ ok c1
        → deliver prog fuel m pe ≡ ok (record pe { table = put col c1 pe.table })
    unfolding deliver_to
    deliver_here m pe c c1 f h d =
        deliver_lem m pe f ∙ ap (λ o. deliver_to prog fuel col m true o pe) h ∙ rw d

    arrivals_wait :
        (ms : List (Message P)) (pe : Pe P T)
        → find col pe.table ≡ none
        → All (IsFor col) ms
        → (pe' : Pe P T) × (deliver_all fuel ms pe ≡ ok pe')
          × (pe'.table ≡ pe.table)
          × (waiting_for col pe' ≡ waiting_for col pe ++ ms)
    unfolding deliver_all
    arrivals_wait [] pe n f = (pe, refl, refl, sym (append-nil _))
    arrivals_wait (m ∷ ms) pe n f =
        let pe1 : Pe P T = record pe {
          buffer = put col (waiting_for col pe ++ (m ∷ [])) pe.buffer;
        } in
        let (pe', e, t, w) = arrivals_wait ms pe1 n f.1 in
        (
          pe',
          ap (λ o. o >>= deliver_all fuel ms) (deliver_waits m pe f.0 n) ∙ e,
          t,
          w ∙ ap (λ q. q ++ ms) (waits_more m pe) ∙ append_assoc (waiting_for col pe) (m ∷ []) ms,
        )

    arrivals_handled :
        (ms : List (Message P)) (pe : Pe P T) (c c' : Collective P T)
        → find col pe.table ≡ some c
        → All (IsFor col) ms
        → deliver_each prog fuel col true ms c ≡ ok c'
        → (pe' : Pe P T) × (deliver_all fuel ms pe ≡ ok pe')
          × (find col pe'.table ≡ some c')
          × (pe'.buffer ≡ pe.buffer)
    unfolding deliver_all deliver_each
    arrivals_handled [] pe c c' h f r = (pe, refl, h ∙ ground arith, refl)
    arrivals_handled (m ∷ ms) pe c c' h f r =
        let (c1, d, r') =
          >>=-eq-ok (Collective.deliver (prog.runtime col) fuel m true c)
            (deliver_each prog fuel col true ms) r in
        let pe1 : Pe P T = record pe { table = put col c1 pe.table } in
        let (pe', e, t, b) = arrivals_handled ms pe1 c1 c' (find-put_self col c1 pe.table) f.1 r' in
        (pe', ap (λ o. o >>= deliver_all fuel ms) (deliver_here m pe c c1 f.0 h d) ∙ e, t, b)

    nothing_waits :
        (pe : Pe P T)
        → waiting_for {P = P} {T = T} col (record pe { buffer = put col [] pe.buffer }) ≡ []
    nothing_waits pe =
        let e = find-put_self {V = List (Message P)} col [] pe.buffer in ground (arith, e)

    -- `mk` is the message that makes the collective on each PE.
    create_lem :
        (mk : Message P) (pe : Pe P T) (i kind b : ℕ) (make : CollectiveIndex → Collective P T)
        (c : Collective P T)
        → mk.dst ≡ to_endpoint col i kind b
        → mk.has_collective_kind ≡ true
        → find col pe.table ≡ none
        → kind_at prog kind ≡ ok make
        → deliver_each prog fuel col true (waiting_for col pe) (make col) ≡ ok c
        → deliver prog fuel mk pe
          ≡ ok (record pe { table = put col c pe.table; buffer = put col [] pe.buffer })
    unfolding deliver deliver_to_endpoint endpoint create
    create_lem mk pe i kind b make c d k n m e = simp (deliver, d, k, is_new_lem col pe n, m, e)

    -- It does not matter whether messages for the elements of a collective reach a PE before or after
    -- the message that makes it: if the new collective can handle them in that order, both ways end,
    -- with the same collective, and no message is left waiting.
    pub early_or_late :
        (mk : Message P) (ms : List (Message P)) (pe : Pe P T) (i kind b : ℕ)
        (make : CollectiveIndex → Collective P T) (c : Collective P T)
        → mk.dst ≡ to_endpoint col i kind b
        → mk.has_collective_kind ≡ true
        → All (IsFor col) ms
        → find col pe.table ≡ none
        → waiting_for col pe ≡ []
        → kind_at prog kind ≡ ok make
        → deliver_each prog fuel col true ms (make col) ≡ ok c
        → (early late : Pe P T) × (deliver_all fuel (ms ++ (mk ∷ [])) pe ≡ ok early)
          × (deliver_all fuel (mk ∷ ms) pe ≡ ok late)
          × (find col early.table ≡ some c)
          × (find col late.table ≡ some c)
          × (waiting_for col early ≡ [])
          × (waiting_for col late ≡ [])
    unfolding deliver_all deliver_each
    early_or_late mk ms pe i kind b make c d k f n w m e =
        let (pe1, e1, t1, w1) = arrivals_wait ms pe n f in
        let made : Pe P T = record pe {
          table = put col (make col) pe.table;
          buffer = put col [] pe.buffer;
        } in
        let (late, e2, t2, b2) =
          arrivals_handled ms made (make col) c (find-put_self col (make col) pe.table) f e in
        (
          record pe1 { table = put col c pe1.table; buffer = put col [] pe1.buffer },
          late,
          deliver_all-append fuel ms mk pe
              ∙ rw e1 (
                  create_lem mk pe1 i kind b make c d k (ap (find col) t1 ∙ n) m (
                    ap (λ q. deliver_each prog fuel col true q (make col))
                      (w1 ∙ ap (λ q. q ++ ms) w)
                    ∙ e)),
          ap (λ o. o >>= deliver_all fuel ms)
                (create_lem mk pe i kind b make (make col) d k n m
                  (ap (λ q. deliver_each prog fuel col true q (make col)) w))
              ∙ e2,
          find-put_self col c pe1.table,
          t2,
          nothing_waits pe1,
          ap (λ q. waiting_for {P = P} {T = T} col (record late { buffer = q })) b2
              ∙ nothing_waits pe,
        )
