-- ===== src/Charmlite/Proxy/Ids.antt =====
-- The indices that archive/charmlite/include/proxy.hh gives to collectives, and whom the message of a
-- group's constructor reaches.
use charm_experiments.Charmlite.Collective.{Collective}
use charm_experiments.Common.{
  find-put_self, Outcome, refl, put, ensure, >>=-eq-ok, abort, false, find, zero, ok, true,
  get_elem?-append_length, sym, ◌++◌, get_elem?-append_left, [], ◌∙◌, ◌∷◌, ap, length-append, ◌+◌,
  some, ◌-◌, get_elem?, length, pos, ℕ, ◌^◌, ◌<◌, ◌≡◌, ◌↔◌, List, arith,
}
use charm_experiments.Charmlite.Destination.{endpoint, CollectiveIndex, collective_index_eq}
use charm_experiments.Charmlite.Message.{Message, Out}
use charm_experiments.Charmlite.Core.{
  is_new, Program, Pe, kind_at, create, deliver_each, waiting_for, deliver, deliver_to_endpoint,
}
use charm_experiments.Charmlite.Proxy.{
  creation, endpoint_to, suc, with_dst, Program, broadcast_helper, send_to_each, sync_send,
  construct_collective, construct_group,
}

-- Which `construct` made a collective.
pub data Flavour : Type 0 where
  array group : Flavour

module _ {P : Type 0} (my_pe num_pes kind size entry : ℕ) (p : P) (m : Message P) where
  pub construct_any : Flavour → ℕ → CollectiveIndex × ℕ × List (Out P)
  construct_any array count = construct_collective my_pe kind count size p
  construct_any group count = construct_group my_pe num_pes kind count size p entry m

  -- Two collectives made in a row on one PE get the same index exactly when the first is a group
  -- and the second is not.
  pub construct_twice :
      (f g : Flavour) (count : ℕ)
      → count < 2 ^ 32
      → let (id1, count1, _) = construct_any f count in
        let (id2, _, _) = construct_any g count1 in (id1 ≡ id2) ↔ ((f ≡ group) × (g ≡ array))
  unfolding construct_any construct_collective construct_group
  construct_twice array array count h = ground arith
  construct_twice array group count h = ground arith
  construct_twice group array count h = ground arith
  construct_twice group group count h = ground arith

module _ {P : Type 0} (id : CollectiveIndex) (entry : ℕ) (m : Message P) where
  -- what PE `i` gets from `broadcast_helper_`
  abbrev pub share : ℕ → Out P
  share i = sync_send (pos i) (with_dst m (endpoint_to id i entry))

  length-send_to_each : (n i : ℕ) → length (send_to_each n i id entry m) ≡ n
  unfolding send_to_each
  length-send_to_each zero i = refl
  length-send_to_each (suc n) i = ap suc (length-send_to_each n (i + 1))

  get_elem?-send_to_each :
      (n i j : ℕ) → j < n → get_elem? (send_to_each n i id entry m) j ≡ some (share (i + j))
  unfolding send_to_each
  get_elem?-send_to_each zero i j h = elim h [ ]
  get_elem?-send_to_each (suc n) i zero h = ap (λ k. some (share k)) (omega arith)
  get_elem?-send_to_each (suc n) i (suc j) h =
      get_elem?-send_to_each n (i + 1) j (omega arith) ∙ ap (λ k. some (share k)) (omega arith)

  -- `broadcast_helper_` sends one message for each of the `n` PEs, to the element with the PE's own
  -- number: PE `j` at place `j - 1`, and PE 0 last.
  pub broadcast_helper_covers :
      (n : ℕ)
      → 0 < n
      → (length (broadcast_helper n id entry m) ≡ n)
        × ((j : ℕ)
            → 0 < j
            → j < n
            → get_elem? (broadcast_helper n id entry m) (j - 1) ≡ some (share j))
        × (get_elem? (broadcast_helper n id entry m) (n - 1) ≡ some (share 0))
  unfolding broadcast_helper
  broadcast_helper_covers n h =
      let sent = send_to_each (n - 1) 1 id entry m in
      let len : length sent ≡ n - 1 = length-send_to_each (n - 1) 1 in
      (
        length-append sent (share 0 ∷ []) ∙ omega (arith, len),
        λ j pos_j lt.
            get_elem?-append_left sent (share 0 ∷ []) (j - 1) (omega (arith, len))
            ∙ get_elem?-send_to_each (n - 1) 1 (j - 1) (omega arith)
            ∙ ap (λ k. some (share k)) (omega arith),
        ap (get_elem? (sent ++ (share 0 ∷ []))) (sym len) ∙ get_elem?-append_length sent (share 0),
      )

module _ {P T : Type 0} (prog : Program P T) (fuel : ℕ) where
  made-find :
      (col : CollectiveIndex) (c : Collective P T) (pe pe1 : Pe P T)
      → ◌≡◌ {A = Outcome (Pe P T)}
          (ok (record pe { table = put col c pe.table; buffer = put col [] pe.buffer }))
          (ok pe1)
      → find col pe1.table ≡ some c
  made-find col c pe pe1 h = ground (arith, find-put_self col c pe.table)

  create-find :
      (col : CollectiveIndex) (kind : ℕ) (pe pe1 : Pe P T)
      → create prog fuel col kind true pe ≡ ok pe1
      → (c : Collective P T) × (find col pe1.table ≡ some c)
  unfolding create
  create-find col kind pe pe1 h =
      let (make, _, h1) = >>=-eq-ok (kind_at prog kind) _ h in
      let (_, _, h2) = >>=-eq-ok (ensure (is_new col pe)) _ h1 in
      let (c, _, h3) =
        >>=-eq-ok (deliver_each prog fuel col true (waiting_for col pe) (make col)) _ h2 in
      (c, made-find col c pe pe1 h3)

  not_new :
      (col : CollectiveIndex) (pe : Pe P T) (c : Collective P T)
      → find col pe.table ≡ some c
      → is_new col pe ≡ false
  not_new col pe c f = ground (arith, f)

  -- A PE that has made a collective aborts when it is told to make another one under the same
  -- index, whatever the kinds, if the second kind is registered.
  pub create_twice :
      (kind kind' size : ℕ) (p : P) (id : CollectiveIndex) (pe pe1 : Pe P T)
      (make : CollectiveIndex → Collective P T)
      → deliver prog fuel (creation id kind size p) pe ≡ ok pe1
      → kind_at prog kind' ≡ ok make
      → deliver prog fuel (creation id kind' size p) pe1 ≡ abort
  unfolding deliver deliver_to_endpoint endpoint create
  create_twice kind kind' size p id pe pe1 make h k =
      let (c, f) = create-find id kind pe pe1 h in simp (k, not_new id pe1 c f)
