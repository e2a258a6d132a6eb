-- ===== src/Workgroup/Rounds.antt =====
-- What `create` of archive/path2.0/include/hypercomm/workgroup.hpp does with the payloads that came
-- before the task.
use charm_experiments.Common.{
  All, ok-injective, List-cases, Bool-cases, update_self, get_elem?, get_elem?-lt, length, update,
  ℕ, zero, suc, ◌<◌, ◌≡◌, refl, sym, ap, subst, ◌∙◌, ◌⊎◌, inl, inr, Bool, true, false, none, some,
  List, ◌∷◌, ◌++◌, if◌then◌else◌, ok, nat_eq, ℤ, Outcome,
}
use charm_experiments.Workgroup.{
  after_call, create, insert_task, try_continue, Workgroup, Sent, Task, Payload, TaskId, Registry,
  task_id_eq,
}
use charm_experiments.Workgroup.Settle.{
  try_continue_stop, try_continue_step, IsFiled, IsSettled, IsProper, queued,
}
use charm_experiments.Workgroup.Total.{with_queue-IsFiled, advanced_kept}
use charm_experiments.Workgroup.Operations.{create_settles}

module _ {P T : Type 0} (rt : Registry P T) (tid : TaskId) where
  -- The task under `tid` has become `r`, which sent something, on the first payload of its queue `id`,
  -- of which the payloads `rest` are left.
  abbrev pub taken : ℕ → List (Payload P) → Task T × List (Sent P) → Workgroup P T → Workgroup P T
  taken id rest r w = record w {
    active = tid;
    tasks = update tid (if r.0.active then some r.0 else none) w.tasks;
    buffers = update tid (update id rest (w.buffers tid)) w.buffers;
    net = w.net ++ r.1;
  }

  -- The task takes payloads, one at a time: the first one in the queue of the continuation that it
  -- waits for, which that continuation handles.
  pub data Rounds : Workgroup P T → Workgroup P T → Type 0 where
    rests : (w : Workgroup P T) → Rounds w w
    takes :
        (t : Task T) (p : Payload P) (rest : List (Payload P))
        (k : ℤ → TaskId → Task T → Payload P → Task T × List (Sent P)) (w w' : Workgroup P T)
        → w.tasks tid ≡ some t
        → w.buffers tid t.continuation ≡ p ∷ rest
        → get_elem? rt.continuations t.continuation ≡ some k
        → Rounds (taken t.continuation rest (k w.this_index tid t p) w) w'
        → Rounds w w'

  try_continue-Rounds :
      (proper : IsProper rt) (fuel : ℕ) (w w' : Workgroup P T) (t : Task T)
      → w.active ≡ tid
      → w.tasks tid ≡ some t
      → t.continuation < length rt.continuations
      → IsFiled w
      → try_continue rt fuel tid w ≡ ok w'
      → Rounds w w'
  unfolding try_continue
  try_continue-Rounds proper zero w w' t a here reg filed run = cc
  try_continue-Rounds proper (suc fuel) w w' t a here reg filed run =
      elim (List-cases (w.buffers tid t.continuation)) [
        | inl e ↦
            subst (Rounds w) (ok-injective (sym (try_continue_stop rt fuel tid t w a here e) ∙ run))
              (rests w)
        | inr (p, rest, e) ↦
            let (k, known) = get_elem?-lt rt.continuations t.continuation reg in
            let r = k w.this_index tid t p in
            let c = t.continuation in
            let next = taken c rest r w in
            let head = subst (All (λ p'. p'.ref ≡ c)) e (filed tid c) in
            let direct =
              sym (try_continue_step rt fuel tid t w p rest k a here e head.0 known) ∙ run in
            takes t p rest k w w' here e known (elim (Bool-cases r.0.active) [
              | inl kept ↦
                  try_continue-Rounds proper fuel next w' r.0 refl
                    (advanced_kept rt tid c rest r w kept)
                    (proper.continues c k known w.this_index tid t p reg)
                    (with_queue-IsFiled tid c rest (after_call tid r w) filed head.1)
                    (sym (ap (λ b. if b then try_continue rt fuel tid next else ok next) kept)
                      ∙ direct)
              | inr ended ↦
                  subst (Rounds next)
                    (ok-injective (
                      sym (ap (λ b. if b then try_continue rt fuel tid next else ok next) ended)
                      ∙ direct))
                    (rests next)
            ])
      ]

  -- What `create` has made of `w`: the task that its creator made has ended and is not kept, or it has
  -- been put under its id and has taken payloads that came before it.
  pub record HasCreated (kind : ℕ) (p : Payload P) (w w' : Workgroup P T) : Type 0 where
    pub creator : ℤ → TaskId → Payload P → Task T × List (Sent P)
    pub registered : get_elem? rt.creators kind ≡ some creator
    pub outcome :
        let (t, sent) = creator w.this_index tid p in
        let made = record w { active = tid; net = w.net ++ sent } in
        ((t.active ≡ false) × (w' ≡ made))
        ⊎ ((t.active ≡ true) × Rounds (record made { tasks = update tid (some t) w.tasks }) w')

  module _ (proper : IsProper rt) (fuel : ℕ) (p : Payload P) (w : Workgroup P T)
      (settled : IsSettled rt w) (filed : IsFiled w)
      (enough : queued (length rt.continuations) (w.buffers tid) < fuel) where
    created_lem :
        (kind : ℕ) (w' : Workgroup P T)
        → kind < length rt.creators
        → w.tasks tid ≡ none
        → create rt fuel tid kind p w ≡ ok w'
        → HasCreated kind p w w'
    unfolding create insert_task
    created_lem kind w' lt absent run =
        let (k, known) = get_elem?-lt rt.creators kind lt in
        let r = k w.this_index tid p in
        let w1 = record w { active = tid; net = w.net ++ r.1 } in
        let next = record w1 { tasks = update tid (some r.0) w1.tasks } in
        let branch : Bool → Outcome (Workgroup P T) =
          λ b. if b then insert_task rt fuel tid none r.0 w1 else ok w1 in
        let step : create rt fuel tid kind p w ≡ branch r.0.active = simp (create, known, absent) in
        record {
          creator = k;
          registered = known;
          outcome = elim (Bool-cases r.0.active) [
            | inl kept ↦ inr (
              kept,
              try_continue-Rounds proper fuel next w' r.0 refl (update_self tid (some r.0) w1.tasks)
                  (proper.creates kind k known w.this_index tid p kept) filed
                  (sym (step ∙ ap branch kept) ∙ run),
            )
            | inr ended ↦ inl (ended, ok-injective (sym run ∙ step ∙ ap branch ended))
          ];
        }

    -- If the tasks' code names registered continuations only: from a settled workgroup whose queues
    -- are in order and that does not have the task, and with fuel above the number of payloads queued
    -- for it, `create` with a registered kind returns. The task that its creator made has ended, or it
    -- is put under its id and takes payloads one at a time, each the first in the queue of the
    -- continuation that it waits for then, which handles it; all other payloads stay. In the end the
    -- workgroup is settled, so that the task has ended or none of its payloads is left that it waits
    -- for, and its queues are in order.
    pub create-HasCreated :
        (kind : ℕ)
        → kind < length rt.creators
        → w.tasks tid ≡ none
        → (w' : Workgroup P T) × (create rt fuel tid kind p w ≡ ok w')
          × HasCreated kind p w w'
          × IsSettled rt w'
          × IsFiled w'
    create-HasCreated kind lt absent =
        let (w', run, settled', filed') =
          create_settles rt proper fuel tid p w settled filed enough kind lt absent in
        (w', run, created_lem kind w' lt absent run, settled', filed')
