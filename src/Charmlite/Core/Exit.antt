-- ===== src/Charmlite/Core/Exit.antt =====
-- `exit` of archive/charmlite/src/core.cc.
use charm_experiments.Common.{ℕ, ◌≡◌, refl, ok, [], ◌∷◌, false, ℤ, eq_ℤ}
use charm_experiments.Charmlite.Destination.{to_callback, callback_fn, is_broadcast, all_pes}
use charm_experiments.Charmlite.Message.{Message, with_dst, broadcast, exit_scheduler}
use charm_experiments.Charmlite.Core.{Pe, exit, emit}

-- An exit message that came to one PE goes out to all others, and the PE stops; each PE that gets
-- the copy stops and passes nothing on.
pub exit_once :
    {P T : Type 0} (m : Message P) (id : ℕ) (p : ℤ) (here there : Pe P T)
    → m.dst ≡ to_callback id p
    → eq_ℤ p all_pes ≡ false
    → let m' = with_dst m (to_callback id all_pes) in
      (exit m here ≡ ok (emit here (broadcast m' ∷ exit_scheduler ∷ [])))
      × (exit m' there ≡ ok (emit there (exit_scheduler ∷ [])))
unfolding exit is_broadcast callback_fn
exit_once m id p here there d h = (simp (d, h), refl)
