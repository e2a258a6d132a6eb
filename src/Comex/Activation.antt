-- ===== src/Comex/Activation.antt =====
-- The loop of `activate` in archive/tests/comex/component.hh.
use charm_experiments.Common.{◌≡◌, ◌⊎◌, false, none, nat_eq}
use charm_experiments.Comex.{find_ready, Component, ValueSet}

module _ {V S : Type 0} (action : S → ValueSet V → S × ValueSet V) where
  -- The component came to rest: it is inactive or holds no complete set.
  abbrev pub AtRest : Component V S → Type 0
  AtRest c = (c.active ≡ false) ⊎ (find_ready c.incoming ≡ none)
