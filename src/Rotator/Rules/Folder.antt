-- ===== src/Rotator/Rules/Folder.antt =====
-- rotator/rotator_ctrl.cpp: `search_rules` for one folder.
use cproject.Base.{◌≡◌, refl, arith}
use cproject.Base.Int.{◌≤ℤ◌}
use cproject.Rotator.Zend.{Zend}
use cproject.Rotator.State.{Rules}
use cproject.Rotator.Rules.{search_rules, folder_rules, default_rules}

-- For a folder the answer is the rules at hand, whatever the folder says, with `max_rules` the larger
-- of their two limits.
pub search_rules-folder :
    (z : Zend) (ht : z.Table) (r : Rules)
    → let s = search_rules z ht folder_rules r in
      (s.singer_limit ≡ r.singer_limit)
      × (s.track_limit ≡ r.track_limit)
      × (s.return_interval ≡ r.return_interval)
      × (r.singer_limit ≤ℤ s.max_rules)
      × (r.track_limit ≤ℤ s.max_rules)
unfolding search_rules default_rules
search_rules-folder z ht r = (refl, refl, refl, ground arith, ground arith)
