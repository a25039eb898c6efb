-- ===== src/Rotator/Playlist/Spacing.antt =====
-- rotator/rotator_ctrl.cpp: the tracks that `create_playlist` adds keep the rules of rotation.
use cproject.Base.{◌≡◌, false, All}
use cproject.Base.Text.{Text}
use cproject.Rotator.Zend.{Zend}
use cproject.Rotator.State.{Rules, Folder, Ctrl}
use cproject.Rotator.History.Spacing.{IsDense}
use cproject.Rotator.Folders.Spacing.{Agree}

module _ (z : Zend) where
  open z use {Table}

  -- A state ready for `create_playlist`: the history is dense, no folder is a service folder, and the
  -- rules of each folder are the common ones (as `search_rules` always makes them).
  pub record IsReady (c : Ctrl Table) : Type 0 where
    pub dense : IsDense c.history
    pub folder_rules : All (λ (e : Text × Rules). Agree c.rules e.1) c.folder_rules
    pub folders : All (λ (e : Text × Folder Table). e.1.service ≡ false) c.folders
