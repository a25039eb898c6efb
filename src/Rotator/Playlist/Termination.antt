-- ===== src/Rotator/Playlist/Termination.antt =====
-- rotator/rotator_ctrl.cpp: the inner loop of `analise_folders_by_order` ends.
use cproject.Base.{
  ℕ, zero, suc, ◌+◌, ◌<◌, ◌≡◌, ◌≢◌, Bool, true, false, some, arith, done, stuck, >>=-ne-stuck,
  done-ne-stuck, if◌then◌else◌,
}
use cproject.Base.Text.{Text, text_compare}
use cproject.Base.Map.{lookup}
use cproject.Rotator.Zend.{Zend}
use cproject.Rotator.State.{Folder, Ctrl}
use cproject.Rotator.Folders.{global_analize}
use cproject.Rotator.Folders.Termination.{Moved, global_analize-ne-stuck, global_analize-Moved}
use cproject.Rotator.Playlist.{visit}

module _ (z : Zend) where
  open z use {Table, num_elements}

  -- One round more, where the rounds that follow a move inside the folder end.
  visit_step :
      (fuel : ℕ) (f : Folder Table) (name : Text) (next : Bool) (c : Ctrl Table)
      → lookup text_compare name c.folders ≡ some f
      → ((m : Bool) (d : Ctrl Table) → Moved z name f d → visit z fuel name m d ≢ stuck)
      → visit z (suc fuel) name next c ≢ stuck
  unfolding visit
  visit_step fuel f name next c e rest =
      >>=-ne-stuck (global_analize z name next c) _ (global_analize-ne-stuck z name next c) ended
    where
      ended :
          (r : Ctrl Table × Bool × Bool)
          → global_analize z name next c ≡ done r
          → (let more = visit z fuel name (r.1) (r.0) in if r.2 then done (r.0, r.1) else more)
            ≢ stuck
      ended (d, m, true) h = done-ne-stuck _
      ended (d, m, false) h = rest m d (global_analize-Moved z f name next m c d e h)

  visit_inside :
      (fuel : ℕ) (f : Folder Table) (name : Text) (next : Bool) (c : Ctrl Table)
      → lookup text_compare name c.folders ≡ some f
      → f.index < num_elements f.ht
      → num_elements f.ht < fuel + f.index
      → visit z fuel name next c ≢ stuck
  visit_inside zero f name next c e inside enough = absurd (omega arith)
  visit_inside (suc fuel) f name next c e inside enough =
      visit_step fuel f name next c e (λ m d moved.
        let (g, at, ht, in_g, on) = moved in
        visit_inside fuel g name m d at (rw ht in_g) (rw ht (omega (arith, on inside))))

  -- The walk through a folder ends: two rounds more than it has tracks are always enough, wherever
  -- its index stands and whatever the verdicts on its tracks are.
  pub visit-ne-stuck :
      (fuel : ℕ) (f : Folder Table) (name : Text) (next : Bool) (c : Ctrl Table)
      → lookup text_compare name c.folders ≡ some f
      → num_elements f.ht + 1 < fuel
      → visit z fuel name next c ≢ stuck
  visit-ne-stuck zero f name next c e enough = absurd (omega arith)
  visit-ne-stuck (suc fuel) f name next c e enough = visit_step fuel f name next c e (λ m d moved.
      let (g, at, ht, in_g, on) = moved in
      visit_inside fuel g name m d at (rw ht in_g) (rw ht (omega arith)))
