-- ===== src/Rotator/Playlist/Init.antt =====
-- rotator/rotator_ctrl.cpp: the rules that the constructor leaves for each folder.
use cproject.Base.{
  ◌≡◌, not, ◌==◌, Option, none, some, All, if◌then◌else◌, if-both, if-elim, Outcome, done,
  >>=-eq-done, done-injective, subst,
}
use cproject.Base.Int.{ℤ}
use cproject.Base.Text.{Text}
use cproject.Rotator.Zend.{Zval, Zend, hash_of}
use cproject.Rotator.State.{Rules, Ctrl, input_array_error}
use cproject.Rotator.Timer.{Timer, Clock, new_timer}
use cproject.Rotator.Rules.{search_rules, common_rules}
use cproject.Rotator.Order.{search_order, search_schedule}
use cproject.Rotator.Order.Frame.{Same, search_order-Same, search_schedule-Same}
use cproject.Rotator.History.{search_history}
use cproject.Rotator.Folders.{search_folders}
use cproject.Rotator.Folders.Spacing.{Agree}
use cproject.Rotator.Folders.Init.{AllAgree, search_folders-AllAgree}
use cproject.Rotator.Playlist.{blank, read_input, on_init}

module _ (z : Zend) where
  open z use {Table}

  Same-AllAgree : (c d : Ctrl Table) → Same c d → AllAgree c → AllAgree d
  Same-AllAgree c d s h = rw (s.folder_rules, s.rules) h

  read_input-AllAgree :
      (clock : Clock) (ht : Table) (input : Zval Table) (c d : Ctrl Table)
      → read_input z clock ht input c ≡ done d
      → AllAgree (record c { rules = search_rules z ht common_rules c.rules })
      → AllAgree d
  unfolding read_input
  read_input-AllAgree clock ht input c d e h =
      let c' : Ctrl Table = record c { rules = search_rules z ht common_rules c.rules } in
      let ((g, found), e', f) = >>=-eq-done (search_folders z input c') _ e in
      let h' = search_folders-AllAgree z input c' g found e' h in
      let scheduled : Ctrl Table = search_schedule z clock input g in
      let h₁ = Same-AllAgree g scheduled (search_schedule-Same z clock input g) h' in
      let h₂ = Same-AllAgree scheduled _ (search_order-Same z input scheduled) h₁ in
      let ordered : Ctrl Table =
        if scheduled.m_schedule then scheduled else search_order z input scheduled in
      let h₃ : AllAgree ordered = if-both AllAgree scheduled.m_schedule h₁ h₂ in
      let ends = λ (x : Outcome (Ctrl Table)). x ≡ done d in
      if-elim ends (not found) (λ p. subst AllAgree (done-injective p) h')
        (λ p.
          let (hs, _, q) = >>=-eq-done (search_history z input ordered.history) _ p in
          subst AllAgree (done-injective q) h₃)
        f

  -- The constructor leaves every folder with the limits that hold for all: the rules that a folder
  -- states of its own are never read.
  pub on_init-Agree :
      (clock : Clock) (max_tracks : ℤ) (duration : Option Text) (input : Zval Table)
      (c : Ctrl Table)
      → on_init z clock max_tracks duration input ≡ done c
      → All (λ (e : Text × Rules). Agree c.rules e.1) c.folder_rules
  unfolding on_init blank
  on_init-Agree clock max_tracks duration input c e =
      let (timer, _, f) = >>=-eq-done (new_timer duration) _ e in ended timer (hash_of input) f
    where
      ended :
          (timer : Timer) (o : Option Table)
          → (elim o [
            | none ↦ done (record (blank z max_tracks duration timer) { error = input_array_error })
            | some ht ↦
                if z.num_elements ht == 0
                then done (record (blank z max_tracks duration timer) { error = input_array_error })
                else read_input z clock ht input (blank z max_tracks duration timer)
          ])
            ≡ done c
          → AllAgree c
      ended timer none p = subst AllAgree (done-injective p) tt
      ended timer (some ht) p =
          if-elim (λ (x : Outcome (Ctrl Table)). x ≡ done c) (z.num_elements ht == 0)
            (λ q. subst AllAgree (done-injective q) tt)
            (λ q. read_input-AllAgree clock ht input _ c q tt) p
