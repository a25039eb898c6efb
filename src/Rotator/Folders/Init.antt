-- ===== src/Rotator/Folders/Init.antt =====
-- rotator/rotator_ctrl.cpp: the rules that `search_folders` stores.
use cproject.Base.{
  ◌≡◌, Bool, ◌==◌, Option, none, some, List, [], ◌∷◌, All, if-both, if-elim, Outcome, done,
  >>=-eq-done, done-injective, subst,
}
use cproject.Base.Text.{Text, codes, text_compare}
use cproject.Base.Map.{lookup, is_some}
use cproject.Base.Map.Laws.{insert-All}
use cproject.Rotator.Zend.{Zval, Zend, Entry, hash_of, get_node_ptr, get_node_ptr_zval}
use cproject.Rotator.State.{Rules, Ctrl}
use cproject.Rotator.Rules.{search_rules, folder_rules}
use cproject.Rotator.Rules.Folder.{search_rules-folder}
use cproject.Rotator.Folders.{
  put_folder, tracks_in, search_tracks, folder_rules_of, folder_entry, named_entry, folders_loop,
  folders_in, search_folders,
}
use cproject.Rotator.Folders.Spacing.{Agree}

-- The limits of every folder are those that hold for all.
abbrev pub AllAgree : {T : Type 0} → Ctrl T → Type 0
AllAgree c = All (λ (e : Text × Rules). Agree c.rules e.1) c.folder_rules

module _ (z : Zend) where
  open z use {Table, num_elements, entries}

  tracks_in-AllAgree :
      (name : Text) (node : Table) (o : Option (Zval Table)) (c : Ctrl Table)
      → AllAgree c
      → AllAgree (tracks_in z name node o c)
  unfolding tracks_in put_folder
  tracks_in-AllAgree name node (some (Zval.arr ht)) c h =
      if-both AllAgree (num_elements ht == 0) h h
  tracks_in-AllAgree name node _ c h = h

  search_tracks-AllAgree :
      (v : Zval Table) (name : Text) (c d : Ctrl Table)
      → search_tracks z v name c ≡ done d
      → AllAgree c
      → AllAgree d
  unfolding search_tracks
  search_tracks-AllAgree Zval.undef name c d e h = subst AllAgree (done-injective e) h
  search_tracks-AllAgree (Zval.arr node) name c d e h =
      subst AllAgree (done-injective e)
        (tracks_in-AllAgree name node (get_node_ptr z (some node) (codes "tracks")) c h)
  search_tracks-AllAgree _ name c d e h = cc

  folder_rules_of-AllAgree :
      (o : Option Table) (name : Text) (c : Ctrl Table)
      → AllAgree c
      → AllAgree (folder_rules_of z o name c)
  unfolding folder_rules_of
  folder_rules_of-AllAgree none name c h = h
  folder_rules_of-AllAgree (some node) name c h =
      let r : Rules = search_rules z node folder_rules c.rules in
      let same = search_rules-folder z node c.rules in
      if-both AllAgree (is_some (lookup text_compare name c.folders))
        (insert-All (Agree c.rules) text_compare name r c.folder_rules h (same.0, same.1)) h

  named_entry-AllAgree :
      (o : Option Text) (v : Zval Table) (c d : Ctrl Table)
      → named_entry z o v c ≡ done d
      → AllAgree c
      → AllAgree d
  unfolding named_entry folder_entry
  named_entry-AllAgree none v c d e h = subst AllAgree (done-injective e) h
  named_entry-AllAgree (some name) v c d e h =
      let (g, e', f) = >>=-eq-done (search_tracks z v name c) _ e in
      subst AllAgree (done-injective f)
        (folder_rules_of-AllAgree (hash_of v) name g (search_tracks-AllAgree v name c g e' h))

  folders_loop-AllAgree :
      (es : List (Entry Table)) (c d : Ctrl Table)
      → folders_loop z es c ≡ done d
      → AllAgree c
      → AllAgree d
  unfolding folders_loop
  folders_loop-AllAgree [] c d e h = subst AllAgree (done-injective e) h
  folders_loop-AllAgree (x ∷ es) c d e h =
      let (g, e', f) = >>=-eq-done (named_entry z x.name x.value c) (folders_loop z es) e in
      folders_loop-AllAgree es g d f (named_entry-AllAgree x.name x.value c g e' h)

  folders_in-AllAgree :
      (o : Option (Zval Table)) (c d : Ctrl Table) (found : Bool)
      → folders_in z o c ≡ done (d, found)
      → AllAgree c
      → AllAgree d
  unfolding folders_in
  folders_in-AllAgree (some (Zval.arr ht)) c d found e h =
      let P = λ (p : Ctrl Table × Bool). AllAgree p.0 in
      if-elim (λ (x : Outcome (Ctrl Table × Bool)). x ≡ done (d, found)) (num_elements ht == 0)
        (λ p. subst P (done-injective p) h)
        (λ p.
          let (g, e', f) = >>=-eq-done (folders_loop z (entries ht) c) _ p in
          subst P (done-injective f) (folders_loop-AllAgree (entries ht) c g e' h))
        e
  folders_in-AllAgree _ c d found e h =
      subst (λ (p : Ctrl Table × Bool). AllAgree p.0) (done-injective e) h

  pub search_folders-AllAgree :
      (input : Zval Table) (c d : Ctrl Table) (found : Bool)
      → search_folders z input c ≡ done (d, found)
      → AllAgree c
      → AllAgree d
  unfolding search_folders
  search_folders-AllAgree input c d found e h =
      folders_in-AllAgree (get_node_ptr_zval z (some input) (codes "folders")) c d found e h
