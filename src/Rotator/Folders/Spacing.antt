-- ===== src/Rotator/Folders/Spacing.antt =====
-- rotator/rotator_ctrl.cpp: one visit of a folder keeps the rules of rotation in the history.
use cproject.Base.{
  ℕ, ◌+◌, ◌==◌, ◌≡◌, refl, Bool, false, Option, none, some, [], ◌∷◌, length, All, arith, Bool-cases,
  Option-cases, inl, inr, ◌++◌, subst, ◌∙◌, done, >>=-eq-done,
}
use cproject.Base.Text.{Text, codes, c_str, text_compare}
use cproject.Base.Map.{lookup, insert}
use cproject.Base.Map.Laws.{lookup-All, insert-All}
use cproject.Rotator.Zend.{Zval, Zend}
use cproject.Rotator.Timer.{append_playlist_duration, remained_interval}
use cproject.Rotator.State.{Rules, History, Histories, Folder, Ctrl, Verdict, add, skip}
use cproject.Rotator.History.{find_record_in_history, append_history}
use cproject.Rotator.History.Spacing.{
  Apart, IsDense, find_record_in_history-Apart, append_history-IsDense,
}
use cproject.Rotator.Rules.{get_current_rules}
use cproject.Rotator.Order.Frame.{Same, create_schedule_order-Same}
use cproject.Rotator.Folders.{
  valid_text, duration_of, remember, spend_interval, note_track, add_to_playlist, judge, play,
  find_at, find_record_in_playlist, rewind, analize_folder, global_analize, search_next_hash_index,
}

-- The history `hs` is `old` with tracks put before it, each of which kept the rules when it came.
pub data Grown (r : Rules) (old : Histories) : Histories → Type 0 where
  same : Grown r old old
  more :
      {hs : Histories} (h : History)
      → Grown r old hs
      → Apart r h hs
      → Grown r old ((length hs, h) ∷ hs)

-- The limits of `s` are those of `r`.
abbrev pub Agree : Rules → Rules → Type 0
Agree r s = (s.singer_limit ≡ r.singer_limit) × (s.track_limit ≡ r.track_limit)

Agree-Apart : (r s : Rules) (h : History) (hs : Histories) → Agree r s → Apart s h hs → Apart r h hs
Agree-Apart r s h hs (e, f) a j k g found m =
    let (singer, title) = a j k g found m in (rw (← e) singer, λ t. rw (← f) (title t))

-- What a run needs to keep: the history grew from `old` by the rules `r`, those of every folder, and
-- no folder is a service folder, for which the rules do not count.
pub record Kept (r : Rules) (old : Histories) {T : Type 0} (c : Ctrl T) : Type 0 where
  pub dense : IsDense c.history
  pub grown : Grown r old c.history
  pub rules : Agree r c.rules
  pub folder_rules : All (λ (e : Text × Rules). Agree r e.1) c.folder_rules
  pub folders : All (λ (e : Text × Folder T). e.1.service ≡ false) c.folders

module _ (r : Rules) (old : Histories) where
  pub Same-Kept : {T : Type 0} (c d : Ctrl T) → Same c d → Kept r old c → Kept r old d
  Same-Kept c d s k = record {
    dense = rw s.history k.dense;
    grown = rw s.history k.grown;
    rules = rw s.rules k.rules;
    folder_rules = rw s.folder_rules k.folder_rules;
    folders = rw s.folders k.folders;
  }

  remember-Kept :
      {T : Type 0} (h : History) (c : Ctrl T)
      → Kept r old c
      → Apart r h c.history
      → Kept r old (record c { history = append_history h c.history })
  remember-Kept h c k a = record {
    dense = rw (append_history-IsDense h c.history k.dense) (refl, k.dense);
    grown = rw (append_history-IsDense h c.history k.dense) (more h k.grown a);
    rules = k.rules;
    folder_rules = k.folder_rules;
    folders = k.folders;
  }

module _ (z : Zend) where
  open z use {Table, num_elements, index_find, str_find}

  spend_interval-Same :
      (sd : Option Text) (c d : Ctrl Table) → spend_interval z sd c ≡ done d → Same c d
  unfolding spend_interval
  spend_interval-Same sd c d e =
      let (t, _, f) = >>=-eq-done (remained_interval sd c.timer) _ e in
      ground (arith, f, create_schedule_order-Same (record c { timer = t }))

  add_to_playlist-Same :
      (ht : Table) (n : ℕ) (c d : Ctrl Table)
      → add_to_playlist z ht n c ≡ done d
      → Same (note_track z ht n c) d
  unfolding add_to_playlist
  add_to_playlist-Same ht n c d e =
      let noted : Ctrl Table = note_track z ht n c in
      let sd : Option Text = duration_of (str_find ht (codes "duration")) in
      let (t, _, f) = >>=-eq-done (append_playlist_duration sd noted.timer) _ e in
      let timed : Ctrl Table = record noted { timer = t } in
      ground (arith, f, spend_interval-Same sd timed d)

  module _ (r : Rules) (old : Histories) where
    -- A track that the history test lets pass enters the history by the rules.
    remembered :
        (s t : Option Text) (n : ℕ) (rules : Rules) (f : Folder Table) (c l : Ctrl Table)
        → Agree r rules
        → f.service ≡ false
        → judge z s t f rules c ≡ add
        → l.history ≡ c.history
        → Kept r old l
        → Kept r old (remember z s t n l)
    unfolding judge remember
    remembered none t n rules f c l agree plain e kept k = cc
    remembered (some s) none n rules f c l agree plain e kept k = cc
    remembered (some s) (some t) n rules f c l agree plain e kept k =
        let h : History = record { singer = s; title = t; statistics = n + 1 } in
        let passed : find_record_in_history s t rules f.statistics l.history ≡ add = ground arith in
        remember-Kept r old h l k (
          Agree-Apart r rules h l.history agree
            (find_record_in_history-Apart h rules f.statistics l.history passed))

    note_track-Kept :
        (ht : Table) (n : ℕ) (rules : Rules) (f : Folder Table) (c : Ctrl Table)
        → Agree r rules
        → f.service ≡ false
        → judge z
            (valid_text (str_find ht (codes "executor")))
            (valid_text (str_find ht (codes "title")))
            f
            rules
            c
          ≡ add
        → Kept r old c
        → Kept r old (note_track z ht n c)
    unfolding note_track
    note_track-Kept ht n rules f c agree plain e k =
        let listed : Ctrl Table = record c {
          playlist = c.playlist ++ (Zval.arr ht ∷ []);
          increase_counter = 0;
        } in
        let kept : Kept r old listed = record {
          dense = k.dense;
          grown = k.grown;
          rules = k.rules;
          folder_rules = k.folder_rules;
          folders = k.folders;
        } in
        elim (Bool-cases (num_elements ht == 0)) [
          | inl b ↦ rw b kept
          | inr b ↦ rw b (remembered _ _ n rules f c listed agree plain e refl kept)
        ]

    current-Agree :
        (name : Text) (c : Ctrl Table) → Kept r old c → Agree r (get_current_rules z name c)
    unfolding get_current_rules
    current-Agree name c k = elim (Option-cases (lookup text_compare name c.folder_rules)) [
      | inl e ↦ rw (e, get_current_rules) k.rules
      | inr (s, e) ↦
          rw (e, get_current_rules)
            (lookup-All (Agree r) text_compare name c.folder_rules s k.folder_rules e)
    ]

    play-Kept :
        (w : Verdict) (ht : Table) (n : ℕ) (c d : Ctrl Table) (v : Verdict)
        → play z w ht n c ≡ done (d, v)
        → (w ≡ add → Kept r old (note_track z ht n c))
        → Kept r old c
        → Kept r old d
    unfolding play
    play-Kept skip ht n c d v e noted k = subst (Kept r old) (cc) k
    play-Kept add ht n c d v e noted k =
        let (d', e', f) = >>=-eq-done (add_to_playlist z ht n c) _ e in
        subst (Kept r old) (cc)
          (Same-Kept r old _ d' (add_to_playlist-Same ht n c d' e') (noted refl))

    find_at-Kept :
        (o : Option (Zval Table)) (f : Folder Table) (name : Text) (c d : Ctrl Table) (v : Verdict)
        → f.service ≡ false
        → find_at z o f name c ≡ done (d, v)
        → Kept r old c
        → Kept r old d
    unfolding find_at
    find_at-Kept (some (Zval.arr ht)) f name c d v plain e k =
        play-Kept _ ht f.statistics c d v e
          (λ w. note_track-Kept ht f.statistics _ f c (current-Agree (c_str name) c k) plain w k) k
    find_at-Kept _ f name c d v plain e k = subst (Kept r old) (cc) k

    folders-Kept :
        (c : Ctrl Table) (name : Text) (f : Folder Table)
        → f.service ≡ false
        → Kept r old c
        → Kept r old (record c { folders = insert text_compare name f c.folders })
    folders-Kept c name f plain k = record {
      dense = k.dense;
      grown = k.grown;
      rules = k.rules;
      folder_rules = k.folder_rules;
      folders =
          insert-All (λ (g : Folder Table). g.service ≡ false) text_compare name f c.folders
            k.folders plain;
    }

    rewind_service :
        (f : Folder Table) (m : ℕ) (next : Bool) → ((rewind z f m next).0).service ≡ f.service
    unfolding rewind
    rewind_service f m next = ground arith

    analize_folder-Kept :
        (f : Folder Table) (name : Text) (to_next : Bool) (c d : Ctrl Table) (next over : Bool)
        → f.service ≡ false
        → analize_folder z f name to_next c ≡ done (d, next, over)
        → Kept r old c
        → Kept r old d
    unfolding analize_folder find_record_in_playlist
    analize_folder-Kept f name to_next c d next over plain e k =
        let f' : Folder Table = (rewind z f c.max_ht_size to_next).0 in
        let plain' : f'.service ≡ false = rewind_service f c.max_ht_size to_next ∙ plain in
        let c' : Ctrl Table = record c { folders = insert text_compare name f' c.folders } in
        let ((g, v), e', h) = >>=-eq-done (find_record_in_playlist z f' name c') _ e in
        let k' = find_at-Kept _ f' name c' g v plain' e' (folders-Kept c name f' plain' k) in
        subst (Kept r old) (cc) (
          folders-Kept g name (record f' { index = search_next_hash_index z f'.ht (f'.index + 1) })
            plain' k')

    -- `global_analize` keeps what a run keeps.
    pub global_analize-Kept :
        (name : Text) (to_next : Bool) (c d : Ctrl Table) (next over : Bool)
        → global_analize z name to_next c ≡ done (d, next, over)
        → Kept r old c
        → Kept r old d
    unfolding global_analize
    global_analize-Kept name to_next c d next over e k =
        elim (Option-cases (lookup text_compare name c.folders)) [
          | inl e' ↦ cc (rw (e', global_analize) at e)
          | inr (f, e') ↦
              analize_folder-Kept f name to_next c d next over
                (lookup-All (λ (g : Folder Table). g.service ≡ false) text_compare name c.folders f
                  k.folders e')
                (rw (e', global_analize) at e) k
        ]
