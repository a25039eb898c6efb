-- ===== src/Rotator/Folders/Termination.antt =====
-- rotator/rotator_ctrl.cpp: the walk through one folder ends.
use cproject.Base.{
  ℕ, zero, suc, ◌+◌, ◌-◌, ◌≤◌, ◌<◌, ◌≡◌, inl, inr, ◌≢◌, Bool, true, false, Option, some, arith,
  Bool-cases, Option-cases, Outcome, done, stuck, >>=-eq-done, >>=-ne-stuck, done-ne-stuck, if-both,
  ◌⊎◌,
}
use cproject.Base.Text.{Text, codes, text_compare, text_compare_refl}
use cproject.Base.Map.{lookup, insert}
use cproject.Base.Map.Laws.{lookup-insert_self}
use cproject.Rotator.Zend.{Zval, Zend}
use native.Mathlib.Decide.{ℕ_discrete}
use cproject.Rotator.Timer.{append_playlist_duration, remained_interval}
use cproject.Rotator.Timer.Durations.{append_playlist_duration-ne-stuck, remained_interval-ne-stuck}
use cproject.Rotator.State.{Folder, Ctrl, Verdict, add, skip}
use cproject.Rotator.Folders.{
  search_from, search_next_hash_index, rewind, analize_folder, global_analize, spend_interval,
  note_track, duration_of, add_to_playlist, play, find_at, find_record_in_playlist,
}

module _ (z : Zend) where
  open z use {Table, num_elements, index_exists}

  search_from_ge : (rounds : ℕ) (ht : Table) (i : ℕ) → i ≤ search_from z rounds ht i
  unfolding search_from
  search_from_ge zero ht i = omega arith
  search_from_ge (suc rounds) ht i = ground (arith, search_from_ge rounds ht (suc i))

  search_from_least :
      (rounds : ℕ) (ht : Table) (i j : ℕ)
      → i ≤ j
      → j < search_from z rounds ht i
      → index_exists ht j ≡ false
  unfolding search_from
  search_from_least zero ht i j p q = absurd (omega arith)
  search_from_least (suc rounds) ht i j p q = elim (Bool-cases (index_exists ht i)) [
    | inl e ↦ absurd (omega (arith, p, rw (e, search_from) at q))
    | inr e ↦ elim (ℕ_discrete i j) [
      | yes i=j ↦ rw (← i=j) e
      | no i≠j ↦ search_from_least rounds ht (suc i) j (omega arith) (rw (e, search_from) at q)
    ]
  ]

  search_from_end :
      (rounds : ℕ) (ht : Table) (i : ℕ)
      → (index_exists ht (search_from z rounds ht i) ≡ true)
        ⊎ (search_from z rounds ht i ≡ i + rounds)
  unfolding search_from
  search_from_end zero ht i = inr (omega arith)
  search_from_end (suc rounds) ht i = elim (Bool-cases (index_exists ht i)) [
    | inl e ↦ inl (rw (e, search_from) e)
    | inr e ↦ rw (e, search_from) (ground (arith, search_from_end rounds ht (suc i)))
  ]

  -- `search_next_hash_index` finds the first index from `index` on that is in the table, or else one
  -- that is not below the number of its elements.
  pub search_next_hash_index_lem :
      (ht : Table) (index : ℕ)
      → let next = search_next_hash_index z ht index in
        (index ≤ next)
        × ((j : ℕ) → index ≤ j → j < next → index_exists ht j ≡ false)
        × ((index_exists ht next ≡ true) ⊎ (num_elements ht ≤ next))
  unfolding search_next_hash_index
  search_next_hash_index_lem ht index =
      let rounds : ℕ = num_elements ht - index in
      (
        search_from_ge rounds ht index,
        search_from_least rounds ht index,
        ground (arith, search_from_end rounds ht index),
      )

  add_to_playlist-ne-stuck :
      (ht : Table) (n : ℕ) (c : Ctrl Table) → add_to_playlist z ht n c ≢ stuck
  unfolding add_to_playlist spend_interval
  add_to_playlist-ne-stuck ht n c =
      let noted : Ctrl Table = note_track z ht n c in
      let sd : Option Text = duration_of (z.str_find ht (codes "duration")) in
      >>=-ne-stuck (append_playlist_duration sd noted.timer) _
        (append_playlist_duration-ne-stuck sd noted.timer)
        (λ t _.
          if-both (λ (x : Outcome (Ctrl Table)). x ≢ stuck) c.m_schedule
            (>>=-ne-stuck (remained_interval sd t) _ (remained_interval-ne-stuck sd t)
              (λ u _. done-ne-stuck _))
            (done-ne-stuck _))

  play-ne-stuck : (v : Verdict) (ht : Table) (n : ℕ) (c : Ctrl Table) → play z v ht n c ≢ stuck
  unfolding play
  play-ne-stuck skip ht n c = done-ne-stuck _
  play-ne-stuck add ht n c =
      >>=-ne-stuck (add_to_playlist z ht n c) _ (add_to_playlist-ne-stuck ht n c)
        (λ d _. done-ne-stuck _)

  find_at-ne-stuck :
      (o : Option (Zval Table)) (f : Folder Table) (name : Text) (c : Ctrl Table)
      → find_at z o f name c ≢ stuck
  unfolding find_at
  find_at-ne-stuck (some (Zval.arr ht)) f name c = play-ne-stuck _ ht f.statistics c
  find_at-ne-stuck _ f name c = done-ne-stuck _

  analize_folder-ne-stuck :
      (f : Folder Table) (name : Text) (next : Bool) (c : Ctrl Table)
      → analize_folder z f name next c ≢ stuck
  unfolding analize_folder find_record_in_playlist
  analize_folder-ne-stuck f name next c =
      let f' : Folder Table = (rewind z f c.max_ht_size next).0 in
      let c' : Ctrl Table = record c { folders = insert text_compare name f' c.folders } in
      ground (arith, find_at-ne-stuck (z.index_find f'.ht f'.index) f' name c')

  -- Where `global_analize` says to stay in the folder, its index moved on and is inside the folder.
  abbrev pub Moved : Text → Folder Table → Ctrl Table → Type 0
  Moved name f d =
      (g : Folder Table) × (lookup text_compare name d.folders ≡ some g)
      × (g.ht ≡ f.ht)
      × (g.index < num_elements f.ht)
      × (f.index < num_elements f.ht → f.index < g.index)

  analize_folder-Moved :
      (f : Folder Table) (name : Text) (next m : Bool) (c d : Ctrl Table)
      → analize_folder z f name next c ≡ done (d, m, false)
      → Moved name f d
  unfolding analize_folder find_record_in_playlist rewind
  analize_folder-Moved f name next m c d e =
      let f' : Folder Table = (rewind z f c.max_ht_size next).0 in
      let c' : Ctrl Table = record c { folders = insert text_compare name f' c.folders } in
      let ((g, v), _, h) = >>=-eq-done (find_at z (z.index_find f'.ht f'.index) f' name c') _ e in
      let index : ℕ = search_next_hash_index z f'.ht (f'.index + 1) in
      let moved : Folder Table = record f' { index = index } in
      (
        moved,
        ground (
          arith,
          h,
          lookup-insert_self text_compare name moved g.folders (text_compare_refl name),
        ),
        ground arith,
        ground (arith, h),
        ground (arith, h, (search_next_hash_index_lem f'.ht (f'.index + 1)).0),
      )

  pub global_analize-ne-stuck :
      (name : Text) (next : Bool) (c : Ctrl Table) → global_analize z name next c ≢ stuck
  unfolding global_analize
  global_analize-ne-stuck name next c = elim (Option-cases (lookup text_compare name c.folders)) [
    | inl e ↦ rw (e, global_analize) (λ p. cc)
    | inr (f, e) ↦ rw (e, global_analize) (analize_folder-ne-stuck f name next c)
  ]

  pub global_analize-Moved :
      (f : Folder Table) (name : Text) (next m : Bool) (c d : Ctrl Table)
      → lookup text_compare name c.folders ≡ some f
      → global_analize z name next c ≡ done (d, m, false)
      → Moved name f d
  unfolding global_analize
  global_analize-Moved f name next m c d e h =
      analize_folder-Moved f name next m c d (rw (e, global_analize) at h)
