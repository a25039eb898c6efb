-- ===== src/Logger/Daemon/Deletion.antt =====
-- logger/tlogmsg.cpp, logger/file.cpp: the file that a message is written to, and the one that a command
-- with the same fields deletes.
use cproject.Base.{
  ℕ, suc, ◌+◌, ◌<◌, ◌≡◌, ◌≢◌, ◌↔◌, refl, sym, ap, subst, ◌∙◌, ◌⊎◌, inl, inr, false, ◌==◌,
  if◌then◌else◌, Option, none, some, [], ◌∷◌, ◌++◌, All, length, arith, append_assoc, length-append,
  Option-cases, if-known,
}
use cproject.Base.Text.{Text}
use cproject.Logger.Message.{Message, slash, before_last, directories, file_path, global_file_name}
use cproject.Logger.Store.{semicolon, pieces, deletions}

-- A text without a semicolon is one piece.
pub pieces_one : (s : Text) → All (λ c. (c == semicolon) ≡ false) s → pieces s ≡ s ∷ []
unfolding pieces
pieces_one [] h = refl
pieces_one (c ∷ s) h = rw (pieces_one s h.1, h.0) refl

-- Nothing in front of the last delimiter: the first byte is no delimiter.
first-ne-slash : (c : ℕ) (s : Text) → before_last slash (c ∷ s) ≡ none → (c == slash) ≡ false
unfolding before_last
first-ne-slash c s e = ground (arith, e)

some-ne-none {ℓ} : {A : Type ℓ} (a : A) → some a ≢ none
some-ne-none a e = cc

-- The lengths of the name that is written to, and of the one that is deleted.
module _ (m : Message) where
  length-global_file_name :
      length (global_file_name m)
      ≡ length m.domain
        + suc (length (directories (before_last slash m.filename)))
        + length m.filename
  unfolding global_file_name file_path
  length-global_file_name =
      length-append (m.domain ++ (slash ∷ directories (before_last slash m.filename))) m.filename
      ∙ ap (λ n. n + length m.filename)
          (length-append m.domain (slash ∷ directories (before_last slash m.filename)))

-- A delimiter behind the first byte: there are directories.
directories_pos :
    (c : ℕ) (s p : Text)
    → (c == slash) ≡ false
    → before_last slash (c ∷ s) ≡ some p
    → 0 < length (directories (some p))
unfolding before_last
directories_pos c s p ne = by_rest (before_last slash s)
  where
    some-injective : (a b : Text) → some a ≡ some b → a ≡ b
    some-injective a b e = cc

    by_rest :
        (o : Option Text)
        → (elim o [ some q ↦ some (c ∷ q) | none ↦ if c == slash then some [] else none ]) ≡ some p
        → 0 < length (directories (some p))
    by_rest none e = absurd (some-ne-none p (sym e ∙ rw ne refl))
    by_rest (some q) e =
        subst (λ t. 0 < length (directories (some t))) (some-injective (c ∷ q) p e)
          (rw ne (omega arith))

deletions_one :
    (domain : Text) (c : ℕ) (s : Text)
    → All (λ b. (b == semicolon) ≡ false) (c ∷ s)
    → deletions domain ((c ∷ s) ∷ [])
      ≡ (domain ++ (if c == slash then c ∷ s else slash ∷ c ∷ s)) ∷ []
unfolding deletions
deletions_one domain c s h = rw (pieces_one (c ∷ s) h) refl

module _ (m : Message) (c : ℕ) (s : Text) (name : m.filename ≡ c ∷ s) where
  -- The lengths of the two names.
  deleted_shorter :
      (p : Text)
      → before_last slash m.filename ≡ some p
      → length (m.domain ++ (if c == slash then c ∷ s else slash ∷ c ∷ s))
        < length (global_file_name m)
  deleted_shorter p e =
      let dirs : length (directories (before_last slash m.filename))
          ≡ length (directories (some p)) =
        ap (λ o. length (directories o)) e in
      let size : length m.filename ≡ suc (length s) = ap length name in
      if-known (λ (t : Text). length (m.domain ++ t) < length (global_file_name m)) (c == slash)
        (λ h. omega (arith, length-append m.domain (c ∷ s), length-global_file_name m))
        (λ h.
          let more = directories_pos c s p h (ap (before_last slash) (sym name) ∙ e) in
          omega (arith, length-append m.domain (slash ∷ c ∷ s), length-global_file_name m))

  same_name :
      before_last slash m.filename ≡ none
      → m.domain ++ (if c == slash then c ∷ s else slash ∷ c ∷ s) ≡ global_file_name m
  unfolding global_file_name file_path
  same_name e =
      rw (e, first-ne-slash c s (ap (before_last slash) (sym name) ∙ e), name)
        (sym (append_assoc m.domain (slash ∷ []) (c ∷ s)))

  -- A file name that is not empty, does not begin with a delimiter and has no semicolon: the path that
  -- a deletion with the domain and the name of a message removes is, byte for byte, the path that the
  -- message is written to if there is no delimiter in the name, and only then.
  pub deletions-global_file_name :
      (c == slash) ≡ false
      → All (λ b. (b == semicolon) ≡ false) m.filename
      → (deletions m.domain (m.filename ∷ []) ≡ global_file_name m ∷ [])
        ↔ (before_last slash m.filename ≡ none)
  deletions-global_file_name relative h = (only, λ e. one ∙ ap (λ t. t ∷ []) (same_name e))
    where
      one :
          deletions m.domain (m.filename ∷ [])
          ≡ (m.domain ++ (if c == slash then c ∷ s else slash ∷ c ∷ s)) ∷ []
      one =
          subst
            (λ t.
              deletions m.domain (t ∷ [])
              ≡ (m.domain ++ (if c == slash then c ∷ s else slash ∷ c ∷ s)) ∷ [])
            (sym name)
            (deletions_one m.domain c s (subst (All (λ b. (b == semicolon) ≡ false)) name h))

      head_same : (x y : Text) → x ∷ [] ≡ y ∷ [] → x ≡ y
      head_same x y e = cc

      only :
          deletions m.domain (m.filename ∷ []) ≡ global_file_name m ∷ []
          → before_last slash m.filename ≡ none
      only e = by_case (Option-cases (before_last slash m.filename))
        where
          lengths :
              length (m.domain ++ (if c == slash then c ∷ s else slash ∷ c ∷ s))
              ≡ length (global_file_name m)
          lengths = ap length (head_same _ _ (sym one ∙ e))

          by_case :
              (before_last slash m.filename ≡ none)
                ⊎ ((p : Text) × (before_last slash m.filename ≡ some p))
              → before_last slash m.filename ≡ none
          by_case (inl none_left) = none_left
          by_case (inr (p, found)) = absurd (omega (arith, lengths, deleted_shorter p found))
