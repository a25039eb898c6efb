-- ===== src/Logger/Daemon/Content.antt =====
-- logger/clientmessage.cpp, logger/file.cpp: what a file holds, and what waits for it.
use Prim.Native.Nat.{Ordering}
use cproject.Base.{
  ◌≡◌, ◌≢◌, refl, sym, ap, ap₂, subst, ◌∙◌, Bool, true, List, [], ◌∷◌, ◌++◌, arith, append_assoc,
  append-nil,
}
use cproject.Base.Text.{Text, text_compare, text_compare_eq, text_compare_refl}
use cproject.Base.Map.{lookup, insert}
use cproject.Base.Map.Laws.{lookup-insert_self, lookup-insert_ne}
use cproject.Base.Map.Sorted.{IsSorted, Above, insert-IsSorted, text_compare-IsOrder}
use cproject.Logger.Client.{MessageList, waiting, push_back}
use cproject.Logger.Store.{concat, write_text, run_work}

-- A text, where two names are the same.
abbrev pub at_file : Ordering → Text → Text
at_file Ordering.eq s = s
at_file Ordering.lt s = []
at_file Ordering.gt s = []

-- What a file holds, by the texts that were appended to files.
abbrev pub content : Text → List (Text × Text) → Text
content f [] = []
content f ((name, s) ∷ w) = at_file (text_compare f name) s ++ content f w

pub content-append :
    (f : Text) (v w : List (Text × Text)) → content f (v ++ w) ≡ content f v ++ content f w
content-append f [] w = refl
content-append f ((name, s) ∷ v) w =
    rw (content-append f v w)
      (sym (append_assoc (at_file (text_compare f name) s) (content f v) (content f w)))

pub concat-append : (xs ys : List Text) → concat (xs ++ ys) ≡ concat xs ++ concat ys
concat-append [] ys = refl
concat-append (x ∷ xs) ys = rw (concat-append xs ys) (sym (append_assoc x (concat xs) (concat ys)))

abbrev first_of : Ordering → List Text → List Text → List Text
first_of Ordering.eq msgs rest = msgs
first_of Ordering.lt msgs rest = rest
first_of Ordering.gt msgs rest = rest

waiting-cons :
    (f name : Text) (msgs : List Text) (list : MessageList)
    → waiting f ((name, msgs) ∷ list) ≡ first_of (text_compare f name) msgs (waiting f list)
unfolding lookup
waiting-cons f name msgs list = ground arith

-- A file below all others is not in the list.
absent : (f : Text) (list : MessageList) → Above text_compare f list → waiting f list ≡ []
unfolding lookup
absent f [] h = refl
absent f ((name, msgs) ∷ list) h = waiting-cons f name msgs list ∙ rw h.0 (absent f list h.1)

at_file-nil : (x : Ordering) → at_file x [] ≡ []
at_file-nil Ordering.eq = refl
at_file-nil Ordering.lt = refl
at_file-nil Ordering.gt = refl

write_text-content :
    (f name s : Text) → content f (write_text name s) ≡ at_file (text_compare f name) s
write_text-content f name [] = sym (at_file-nil (text_compare f name))
write_text-content f name (c ∷ s) = append-nil (at_file (text_compare f name) (c ∷ s))

module _ (can_write : Text → Bool) (there : (name : Text) → can_write name ≡ true) where
  -- The store appends to each file what waits for it.
  pub run_work-content :
      (f : Text) (list : MessageList)
      → IsSorted text_compare list
      → content f (run_work can_write list) ≡ concat (waiting f list)
  unfolding run_work lookup
  run_work-content f [] h = refl
  run_work-content f ((name, msgs) ∷ list) h = rw (there name) (
      content-append f (write_text name (concat msgs)) (run_work can_write list)
      ∙ ap₂ ◌++◌ (write_text-content f name (concat msgs)) (run_work-content f list h.1)
      ∙ by_order (text_compare f name) refl
      ∙ ap concat (sym (waiting-cons f name msgs list)))
    where
      by_order :
          (x : Ordering)
          → text_compare f name ≡ x
          → at_file x (concat msgs) ++ concat (waiting f list)
            ≡ concat (first_of x msgs (waiting f list))
      by_order Ordering.eq e =
          rw
            (absent f list
              (subst (λ k. Above text_compare k list) (sym (text_compare_eq f name e)) h.0))
            (append-nil (concat msgs))
      by_order Ordering.lt e = refl
      by_order Ordering.gt e = refl

-- A line that is added waits for its file, behind the others.
pub push_back-waiting :
    (f name s : Text) (list : MessageList)
    → concat (waiting f (push_back name s list))
      ≡ concat (waiting f list) ++ at_file (text_compare f name) s
unfolding push_back
push_back-waiting f name s list = by_order (text_compare f name) refl
  where
    others :
        text_compare f name ≢ Ordering.eq
        → concat (waiting f (push_back name s list)) ≡ concat (waiting f list) ++ []
    others ne =
        rw
          (
            waiting,
            lookup-insert_ne text_compare text_compare_eq f name (waiting name list ++ (s ∷ []))
                list ne,
          )
          (sym (append-nil (concat (waiting f list))))

    by_order :
        (x : Ordering)
        → text_compare f name ≡ x
        → concat (waiting f (push_back name s list)) ≡ concat (waiting f list) ++ at_file x s
    by_order Ordering.eq e =
        let same = text_compare_eq f name e in
        let own : waiting f (push_back name s list) ≡ waiting f list ++ (s ∷ []) =
          subst
            (λ k.
              waiting f (insert text_compare k (waiting k list ++ (s ∷ [])) list)
              ≡ waiting f list ++ (s ∷ []))
            same
            (rw
              (
                waiting,
                lookup-insert_self text_compare f (waiting f list ++ (s ∷ [])) list
                    (text_compare_refl f),
              )
              refl) in
        ap concat own
        ∙ concat-append (waiting f list) (s ∷ [])
        ∙ ap (λ t. concat (waiting f list) ++ t) (append-nil s)
    by_order Ordering.lt e = others (λ h. cc)
    by_order Ordering.gt e = others (λ h. cc)

pub push_back-IsSorted :
    (name s : Text) (list : MessageList)
    → IsSorted text_compare list
    → IsSorted text_compare (push_back name s list)
unfolding push_back
push_back-IsSorted name s list h =
    insert-IsSorted text_compare text_compare-IsOrder name (waiting name list ++ (s ∷ [])) list h
