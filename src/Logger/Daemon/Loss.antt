-- ===== src/Logger/Daemon/Loss.antt =====
-- logger/clientmessage.cpp, logger/file.cpp: what the signal of a deletion does to the messages that wait.
use Prim.Native.Nat.{Ordering}
use cproject.Base.{
  ℕ, ◌≡◌, refl, sym, ap, subst, ◌∙◌, Bool, false, ◌==◌, some, List, [], ◌∷◌, ◌++◌, All,
  append_assoc,
}
use cproject.Base.Text.{Text, text_compare, text_compare_eq, text_compare_refl}
use cproject.Base.Map.{lookup}
use cproject.Base.Map.Laws.{lookup-insert_self}
use cproject.Logger.Message.{Message, ev_msg, slash, global_file_name}
use cproject.Logger.Client.{
  Settings, MessageList, waiting, push_back, line_for, add_event, add_message, take_messages,
}
use cproject.Logger.Store.{semicolon, pieces, files_of, deletions, try_to_delete_file}
use cproject.Logger.Daemon.{Daemon, deletion, step}
use cproject.Logger.Daemon.Deletion.{pieces_one}

-- A list has `x` in it.
abbrev pub Has : Text → List Text → Type 0
Has x xs = (before : List Text) × (after : List Text) × (xs ≡ before ++ (x ∷ after))

Has-left : (x : Text) (xs ys : List Text) → Has x xs → Has x (xs ++ ys)
Has-left x xs ys (before, after, e) =
    (before, after ++ ys, ap (λ zs. zs ++ ys) e ∙ append_assoc before (x ∷ after) ys)

Has-right : (x : Text) (xs ys : List Text) → Has x ys → Has x (xs ++ ys)
Has-right x xs ys (before, after, e) =
    (xs ++ before, after, ap (λ zs. xs ++ zs) e ∙ sym (append_assoc xs before (x ∷ after)))

deletions-Has :
    (x domain : Text) (xs ys : List Text)
    → Has x (deletions domain ys)
    → Has x (deletions domain (xs ++ ys))
unfolding deletions
deletions-Has x domain [] ys h = h
deletions-Has x domain (s ∷ xs) ys h =
    Has-right x (files_of domain (pieces s)) (deletions domain (xs ++ ys))
      (deletions-Has x domain xs ys h)

-- What is deleted for one domain is deleted for the list.
try_to_delete_file-Has :
    (x domain : Text) (msgs : List Text) (list : MessageList)
    → lookup text_compare domain list ≡ some msgs
    → Has x (deletions domain msgs)
    → Has x (try_to_delete_file list)
unfolding try_to_delete_file lookup
try_to_delete_file-Has x domain msgs [] e h = absurd (cc)
try_to_delete_file-Has x domain msgs ((name, ms) ∷ list) e h =
    by_order (λ f. try_to_delete_file-Has x domain msgs list f h) (text_compare domain name) refl e
  where
    some-injective : (a b : List Text) → some a ≡ some b → a ≡ b
    some-injective a b e = cc

    by_order :
        (lookup text_compare domain list ≡ some msgs → Has x (try_to_delete_file list))
        → (o : Ordering) → text_compare domain name ≡ o
        → (elim o [ Ordering.eq ↦ some ms | _ ↦ lookup text_compare domain list ]) ≡ some msgs
        → Has x (deletions name ms ++ try_to_delete_file list)
    by_order later Ordering.eq same found =
        Has-left x (deletions name ms) (try_to_delete_file list) (
          subst (λ k. Has x (deletions k ms)) (text_compare_eq domain name same)
            (subst (λ l. Has x (deletions domain l)) (sym (some-injective ms msgs found)) h))
    by_order later Ordering.lt same found =
        Has-right x (deletions name ms) (try_to_delete_file list) (later found)
    by_order later Ordering.gt same found =
        Has-right x (deletions name ms) (try_to_delete_file list) (later found)

-- A line without a semicolon, that no delimiter begins, is a file of its domain.
line-Has :
    (domain : Text) (c : ℕ) (s : Text)
    → (c == slash) ≡ false
    → All (λ b. (b == semicolon) ≡ false) (c ∷ s)
    → Has (domain ++ (slash ∷ c ∷ s)) (deletions domain ((c ∷ s) ∷ []))
unfolding deletions
line-Has domain c s h all = ([], [], rw (pieces_one (c ∷ s) all, h) refl)

push_back-Has :
    (name : Text) (c : ℕ) (s : Text) (list : MessageList)
    → (c == slash) ≡ false
    → All (λ b. (b == semicolon) ≡ false) (c ∷ s)
    → Has (name ++ (slash ∷ c ∷ s)) (try_to_delete_file (push_back name (c ∷ s) list))
unfolding push_back
push_back-Has name c s list h all =
    try_to_delete_file-Has (name ++ (slash ∷ c ∷ s)) name (waiting name list ++ ((c ∷ s) ∷ []))
      (push_back name (c ∷ s) list)
      (lookup-insert_self text_compare name (waiting name list ++ ((c ∷ s) ∷ [])) list
        (text_compare_refl name))
      (deletions-Has (name ++ (slash ∷ c ∷ s)) name (waiting name list) ((c ∷ s) ∷ [])
        (line-Has name c s h all))

-- Where the signal of a deletion follows a message, the message is written nowhere and waits no more.
-- Where its line has no semicolon and no delimiter at its start, it is taken as the name of a file below
-- the message's own file name, which is deleted.
pub deletion-takes_messages :
    (set : Settings) (can_write : Text → Bool) (m : Message) (d : Daemon) (c : ℕ) (s : Text)
    → m.event ≡ ev_msg
    → line_for set m ≡ c ∷ s
    → (c == slash) ≡ false
    → All (λ b. (b == semicolon) ≡ false) (c ∷ s)
    → let d' = step set can_write deletion (record d { client = (add_message set m d.client).0 }) in
      (d'.written ≡ d.written)
      × (d'.client.message_list ≡ [])
      × Has (global_file_name m ++ (slash ∷ c ∷ s)) d'.deleted
unfolding step take_messages add_message
deletion-takes_messages set can_write m d c s is_msg line h all = (
  refl,
  refl,
  Has-right (global_file_name m ++ (slash ∷ c ∷ s)) d.deleted
      (try_to_delete_file (add_event set m m.event d.client).0.message_list)
      (subst
        (λ ev.
          Has (global_file_name m ++ (slash ∷ c ∷ s))
            (try_to_delete_file (add_event set m ev d.client).0.message_list))
        (sym is_msg)
        (unfold add_event in
          subst
            (λ t.
              Has (global_file_name m ++ (slash ∷ c ∷ s))
                (try_to_delete_file (push_back (global_file_name m) t d.client.message_list)))
            (sym line) (push_back-Has (global_file_name m) c s d.client.message_list h all))),
)
