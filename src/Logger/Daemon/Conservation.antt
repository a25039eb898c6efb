-- ===== src/Logger/Daemon/Conservation.antt =====
-- logger/clientmessage.cpp, logger/file.cpp: no message of a client is lost, doubled or put in another's
-- place, as long as no file is to be deleted.
use cproject.Base.{
  ℕ, ◌≡◌, refl, sym, ap, ◌∙◌, Bool, true, false, not, ◌&&◌, ◌==◌, if◌then◌else◌, List, [], ◌∷◌,
  ◌++◌, All, append_assoc, append-nil, if-related, ◌%◌,
}
use cproject.Base.Text.{Text, text_compare}
use cproject.Base.Map.{lookup}
use cproject.Base.Map.Sorted.{IsSorted}
use cproject.Logger.Message.{
  Data, Message, Command, ev_empty, ev_msg, ev_delete, ev_config, ev_exit, header_errors,
  parse_data, global_file_name,
}
use cproject.Logger.Client.{
  Settings, Signal, Client, waiting, line_for, add_event, add_message, handle_client, take_messages,
}
use cproject.Logger.Store.{concat, run_work}
use cproject.Logger.Daemon.{Daemon, Step, arrival, deletion, storing, step, run}
use cproject.Logger.Daemon.Content.{
  at_file, content, content-append, run_work-content, push_back-waiting, push_back-IsSorted,
}

-- What a message brings to a file.
abbrev pub line_at : Text → Settings → Message → Command → Text
line_at f s m ev_msg = at_file (text_compare f (global_file_name m)) (line_for s m)
line_at f s m ev = []

abbrev pub arrived : Text → Settings → Step → Text
arrived f s (arrival flags fields text) =
    let m = parse_data fields text in
    if flags % 4 == 0 && header_errors fields % 4 == 0 then line_at f s m m.event else []
arrived f s deletion = []
arrived f s storing = []

abbrev pub all_arrived : Text → Settings → List Step → Text
all_arrived f s [] = []
all_arrived f s (x ∷ steps) = arrived f s x ++ all_arrived f s steps

-- Not a command to delete, nor the signal of one.
abbrev is_delete : Command → Bool
is_delete ev_delete = true
is_delete ev = false

abbrev pub keeps : Step → Bool
keeps (arrival flags fields text) = not (is_delete (parse_data fields text).event)
keeps deletion = false
keeps storing = true

-- What a file holds, and what waits for it.
abbrev pub account : Text → Daemon → Text
account f d = content f d.written ++ concat (waiting f d.client.message_list)

abbrev pub IsReady : Client → Type 0
IsReady c = IsSorted text_compare c.message_list

-- A client's state behind one that brings `t` to the file `f`.
abbrev Brings : Text → Text → Client → Client → Type 0
Brings f t c c' =
    (concat (waiting f c'.message_list) ≡ concat (waiting f c.message_list) ++ t) × IsReady c'

no_line : (f : Text) (c : Client) → IsReady c → Brings f [] c c
no_line f c h = (sym (append-nil (concat (waiting f c.message_list))), h)

add_event-Brings :
    (f : Text) (s : Settings) (m : Message) (ev : Command) (c : Client)
    → is_delete ev ≡ false
    → IsReady c
    → Brings f (line_at f s m ev) c (add_event s m ev c).0
unfolding add_event
add_event-Brings f s m ev_msg c k h = (
  push_back-waiting f (global_file_name m) (line_for s m) c.message_list,
  push_back-IsSorted (global_file_name m) (line_for s m) c.message_list h,
)
add_event-Brings f s m ev_delete c k h = absurd (cc)
add_event-Brings f s m ev_config c k h = no_line f c h
add_event-Brings f s m ev_exit c k h = no_line f c h
add_event-Brings f s m ev_empty c k h = no_line f c h

not-true : (b : Bool) → not b ≡ true → b ≡ false
not-true true e = absurd (cc)
not-true false e = refl

handle_client-Brings :
    (f : Text) (s : Settings) (flags : ℕ) (fields : Data) (text : Text) (c : Client)
    → is_delete (parse_data fields text).event ≡ false
    → IsReady c
    → Brings f (arrived f s (arrival flags fields text)) c (handle_client s flags fields text c).0
unfolding handle_client add_message
handle_client-Brings f s flags fields text c k h =
    let m = parse_data fields text in
    if-related (λ (t : Text) (r : Client × List Signal). Brings f t c r.0)
      (flags % 4 == 0 && header_errors fields % 4 == 0) (λ _. add_event-Brings f s m m.event c k h)
      (λ _. no_line f c h)

module _ (s : Settings) (local : s.local ≡ true) (can_write : Text → Bool)
    (there : (name : Text) → can_write name ≡ true) where
  step-account :
      (f : Text) (x : Step) (d : Daemon)
      → keeps x ≡ true
      → IsReady d.client
      → (account f (step s can_write x d) ≡ account f d ++ arrived f s x)
        × IsReady (step s can_write x d).client
  unfolding step take_messages lookup
  step-account f (arrival flags fields text) d k h =
      let (e, ready) =
        handle_client-Brings f s flags fields text d.client
          (not-true (is_delete (parse_data fields text).event) k) h in
      (
        ap (λ t. content f d.written ++ t) e
            ∙ sym (append_assoc (content f d.written) (concat (waiting f d.client.message_list)) _),
        ready,
      )
  step-account f deletion d k h = absurd (cc)
  step-account f storing d k h = (
    ap (λ t. t ++ [])
        (ap
            (λ b.
              content f (d.written ++ (if b then run_work can_write d.client.message_list else [])))
            local
          ∙ content-append f d.written (run_work can_write d.client.message_list)
          ∙ ap (λ t. content f d.written ++ t)
              (run_work-content can_write there f d.client.message_list h)),
    tt,
  )

  -- With the local store, from a state in which the messages that wait stand in the order of their files, as
  -- long as no client asks for a deletion and every file can be written to: what was appended to the
  -- files, and behind it what waits, is, file by file, what it was and behind it the lines of the clients in the
  -- order of their arrival. Whenever the message thread runs, no line is left out, appended twice or out of
  -- turn. It does not say that a file keeps them: `Write` moves a file that is too long away, and deletes the
  -- oldest of those moved.
  pub run-account :
      (f : Text) (steps : List Step) (d : Daemon)
      → All (λ x. keeps x ≡ true) steps
      → IsReady d.client
      → account f (run s can_write steps d) ≡ account f d ++ all_arrived f s steps
  unfolding run
  run-account f [] d k h = sym (append-nil (account f d))
  run-account f (x ∷ steps) d k h =
      let (e, ready) = step-account f x d k.0 h in
      run-account f steps (step s can_write x d) k.1 ready
      ∙ ap (λ t. t ++ all_arrived f s steps) e
      ∙ append_assoc (account f d) (arrived f s x) (all_arrived f s steps)
