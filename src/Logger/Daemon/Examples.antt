-- ===== src/Logger/Daemon/Examples.antt =====
-- Messages of two clients, run through logger/clientmessage.cpp, and the theorems at them.
use cproject.Base.{ℕ, ◌≡◌, ◌↔◌, refl, Bool, true, none, List, [], ◌∷◌, ◌++◌}
use cproject.Base.Int.{pos}
use cproject.Base.Text.{Text, codes, text_compare, text_eq}
use cproject.Base.Map.{lookup, insert}
use cproject.Logger.Message.{
  Message, ev_empty, ev_msg, check_logger_data, header_errors, set_event, parse_data, slash,
  before_last, file_path, global_file_name,
}
use cproject.Logger.Client.{
  Settings, line_for, push_back, get_messagelist_size, ready_transmit, transmit_error, add_event,
  add_message, handle_client, take_messages,
}
use cproject.Logger.Store.{run_work, pieces, deletions}
use cproject.Logger.Daemon.{Daemon, Step, arrival, storing, deletion, step, run}
use cproject.Logger.Daemon.Conservation.{account, keeps, all_arrived, run-account}
use cproject.Logger.Daemon.Loss.{Has, deletion-takes_messages}
use cproject.Logger.Daemon.Deletion.{deletions-global_file_name}

abbrev settings : Settings
settings = record { max_store_list_size = 10; local = true; error_level = 0 }

abbrev idle : Daemon
idle = record {
  client = record { message_list = []; cmd = ev_empty };
  written = [];
  deleted = [];
  signals = [];
}

-- A message for the file `f` of the domain `d`.
abbrev sent : Text → Step
sent text =
    arrival 0
      ((codes "data_type", codes "logger")
        ∷ (codes "domain", codes "d")
        ∷ (codes "filename", codes "f")
        ∷ (codes "message", text)
        ∷ [])
      []

abbrev any_file : Text → Bool
any_file name = true

abbrev steps : List Step
steps =
    sent (codes "a")
    ∷ storing
    ∷ sent (codes "b")
    ∷ sent (codes "c")
    ∷ storing
    ∷ sent (codes "e")
    ∷ []

abbrev file : Text
file = codes "d/f"

account_test :
    account file (run settings any_file steps idle) ≡ 97 ∷ 10 ∷ 98 ∷ 10 ∷ 99 ∷ 10 ∷ 101 ∷ 10 ∷ []
unfolding run step handle_client header_errors check_logger_data parse_data set_event add_message
    add_event push_back ready_transmit transmit_error get_messagelist_size take_messages run_work
    file_path global_file_name before_last text_compare text_eq lookup insert
account_test = refl

kept : (c : ℕ) → keeps (sent (c ∷ [])) ≡ true
unfolding parse_data set_event lookup text_compare text_eq
kept c = refl

run-account_example :
    account file (run settings any_file steps idle)
    ≡ account file idle ++ all_arrived file settings steps
run-account_example =
    run-account settings refl any_file (λ name. refl) file steps idle
      (kept 97, (refl, (kept 98, (kept 99, (refl, (kept 101, tt)))))) tt

abbrev message : Message
message = record {
  domain = codes "d";
  filename = codes "a/f";
  msg = codes "text";
  error = pos 0;
  event = ev_msg;
  text = [];
}

-- The file of a directory is written to with the directory twice.
names_test : deletions (codes "d") (codes "a/f" ∷ []) ≡ codes "d/a/f" ∷ []
unfolding deletions pieces
names_test = refl

written_test : global_file_name message ≡ codes "d/a/a/f"
unfolding global_file_name file_path before_last
written_test = refl

deletions-global_file_name_example :
    (deletions message.domain (message.filename ∷ []) ≡ global_file_name message ∷ [])
    ↔ (before_last slash message.filename ≡ none)
deletions-global_file_name_example =
    deletions-global_file_name message 97 (47 ∷ 102 ∷ []) refl refl (refl, (refl, (refl, tt)))

line_test : line_for settings message ≡ 116 ∷ 101 ∷ 120 ∷ 116 ∷ 10 ∷ []
line_test = refl

deletion-takes_messages_example :
    let d' =
      step settings any_file deletion
        (record idle { client = (add_message settings message idle.client).0 }) in
    (d'.written ≡ [])
    × (d'.client.message_list ≡ [])
    × Has (global_file_name message ++ (slash ∷ 116 ∷ 101 ∷ 120 ∷ 116 ∷ 10 ∷ [])) d'.deleted
deletion-takes_messages_example =
    deletion-takes_messages settings any_file message idle 116 (101 ∷ 120 ∷ 116 ∷ 10 ∷ []) refl
      line_test refl (refl, (refl, (refl, (refl, (refl, tt)))))
