-- ===== src/Logger/Daemon.antt =====
-- logger/clientmessage.cpp: `handler_message_thread` and the threads of the clients as steps that exclude
-- each other, each at any time: the message thread also wakes without a signal, every minute.
pub mod Content
pub mod Conservation
pub mod Deletion
pub mod Loss
mod Examples
use cproject.Base.{ℕ, Bool, if◌then◌else◌, List, [], ◌∷◌, ◌++◌}
use cproject.Base.Text.{Text}
use cproject.Logger.Message.{Data, Command, ev_delete, ev_empty, ev_msg, ev_config, ev_exit}
use cproject.Logger.Client.{Settings, Client, Signal, handle_client, take_messages}
use cproject.Logger.Store.{run_work, try_to_delete_file}

-- The clients' state; the texts that were appended to files, the files that were deleted, and the signals
-- that were sent, each in their order. A file
-- counts with its archives as one.
pub record Daemon : Type 0 where
  pub client : Client
  pub written : List (Text × Text)
  pub deleted : List Text
  pub signals : List Signal

-- A client's message, with the errors of its reading; the message thread with the signal of a deletion; and
-- with any other one that it takes, or without one.
pub data Step : Type 0 where
  arrival : ℕ → Data → Text → Step
  deletion : Step
  storing : Step

module _ (s : Settings) (can_write : Text → Bool) where
  unfoldable pub step : Step → Daemon → Daemon
  step (arrival flags fields text) d =
      let (c, sent) = handle_client s flags fields text d.client in
      record d { client = c; signals = d.signals ++ sent }
  step deletion d =
      let (list, c) = take_messages d.client in
      record d { client = c; deleted = d.deleted ++ try_to_delete_file list }
  step storing d =
      let (list, c) = take_messages d.client in
      record d {
        client = c;
        written = d.written ++ (if s.local then run_work can_write list else []);
      }

  unfoldable pub run : List Step → Daemon → Daemon
  run [] d = d
  run (x ∷ steps) d = run steps (step x d)
