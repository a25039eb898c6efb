-- ===== src/Logger/Remote.antt =====
-- logger/remotethread.cpp: the messages that are passed on to another server. What is sent has the length of
-- the message, and memory for it is always found.
pub mod Loss
mod Examples
use cproject.Base.{
  ℕ, zero, suc, ◌+◌, ◌*◌, ◌/◌, Bool, true, false, not, ◌==◌, ltb, if◌then◌else◌, List, [], ◌∷◌,
  ◌++◌, length, drop,
}
use cproject.Base.Text.{Text}
use cproject.Logger.Client.{MessageList}

-- `msg_list` and `fl_local_exists`, the messages that the server took, and the local file, as the
-- messages in it; it is unlinked when they have been sent.
pub record Remote : Type 0 where
  pub msg_list : List Text
  pub local_exists : Bool
  pub delivered : List Text
  pub local_file : List Text

-- The loop of `append`: three quarters of the messages go where there are more than `memo`.
unfoldable pub append : ℕ → MessageList → List Text → List Text
append memo [] all = all
append memo ((name, msgs) ∷ list) all =
    let kept = if ltb memo (length all) then drop ((length all * 3) / 4) all else all in
    append memo list (kept ++ msgs)

-- What the server answers to one message: no connection, a failed send, or a send.
pub data Answer : Type 0 where
  unconnected unsent taken : Answer

-- The loop of `RunWork` from the answer `i` on: the messages that were taken, and `is_ok`.
unfoldable pub send_all : (ℕ → Answer) → ℕ → Bool → List Text → List Text × Bool
send_all answer i is_ok [] = ([], is_ok)
send_all answer i is_ok (m ∷ msgs) =
    let after_taken = send_all answer (suc i) true msgs in
    let after_unsent = send_all answer (suc i) false msgs in
    elim (answer i) [
      | unconnected ↦ ([], is_ok)
      | unsent ↦ after_unsent
      | taken ↦ (m ∷ after_taken.0, after_taken.1)
    ]

-- Behind the loop: the local file is unlinked, or all the messages are written to it.
unfoldable pub finish_transfer : Bool → Remote → Remote
finish_transfer is_ok r =
    if is_ok
    then record r { msg_list = []; local_file = if r.local_exists then [] else r.local_file }
    else record r { msg_list = []; local_file = r.local_file ++ r.msg_list }

-- `RunWork` behind `append`: `all` are the messages at hand.
unfoldable pub transfer : (ℕ → Answer) → List Text → Remote → Remote
unfolding send_all finish_transfer
transfer answer all r =
    let (sent, is_ok) = send_all answer 0 false all in
    if length all == 0
    then record r { msg_list = all }
    else finish_transfer is_ok (record r { msg_list = all; delivered = r.delivered ++ sent })

-- `RunWork`; without new messages `append` leaves the list alone.
unfoldable pub run_work : ℕ → (ℕ → Answer) → MessageList → Remote → Remote
unfolding append transfer
run_work memo answer list r =
    transfer answer (if length list == 0 then r.msg_list else append memo list r.msg_list) r
