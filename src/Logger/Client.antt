-- ===== src/Logger/Client.antt =====
-- logger/clientmessage.cpp: `TClientMessage`, the messages that wait for their thread, and what a client's
-- message does to them. The mutex makes `AddMessage` and the taking of the list exclude each other.
use cproject.Base.{
  ℕ, ◌+◌, ◌-◌, ◌^◌, ◌%◌, Bool, ◌&&◌, ◌==◌, ltb, if◌then◌else◌, none, some, List, [], ◌∷◌, ◌++◌,
  length,
}
use cproject.Base.Int.{ℤ, pos, negsuc}
use cproject.Base.Text.{Text, text_compare}
use cproject.Base.Map.{lookup, insert}
use cproject.Logger.Message.{
  Data, Message, Command, ev_empty, ev_msg, ev_delete, ev_config, ev_exit, header_errors,
  parse_data, global_file_name, msg_line, text_line,
}

-- `Mmessagelist`
abbrev pub MessageList : Type 0
MessageList = List (Text × List Text)

-- What the constructor sets; `local` is `CategoryStore == LOCAL_STORE`.
pub record Settings : Type 0 where
  pub max_store_list_size : ℕ
  pub local : Bool
  pub error_level : ℕ

-- `message_list` and `m_cmd`
pub record Client : Type 0 where
  pub message_list : MessageList
  pub cmd : Command

-- What is queued for the other threads: the store is to run, files are to be deleted, an error is to be
-- counted, the process is to end.
pub data Signal : Type 0 where
  store : Signal
  delete : Signal
  trouble : ℕ → Text → Text → Signal
  terminate : Signal

abbrev pub waiting : Text → MessageList → List Text
waiting name list = elim (lookup text_compare name list) [ none ↦ [] | some msgs ↦ msgs ]

-- `message_list[name].push_back(s)`
unfoldable pub push_back : Text → Text → MessageList → MessageList
push_back name s list = insert text_compare name (waiting name list ++ (s ∷ [])) list

-- `get_messagelist_size`
unfoldable pub get_messagelist_size : MessageList → ℕ
get_messagelist_size [] = 0
get_messagelist_size ((name, msgs) ∷ list) = length msgs + get_messagelist_size list

-- `(uint)`, of an int
abbrev pub to_uint : ℤ → ℕ
to_uint (pos n) = n
to_uint (negsuc n) = 2 ^ 32 - 1 - n

-- `OnReadyTransmitMessage`
unfoldable pub ready_transmit : Settings → MessageList → List Signal
ready_transmit s list =
    if ltb (get_messagelist_size list) s.max_store_list_size then [] else store ∷ []

-- `OnTransmitError`, behind its test.
unfoldable pub transmit_error : Settings → Message → List Signal
transmit_error s m =
    if s.local && ltb 0 s.error_level && ltb s.error_level (to_uint m.error)
    then trouble (to_uint m.error) m.domain (text_line m) ∷ []
    else []

abbrev pub line_for : Settings → Message → Text
line_for s m = if s.local then msg_line m else text_line m

-- `AddMessage`, by the event.
unfoldable pub add_event : Settings → Message → Command → Client → Client × List Signal
unfolding push_back ready_transmit transmit_error
add_event s m ev_msg c =
    let list = push_back (global_file_name m) (line_for s m) c.message_list in
    (record { message_list = list; cmd = ev_empty }, ready_transmit s list ++ transmit_error s m)
add_event s m ev_delete c = (
  record { message_list = push_back m.domain m.filename c.message_list; cmd = ev_empty },
  delete ∷ [],
)
add_event s m ev_config c = (record c { cmd = ev_config }, [])
add_event s m ev_exit c = (record c { cmd = ev_empty }, terminate ∷ [])
add_event s m ev_empty c = (record c { cmd = ev_empty }, [])

unfoldable pub add_message : Settings → Message → Client → Client × List Signal
unfolding add_event
add_message s m c = add_event s m m.event c

-- `handler_client_thread`, behind the reading: `flags` are the errors of the reading. A message without a
-- domain or a file name is not added.
unfoldable pub handle_client : Settings → ℕ → Data → Text → Client → Client × List Signal
unfolding add_message
handle_client s flags d text c =
    if flags % 4 == 0 && header_errors d % 4 == 0
    then add_message s (parse_data d text) c
    else (c, [])

-- What the message thread takes; `ClearMessageList` leaves nothing.
unfoldable pub take_messages : Client → MessageList × Client
take_messages c = (c.message_list, record c { message_list = [] })
