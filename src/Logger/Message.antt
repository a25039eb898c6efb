-- ===== src/Logger/Message.antt =====
-- logger/tlogmsg.cpp and logger/tlogmsg.h: `TLogMsg`, one message of a client as the map of its fields.
use cproject.Base.{
  ℕ, ◌+◌, ◌-◌, Bool, not, ◌&&◌, ◌==◌, leb, if◌then◌else◌, Option, none, some, List, [], ◌∷◌, ◌++◌,
  map,
}
use cproject.Base.Int.{ℤ}
use cproject.Base.Text.{Text, codes, text_compare, text_eq, atoi}
use cproject.Base.Map.{lookup, is_some}

-- `tdata_map`: the fields as they were sent.
abbrev pub Data : Type 0
Data = List (Text × Text)

-- `tcEvent`, as far as a message has one.
pub data Command : Type 0 where
  ev_empty ev_msg ev_delete ev_config ev_exit : Command

-- The fields of `TLogMsg` behind `ParseData`; `text` is `m_string`, the message as it was received.
pub record Message : Type 0 where
  pub domain : Text
  pub filename : Text
  pub msg : Text
  pub error : ℤ
  pub event : Command
  pub text : Text

abbrev pub slash : ℕ
slash = 47

-- `MARKER_END`
abbrev pub marker_end : Text
marker_end = 10 ∷ []

abbrev has : Text → Data → Bool
has key d = is_some (lookup text_compare key d)

-- `CheckLoggerData`: the errors as the bits of a number, 1 for the domain, 2 for the file name, 4 for the
-- message and 8 for the command.
unfoldable pub check_logger_data : Data → ℕ
check_logger_data d =
    let domain = if has (codes "domain") d then 0 else 1 in
    let filename = if has (codes "filename") d then 0 else 2 in
    if not (has (codes "message") d) && not (has (codes "command") d)
    then 12
    else if has (codes "message") d
    then domain + filename
    else 0

-- The constructor's `m_ErrorHeadersValue`: 15 without fields, 32 without a type.
unfoldable pub header_errors : Data → ℕ
unfolding check_logger_data
header_errors [] = 15
header_errors (f ∷ d) = elim (lookup text_compare (codes "data_type") (f ∷ d)) [
  | none ↦ 32
  | some s ↦ if text_eq s (codes "logger") then check_logger_data (f ∷ d) else 0
]

abbrev field : Text → Data → Text
field key d = elim (lookup text_compare key d) [ none ↦ [] | some s ↦ s ]

-- `toupper` of ASCII
abbrev upper : ℕ → ℕ
upper c = if leb 97 c && leb c 122 then c - 32 else c

-- `SetEvent`
unfoldable pub set_event : Text → Command
set_event cmd =
    let ev = map upper cmd in
    if text_eq ev []
    then ev_msg
    else if text_eq ev (codes "DELETE")
    then ev_delete
    else if text_eq ev (codes "RECONFIG")
    then ev_config
    else if text_eq ev (codes "EXIT")
    then ev_exit
    else ev_empty

-- `ParseData`
unfoldable pub parse_data : Data → Text → Message
unfolding set_event
parse_data d text = record {
  domain = field (codes "domain") d;
  filename = field (codes "filename") d;
  msg = field (codes "message") d;
  error = atoi (field (codes "error") d);
  event = set_event (field (codes "command") d);
  text = text;
}

-- `s.substr(0, s.find_last_of(c))`; none is `npos`.
unfoldable pub before_last : ℕ → Text → Option Text
before_last c [] = none
before_last c (x ∷ s) = elim (before_last c s) [
  | some p ↦ some (x ∷ p)
  | none ↦ if x == c then some [] else none
]

-- A delimiter at the front is left out; the one in front is the first of the file name, too.
abbrev pub without_first : Text → Text
without_first [] = []
without_first (x ∷ s) = if x == slash then s else x ∷ s

abbrev pub ended : Text → Text
ended [] = []
ended (x ∷ s) = (x ∷ s) ++ (slash ∷ [])

-- The directories of a file name, with a delimiter at the end.
abbrev pub directories : Option Text → Text
directories none = []
directories (some p) = ended (without_first p)

-- `FilePath`
unfoldable pub file_path : Message → Text
unfolding before_last
file_path m = m.domain ++ (slash ∷ directories (before_last slash m.filename))

-- `GlobalFileName`; `filename()` is the whole `m_filename`.
unfoldable pub global_file_name : Message → Text
unfolding file_path
global_file_name m = file_path m ++ m.filename

-- `msg()` and `Message()`
abbrev pub msg_line : Message → Text
msg_line m = m.msg ++ marker_end

abbrev pub text_line : Message → Text
text_line m = m.text ++ marker_end
