-- ===== src/Lib.antt =====
-- cproject: the programs of an internet radio. `rotator/` is a PHP extension that builds a playlist from
-- folders of tracks under rules of rotation; `accordion_V10.X/` streams playlists of mp3 and aac files;
-- `logger/` collects the messages of the streamers and mails them; `musicgo_alias/` serves parts
-- of files over HTTP.
-- The rotator's playlists are what the streamer plays; the programs share no other state.
--
-- Base holds what the parts share: Tests (Boolean tests and `Outcome`, the result of code that can
-- crash or run out of fuel), Lists, Int, Text (C strings as lists of codes, with `strcmp`, `strchr`
-- and `atoi`), Map (`std::map` as a list in the order of its keys) and Below (finite checks).
--
-- Rotator models rotator/rotator_ctrl.cpp, rotator/rotator_ctrl.h and rotator/obj_timer.h, function by
-- function, from `on_init` (the constructor) to `create_playlist`:
--   Zend       the PHP values and the engine's calls on hash tables: a record of operations that the
--              definitions take, with no law beside those that theorems name
--   Timer      `TTimer`; the clock is an argument
--   State      the fields of `TRotator_Ctrl` as the record `Ctrl`, and the structs
--   Rules      `search_rules`
--   History    the history and the verdict on one track (`find_record_in_history`)
--   Order      `search_order`, `search_schedule`, `create_schedule_order`
--   Folders    `search_folders`, `add_to_playlist`, `global_analize`
--   Playlist   `prepare`, `analise_folders_by_order`, `create_playlist`, `on_init`
-- State is passed on: a method of the class takes a `Ctrl` and returns it. The parts are called in the
-- order Rules, Folders, Order, History by `on_init`, and Folders, History, Order by `create_playlist`.
-- The children named Spacing, Init, Termination, Frame, Folder, Durations and RoundTrip hold the proofs.
--
-- Accordion models accordion_V10.X/mpx.cpp and accordion_V10.X/aac.cpp, the readers of mp3 and aac
-- files, over File (an open file as its bytes and a position, with `fread` and `fseek`):
--   Stream      the loop of `mpx_GetFrames` and `aac_GetFrames` over a `Format`, and the fields that they
--               use (`Player`); the two formats fill its law
--   Mpx/Frame   the mp3 header: `mpx_IsValidFrameHeader`, `mpx_GetFrameSize`
--   Mpx/Seek    `GetStartPos`, `mpx_SeekTo1Frame`
--   Mpx/Stream  `mpx_GetFrames`
--   Mpx/Info    `mpx_GetFileInfo`
--   Aac/Header  the aac header: `get_frame_length`, both `aac_IsValidFrameHeader`
--   Aac/Seek    `aac_SeekTo1Frame`
--   Aac/Stream  `aac_GetFrames`
--   Aac/Info    the search and the walk over the frames of `aac_GetFileInfo`
-- The children Bounds, Found, Copy, Returns, Termination and Walk hold the proofs.
--
-- Accordion/Playlist models accordion_V10.X/playlist.cpp, `TPlaylist`: its list with the iterator, and the
-- loops of `start` over what the files, the socket and the server answer (`Try`, `Track`). Queue is an
-- independent account of it as a queue of files; Position, Loop and Refine relate the two; Round applies it.
--
-- Accordion/Url models accordion_V10.X/url.cpp: `Parse` over iterators, and the request of `get_query`.
-- Accordion/Parameters models accordion_V10.X/parameters.cpp: the list that the server sends, read with
-- `sscanf` line by line, and how it comes to the streamer (the playlist that a `Track` finds fresh).
-- Accordion/Common models the text functions of accordion_V10.X/common.cpp, and `MakeDirectory`.
--
-- Logger/ErrorMonitor models logger/errormonitor.cpp: the domains as a map, `onAdd_error`,
-- `exceeded_reset_timeout` and the thread as a run over `Event`s, which yields the mails. Its children hold
-- the proofs.
--
-- Logger/Message, Client and Store model logger/tlogmsg.cpp, logger/clientmessage.cpp and logger/file.cpp:
-- the fields of a message, the list of the messages that wait with `AddMessage`, and what the store does
-- with the list. Logger/Daemon puts them together: the threads of the clients and the message thread as
-- steps in any order; the mutex makes each of them one step. The errors that `AddMessage` signals
-- (`trouble`) are the events of the error monitor.
--
-- Logger/Remote models logger/remotethread.cpp: the list that is passed on to another server.
--
-- MusicgoAlias models musicgo_alias/Parameters.cpp, mp3bitrate.cpp and aacbitrate.cpp, one request to its answer:
--   Memory     what a pointer into the received text points at, with `strtok`, `strstr` and `strtol`
--   Request    `get_file_data`
--   Parse      `sparse`: the lines of the request, its checks and the name of the file
--   Sending    `bsend` on a socket, whose answers are a list of attempts
--   Segment    `get_file_segment` of both formats, over the header tests of Accordion
--   Reply      what an answer consists of: its lines and numbers, `get_log_str`; files and clock as `System`
--   Answer     `create_answer` and `query_parameters`
-- The children of Parse, Sending, Answer and Segment beside these hold the proofs; Answer/Promise writes out what
-- an answer should be.
--
-- Numbers: `int` and `long` of the rotator are unbounded integers or natural numbers; its counts are
-- those of tracks and of seconds of one day. `char` is signed. Of a frame size the products stay below
-- 2^31, as the tables show. The counts of the logger, the streamer and MusicgoAlias are unbounded, too, but for
-- `(uint)` of an error, which is taken modulo 2^32; the buffers of a fixed size (in Url, Parameters
-- and MusicgoAlias, and that of the streamed frames) crash where they are too small. What `get_seconds`, the range
-- of a request and the sums of an answer compute is kept within `int`, with the overflow as a crash.
-- Fuel: `visit`, the walk through one folder, takes rounds of fuel, and two more than the folder has
-- tracks are enough. `passes`, the walk over the order, takes rounds of its own, that no bound is
-- given for. `count_frames` takes as many rounds as the file has bytes and one, which is enough; so
-- are they for `aac_count_frames` where no header states the length 0. `sparse` takes as many rounds
-- as there are bytes and one, and `send_file` as many as the file has bytes and one; both are enough.
-- The walk of MusicgoAlias/Segment/Aac takes as many as the file has bytes and one, which is enough
-- where no header that passes states the length 0. The other loops of the C++ code are recursions on a
-- list or on a count.
--
-- Not modelled: the binding to PHP, the walks of the rotator that nothing calls, opening and closing
-- files, the metadata of audio files, the figures of aac files and the pauses between files in floating
-- point, the sockets, ini files and threads themselves, the archives of a log file with the deletion of old
-- ones, and `create_answer1`. `read` may fail on the file that is sent, not while a segment is looked for.
-- Copies of libraries (inih, base64, msgpack) are not part of the model.
pub mod Accordion
pub mod Base
pub mod Logger
pub mod MusicgoAlias
pub mod Rotator
