-- ===== src/MusicgoAlias/Answer/Excess.antt =====
-- musicgo_alias/Parameters.cpp: the length that the header states, and the length of what is sent.
use cproject.Base.Text.{Text}
use cproject.MusicgoAlias.Segment.{Segment}
use cproject.MusicgoAlias.Reply.{Reply}
