-- ===== src/Accordion/File.antt =====
-- The calls of <cstdio> on a file that is read: a list of bytes and a position. What is read or
-- skipped past the end is not there; a read shows fewer bytes then.
use cproject.Base.{ℕ, ◌+◌, List, length, take, drop}

pub record File : Type 0 where
  pub bytes : List ℕ
  pub pos : ℕ

-- What `fread(buf, 1, n, f)` puts into `buf`; its answer is the length.
unfoldable pub read : ℕ → File → List ℕ
read n f = take n (drop f.pos f.bytes)

-- The file behind that `fread`.
unfoldable pub after_read : ℕ → File → File
unfolding read
after_read n f = record f { pos = f.pos + length (read n f) }

-- `fseek(f, n, SEEK_SET)` and `fseek(f, n, SEEK_CUR)`
abbrev pub seek_set : ℕ → File → File
seek_set n f = record f { pos = n }

abbrev pub seek_cur : ℕ → File → File
seek_cur n f = record f { pos = f.pos + n }
