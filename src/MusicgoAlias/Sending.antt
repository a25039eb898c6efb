-- ===== src/MusicgoAlias/Sending.antt =====
-- musicgo_alias/Parameters.cpp: `bsend` on a socket. What the socket answers is a list of
-- attempts; behind the list it takes all that it is given.
pub mod Complete
use cproject.Base.{ℕ, Bool, true, false, List, [], ◌∷◌, ◌++◌, take, drop}

-- The answer to one call of `send`: EAGAIN, another error, EAGAIN for ever, or a number of bytes, at least one.
pub data Attempt : Type 0 where
  again failed blocked : Attempt
  takes : ℕ → Attempt

-- What a call leaves: whether it waits for ever, whether it answers true, the bytes that the client got, and the
-- attempts not made.
pub record Delivered : Type 0 where
  pub waits : Bool
  pub ok : Bool
  pub bytes : List ℕ
  pub left : List Attempt

-- `bsend`: nothing is sent where nothing is left of the buffer.
unfoldable pub bsend : List Attempt → List ℕ → Delivered
bsend [] buf = record { waits = false; ok = true; bytes = buf; left = [] }
bsend (a ∷ later) [] = record { waits = false; ok = true; bytes = []; left = a ∷ later }
bsend (again ∷ later) (b ∷ buf) = bsend later (b ∷ buf)
bsend (failed ∷ later) (b ∷ buf) = record { waits = false; ok = false; bytes = []; left = later }
bsend (blocked ∷ later) (b ∷ buf) = record {
  waits = true;
  ok = false;
  bytes = [];
  left = blocked ∷ later;
}
bsend (takes k ∷ later) (b ∷ buf) =
    let rest = bsend later (drop k buf) in record rest { bytes = b ∷ (take k buf ++ rest.bytes) }
