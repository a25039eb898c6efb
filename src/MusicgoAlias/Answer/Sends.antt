-- ===== src/MusicgoAlias/Answer/Sends.antt =====
-- musicgo_alias/Parameters.cpp: what the client gets of a file.
use cproject.Base.{
  ℕ, ◌+◌, ◌<◌, ◌≤◌, ◌≡◌, sym, ap, ◌∙◌, subst, true, false, ◌==◌, ltb, some, List, ◌∷◌, length,
  arith, Outcome, done,
}
use cproject.Base.Int.{ℤ, pos}
use cproject.Base.Text.{Text}
use cproject.MusicgoAlias.Parse.{Parsed, sparse}
use cproject.MusicgoAlias.Sending.{Attempt}
use cproject.MusicgoAlias.Sending.Complete.{Smooth}
use cproject.MusicgoAlias.Segment.{Segment}
use cproject.MusicgoAlias.Reply.{Reply, System, ConfigInfo}
use cproject.MusicgoAlias.Answer.{
  sums_hold, segment_of, send_range, send_first, send_opened, answer_parsed, create_answer,
}
use cproject.MusicgoAlias.Answer.Range.{end_for, header_for, segment_of-bytes, send_range-Smooth}
use cproject.MusicgoAlias.Answer.Promise.{
  limit_for, header_of_range, promised, end_for-limit_for, header_for-header_of_range,
  served-promised, sums_hold-limit,
}

not_above : (n m : ℕ) → n ≤ m → ltb m n ≡ false
not_above n m le = ground arith

module _ (sys : System) (config : ConfigInfo) (received : Text) (p : Parsed) (n range_stop : ℕ)
    (ranges : List (ℤ × ℕ)) (bytes : List ℕ) (segment : Segment) (attempts : List Attempt)
    (parsed : sparse config.aliases received ≡ done p) (accepted : p.status ≡ 0)
    (named : (length p.file == 0) ≡ false) (first : p.request.ranges ≡ (pos n, range_stop) ∷ ranges)
    (exists : sys.exists p.file ≡ true) (opened : sys.opened p.file ≡ some bytes)
    (readable : (i : ℕ) → sys.unreadable i ≡ false)
    (found : segment_of sys config p.request bytes ≡ done segment)
    (at_start : segment.start + n < 2147483648)
    (at_end : limit_for range_stop bytes segment < 2147483648)
    (fits : length (header_of_range sys p.request n range_stop bytes segment) ≤ 1024) where
  answered_by :
      (answer : Outcome Reply)
      → send_range sys config p.request (pos n) range_stop bytes segment attempts ≡ answer
      → create_answer sys config received attempts ≡ answer
  unfolding create_answer answer_parsed send_opened send_first
  answered_by answer e =
      let sent : send_first sys config p.request ((pos n, range_stop) ∷ ranges) bytes attempts
          ≡ answer =
        rw found e in
      rw (parsed, accepted, named, exists, opened)
        (subst (λ rs. send_first sys config p.request rs bytes attempts ≡ answer) (sym first) sent)

  kept : segment.file.bytes ≡ bytes
  kept = segment_of-bytes sys config p.request bytes segment found

  same_end : end_for range_stop bytes segment ≡ limit_for range_stop bytes segment
  same_end = end_for-limit_for range_stop bytes segment

  holds : sums_hold segment.start (pos n) (end_for range_stop bytes segment) ≡ true
  holds =
      ap (sums_hold segment.start (pos n)) same_end
      ∙ sums_hold-limit segment.start n (limit_for range_stop bytes segment) at_start at_end

  small : ltb 2147483647 (end_for range_stop bytes segment) ≡ false
  small =
      ap (ltb 2147483647) same_end
      ∙ not_above (limit_for range_stop bytes segment) 2147483647 (omega (arith, at_end))

  short : ltb 1024 (length (header_for sys p.request (pos n) range_stop bytes segment)) ≡ false
  short =
      ap (λ t. ltb 1024 (length t))
        (header_for-header_of_range sys p.request n range_stop bytes segment)
      ∙ not_above _ 1024 fits

  -- On a socket that meets no error but EAGAIN, and not that for ever, all of the header and of the
  -- bytes is sent.
  pub create_answer-promised :
      Smooth attempts
      → create_answer sys config received attempts
        ≡ done (promised sys p.request n range_stop bytes segment)
  create_answer-promised smooth =
      answered_by (done (promised sys p.request n range_stop bytes segment)) (
        send_range-Smooth sys config p.request (pos n) range_stop bytes segment attempts kept holds
          short small readable smooth
        ∙ ap done (served-promised sys p.request n range_stop bytes segment kept))
