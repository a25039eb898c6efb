-- ===== src/MusicgoAlias/Answer/Delete.antt =====
-- musicgo_alias/Parameters.cpp: what becomes of a request without an alias.
use cproject.Base.{
  ℕ, suc, ◌≡◌, refl, sym, ap, subst, ◌∙◌, not, ◌&&◌, ◌||◌, ◌==◌, ltb, if-both, Option, none, some,
  List, [], ◌∷◌, ◌++◌, length, arith, Outcome, done, crash, stuck, ◌>>=◌,
}
use cproject.Base.Int.{ℤ, pos, ◌+ℤ◌}
use cproject.Base.Text.{Text, codes, c_str}
use cproject.Base.Map.{is_some}
use cproject.Accordion.File.{File}
use cproject.MusicgoAlias.Request.{Request, unset, new_request}
use cproject.MusicgoAlias.Parse.{
  Parsed, parse_lines, check_request, sparse, or_literal, is_zero_int,
}
use cproject.MusicgoAlias.Sending.{Attempt, Delivered, bsend}
use cproject.MusicgoAlias.Segment.{Segment}
use cproject.MusicgoAlias.Reply.{Reply, System, ConfigInfo, refusal_line, refuse}
use cproject.MusicgoAlias.Answer.{
  chunk_size, sums_hold, seek_range, send_file, segment_of, send_range, send_first, send_opened,
  answer_parsed, create_answer, query_parameters,
}
use cproject.MusicgoAlias.Answer.Range.{end_for, header_for}

-- An outcome that is about the request `r`.
abbrev pub Asks : Request → Outcome Reply → Type 0
Asks r (done a) = a.request ≡ r
Asks r crash = Unit
Asks r stuck = Unit

>>=-Asks :
    {A : Type 0} (r : Request) (m : Outcome A) (f : A → Outcome Reply)
    → ((a : A) → Asks r (f a))
    → Asks r (m >>= f)
>>=-Asks r (done a) f h = h a
>>=-Asks r crash f h = tt
>>=-Asks r stuck f h = tt

refuse-Asks :
    (code : ℕ) (what : Text) (r : Request) (attempts : List Attempt)
    → Asks r (refuse code what r attempts)
unfolding refuse
refuse-Asks code what r attempts =
    if-both (Asks r) (ltb 1023 (length (refusal_line r.http what))) tt
      (if-both (Asks r) (bsend attempts (refusal_line r.http what)).waits tt refl)

module _ (sys : System) (config : ConfigInfo) where
  send_range-Asks :
      (r : Request) (begin : ℤ) (range_stop : ℕ) (bytes : List ℕ) (segment : Segment)
      (attempts : List Attempt)
      → Asks r (send_range sys config r begin range_stop bytes segment attempts)
  unfolding send_range
  send_range-Asks r begin range_stop bytes segment attempts =
      let end : ℕ = end_for range_stop bytes segment in
      let header : Text = header_for sys r begin range_stop bytes segment in
      let head : Delivered = bsend attempts header in
      let there : File = seek_range (pos segment.start +ℤ begin) segment.file in
      let sent = send_file sys.unreadable (suc (length bytes)) head.left end there in
      if-both (Asks r) (not (sums_hold segment.start begin end) || ltb chunk_size (length header))
        tt
        (if-both (Asks r) head.waits tt (
          if-both (Asks r) (not head.ok) refl
            (if-both (Asks r) (ltb 2147483647 end) tt (>>=-Asks r sent _ λ body. refl))))

  send_first-Asks :
      (r : Request) (ranges : List (ℤ × ℕ)) (bytes : List ℕ) (attempts : List Attempt)
      → Asks r (send_first sys config r ranges bytes attempts)
  unfolding send_first
  send_first-Asks r [] bytes attempts = tt
  send_first-Asks r ((begin, range_stop) ∷ ranges) bytes attempts =
      >>=-Asks r (segment_of sys config r bytes) _
        λ segment. send_range-Asks r begin range_stop bytes segment attempts

  send_opened-Asks :
      (r : Request) (o : Option (List ℕ)) (attempts : List Attempt)
      → Asks r (send_opened sys config r o attempts)
  unfolding send_opened
  send_opened-Asks r none attempts = refuse-Asks 403 (codes "403 Forbidden") r attempts
  send_opened-Asks r (some bytes) attempts = send_first-Asks r r.ranges bytes attempts

  answer_parsed-Asks :
      (p : Parsed) (attempts : List Attempt) → Asks p.request (answer_parsed sys config p attempts)
  unfolding answer_parsed
  answer_parsed-Asks p attempts =
      let r : Request = p.request in
      if-both (Asks r) (not (p.status == 0) || length p.file == 0)
        (refuse-Asks 405 (codes "405 Method Not Allowed") r attempts)
        (if-both (Asks r) (not (sys.exists p.file))
          (refuse-Asks 404 (codes "404 Not Found") r attempts)
          (send_opened-Asks r (sys.opened p.file) attempts))

-- A request that is not refused has an alias behind `sparse`: its own, or the literal.
check_request-alias :
    (aliases : List (Text × Text)) (r : Request)
    → (check_request aliases r).status ≡ 0
    → (check_request aliases r).request.alias ≡ or_literal r.alias
unfolding check_request
check_request-alias aliases r =
    let Named : Parsed → Type 0 = λ p. p.status ≡ 0 → p.request.alias ≡ or_literal r.alias in
    if-both Named (not r.is_aac && not r.is_mp3) (λ e. absurd (omega arith))
      (if-both Named (r.is_aac && (is_zero_int r.id || not (is_some r.module_name)))
        (λ e. absurd (omega arith))
        (if-both Named (r.is_mp3 && (not (is_some r.date) || not (is_some r.hash)))
          (λ e. absurd (omega arith)) (λ e. refl)))

Asks-done : (r : Request) (o : Outcome Reply) (a : Reply) → Asks r o → o ≡ done a → a.request ≡ r
Asks-done r o a asks e = subst (Asks r) e asks

answered-alias :
    (sys : System) (config : ConfigInfo) (received : Text) (attempts : List Attempt) (r : Request)
    (a : Reply)
    → let m = c_str received ++ (0 ∷ []) in
      parse_lines (suc (length m)) m new_request ≡ done r
      → (check_request config.aliases r).status ≡ 0
      → create_answer sys config received attempts ≡ done a
      → a.request.alias ≡ or_literal r.alias
unfolding create_answer sparse
answered-alias sys config received attempts r a read ok e =
    let p : Parsed = check_request config.aliases r in
    let answered : answer_parsed sys config p attempts ≡ done a =
      sym (
        ap
          (λ o. o >>= (λ r'. done (check_request config.aliases r')) >>= λ q.
            answer_parsed sys config q attempts)
          read)
      ∙ e in
    let same : a.request ≡ p.request =
      Asks-done p.request (answer_parsed sys config p attempts) a
        (answer_parsed-Asks sys config p attempts) answered in
    ap (λ (q : Request). q.alias) same ∙ check_request-alias config.aliases r ok

-- A request that states no alias and is not refused: once it is answered, the destructor frees the text of the
-- default alias, which was never allocated.
pub query_parameters-crash :
    (sys : System) (config : ConfigInfo) (ip request_time response_time received : Text)
    (attempts : List Attempt) (r : Request) (a : Reply)
    → let m = c_str received ++ (0 ∷ []) in
      parse_lines (suc (length m)) m new_request ≡ done r
      → r.alias ≡ unset
      → (check_request config.aliases r).status ≡ 0
      → create_answer sys config received attempts ≡ done a
      → query_parameters sys config ip request_time response_time received attempts ≡ crash
unfolding query_parameters
query_parameters-crash sys config ip request_time response_time received attempts r a read no_alias
      ok e =
    rw
      (
        e,
        answered-alias sys config received attempts r a read ok e ∙ ap (λ x. or_literal x) no_alias,
      )
      refl
