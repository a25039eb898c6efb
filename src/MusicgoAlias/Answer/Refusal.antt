-- ===== src/MusicgoAlias/Answer/Refusal.antt =====
-- musicgo_alias/Parameters.cpp: the answers without a file.
use cproject.Base.{
  ℕ, ◌+◌, ◌<◌, ◌≡◌, ◌↔◌, refl, Bool, true, false, ◌==◌, ltb, if◌then◌else◌, Option, List, [], ◌∷◌,
  ◌++◌, length, length-append, arith, done, crash, stuck,
}
use cproject.Base.Text.{Text, codes}
use cproject.MusicgoAlias.Request.{Request}
use cproject.MusicgoAlias.Parse.{Parsed, sparse, text_of}
use cproject.MusicgoAlias.Sending.{Attempt, bsend}
use cproject.MusicgoAlias.Reply.{System, ConfigInfo, refusal_line, refuse}
use cproject.MusicgoAlias.Answer.{answer_parsed, create_answer}

refusal_line-length :
    (http : Option Text) (what : Text)
    → length (refusal_line http what) ≡ length (text_of http) + length what + 8
refusal_line-length http what = omega (
  arith,
  length-append (text_of http) (32 ∷ (what ++ (10 ∷ 10 ∷ []))),
  length-append what (10 ∷ 10 ∷ []),
)

if_crash :
    {A : Type 0} (b c : Bool) (x : A)
    → ((if b then crash else if c then stuck else done x) ≡ crash) ↔ (b ≡ true)
if_crash true c x = (λ e. refl, λ e. refl)
if_crash false true x = (λ e. cc, λ e. cc)
if_crash false false x = (λ e. cc, λ e. cc)

ltb_iff : (a b c : ℕ) → b ≡ c → (ltb a b ≡ true) ↔ (a < c)
ltb_iff a b c e = (λ t. ground arith, λ lt. ground arith)

refuse-crash :
    (code : ℕ) (what : Text) (r : Request) (attempts : List Attempt)
    → (refuse code what r attempts ≡ crash) ↔ (1023 < length (text_of r.http) + length what + 8)
unfolding refuse
refuse-crash code what r attempts =
    let test =
      if_crash (ltb 1023 (length (refusal_line r.http what)))
        (bsend attempts (refusal_line r.http what)).waits _ in
    let bound =
      ltb_iff 1023 (length (refusal_line r.http what)) (length (text_of r.http) + length what + 8)
        (refusal_line-length r.http what) in
    (λ e. bound.0 (test.0 e), λ lt. test.1 (bound.1 lt))

-- A request that `sparse` refuses is answered 405 without a crash if, and only if, the version of the protocol
-- that it states has at most 993 bytes.
pub create_answer-crash :
    (sys : System) (config : ConfigInfo) (received : Text) (p : Parsed) (attempts : List Attempt)
    → sparse config.aliases received ≡ done p
    → (p.status == 0) ≡ false
    → (create_answer sys config received attempts ≡ crash) ↔ (993 < length (text_of p.request.http))
unfolding create_answer answer_parsed
create_answer-crash sys config received p attempts parsed refused =
    let bound = refuse-crash 405 (codes "405 Method Not Allowed") p.request attempts in
    rw (parsed, refused) (λ e. wide.0 (bound.0 e), λ lt. bound.1 (wide.1 lt))
  where
    wide : {h : ℕ} → (1023 < h + 22 + 8) ↔ (993 < h)
    wide = (λ lt. omega arith, λ lt. omega arith)
