-- ===== src/MusicgoAlias/Parse/Examples.antt =====
-- A request that is written out of its parameters.
use cproject.Base.{
  ℕ, ◌<◌, ◌≡◌, ◌≢◌, refl, Bool, true, false, not, ◌&&◌, ◌||◌, ◌==◌, List, [], ◌∷◌, All, done, stuck,
  arith,
}
use cproject.Base.Text.{Text, codes, text_compare}
use cproject.Base.Map.{lookup}
use cproject.Rotator.Timer.{decimal}
use cproject.MusicgoAlias.Memory.{among}
use cproject.MusicgoAlias.Parse.{sparse, check_request, file_name_of}
use cproject.MusicgoAlias.Parse.Params.{Param, value, number, Clean, ends}
use cproject.MusicgoAlias.Parse.Termination.{sparse-ne-stuck}
use cproject.MusicgoAlias.Parse.RoundTrip.{request_text, described, sparse-request_text}

abbrev aliases : List (Text × Text)
aliases = (codes "a", codes "/m/") ∷ []

abbrev key : Text
key = codes "0123456789abcdef0123456789abcdef"

-- To check a text byte by byte.
abbrev no_byte : (ℕ → Bool) → Text → Bool
no_byte test [] = true
no_byte test (c ∷ s) = not (test c) && no_byte test s

no_byte-All : (test : ℕ → Bool) (s : Text) → no_byte test s ≡ true → All (λ c. test c ≡ false) s
no_byte-All test [] e = tt
no_byte-All test (c ∷ s) e = both (test c) e (no_byte-All test s)
  where
    both :
        (b : Bool)
        → (not b && no_byte test s) ≡ true
        → (no_byte test s ≡ true → All (λ x. test x ≡ false) s)
        → (b ≡ false) × All (λ x. test x ≡ false) s
    both true k h = cc
    both false k h = (refl, h k)

value-Clean :
    (p : Param)
    → no_byte (λ c. c == 0 || among ends c) (value p) ≡ true
    → no_byte (λ c. c == 61) (value p) ≡ true
    → number p < 2147483648
    → Clean p
value-Clean p free no_equals in_int = record {
  free = no_byte-All (λ c. c == 0 || among ends c) (value p) free;
  no_equals = no_byte-All (λ c. c == 61) (value p) no_equals;
  in_int = in_int;
}

abbrev params : List Param
params =
    Param.id 20007 ∷ Param.module_name (codes "m") ∷ Param.token key ∷ Param.alias (codes "a") ∷ []

params-Clean : All Clean params
unfolding among decimal
params-Clean = (
  value-Clean (Param.id 20007) refl refl (omega arith),
  (
    value-Clean (Param.module_name (codes "m")) refl refl (omega arith),
    (
      value-Clean (Param.token key) refl refl (omega arith),
      (value-Clean (Param.alias (codes "a")) refl refl (omega arith), tt),
    ),
  ),
)

-- The file that is asked for.
described_file : (check_request aliases (described params 2 3)).file ≡ codes "/m/m/2/20007.aac"
unfolding check_request file_name_of lookup text_compare decimal
described_file = refl

sparse-request_text_example :
    sparse aliases (request_text params 2 3) ≡ done (check_request aliases (described params 2 3))
sparse-request_text_example =
    sparse-request_text aliases params 2 3 params-Clean (omega arith) (omega arith)

sparse-ne-stuck_example : sparse aliases (request_text params 2 3) ≢ stuck
sparse-ne-stuck_example = sparse-ne-stuck aliases (request_text params 2 3)
