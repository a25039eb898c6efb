-- ===== src/MusicgoAlias/Parse/Reading.antt =====
-- musicgo_alias/Parameters.cpp: the parameters of a request, as `get_file_data` reads them.
use cproject.Base.{
  ℕ, suc, ◌<◌, ◌≡◌, refl, ap, ◌∙◌, true, false, ◌||◌, ◌==◌, some, List, [], ◌∷◌, ◌++◌, length,
  length-append, All, All-append, append_assoc, arith, done,
}
use cproject.Base.Int.{pos}
use cproject.Base.Text.{Text, codes, c_str, text_eq, atoi, digits_value, is_digit}
use cproject.Rotator.Timer.{decimal}
use cproject.Rotator.Timer.RoundTrip.{
  decimal-IsDigit, digits_value-decimal, length-decimal, atoi_digits,
}
use cproject.MusicgoAlias.Memory.{Memory, among, until, token_at, tokens, strstr}
use cproject.MusicgoAlias.Request.{Request, field_of, set_field, set_found, set_all, marks}
use cproject.MusicgoAlias.Parse.{line_ends}
use cproject.MusicgoAlias.Parse.Pieces.{Free, c_str-Free, tokens-piece, tokens_behind}
use cproject.MusicgoAlias.Parse.Params.{
  Param, field, key, value, print, means, ends, ends-marks, ends-line_ends, Clean, field_of-print,
}

digits_value-end : (n e : ℕ) (t : Text) → is_digit e ≡ false → digits_value n (e ∷ t) ≡ n
unfolding digits_value
digits_value-end n e t end = rw end refl

-- A number that is printed is read, whatever stands behind its end.
pub atoi-decimal :
    (n e : ℕ) (t : Text) → is_digit e ≡ false → atoi (decimal (suc n) n ++ (e ∷ t)) ≡ pos n
atoi-decimal n e t end =
    atoi_digits (decimal (suc n) n) (e ∷ t) (length-decimal n n) (decimal-IsDigit (suc n) n)
    ∙ ap pos (digits_value-decimal (suc n) n (e ∷ t) (omega arith) ∙ digits_value-end n e t end)

set_field-print :
    (p : Param) (b : Memory) (r : Request)
    → Free marks (value p)
    → set_field (field p) (value p ++ (0 ∷ b)) r ≡ done (means p r)
unfolding set_field
set_field-print (Param.id n) b r h = rw (atoi-decimal n 0 b refl) refl
set_field-print (Param.module_name s) b r h = rw (c_str-Free marks s b h) refl
set_field-print (Param.date s) b r h = rw (c_str-Free marks s b h) refl
set_field-print (Param.hash s) b r h = rw (c_str-Free marks s b h) refl
set_field-print (Param.alias s) b r h = rw (c_str-Free marks s b h) refl
set_field-print (Param.token s) b r h = rw (c_str-Free marks s b h) refl
set_field-print (Param.login s) b r h = rw (c_str-Free marks s b h) refl
set_field-print (Param.password s) b r h = rw (c_str-Free marks s b h) refl

-- The parameters one behind the other, and the version of the protocol.
abbrev separator : List Param → ℕ
separator [] = 32
separator (p ∷ ps) = 38

abbrev pub print_all : List Param → Text
print_all [] = codes "HTTP/1.1"
print_all (p ∷ ps) = print p ++ (separator ps ∷ print_all ps)

abbrev pub all_mean : List Param → Request → Request
all_mean [] r = record r { http = some (codes "1.1") }
all_mean (p ∷ ps) r = all_mean ps (means p r)

separator_ends : (ps : List Param) → (separator ps == 0 || among marks (separator ps)) ≡ true
unfolding among
separator_ends [] = refl
separator_ends (p ∷ ps) = refl

behind_separator :
    (ps : List Param) (t : Memory) → tokens_behind (separator ps) t ≡ tokens marks false t
behind_separator [] t = refl
behind_separator (p ∷ ps) t = refl

key-Free : (p : Param) → Free ends (key p)
unfolding among
key-Free (Param.id n) = (refl, (refl, (refl, tt)))
key-Free (Param.module_name s) = (refl, (refl, (refl, (refl, (refl, (refl, (refl, tt)))))))
key-Free (Param.date s) = (refl, (refl, (refl, (refl, (refl, tt)))))
key-Free (Param.hash s) = (refl, (refl, (refl, (refl, (refl, tt)))))
key-Free (Param.alias s) = (refl, (refl, (refl, (refl, (refl, (refl, tt))))))
key-Free (Param.token s) = (refl, (refl, (refl, (refl, (refl, (refl, tt))))))
key-Free (Param.login s) = (refl, (refl, (refl, (refl, (refl, (refl, tt))))))
key-Free (Param.password s) =
    (refl, (refl, (refl, (refl, (refl, (refl, (refl, (refl, (refl, tt)))))))))

print-Free : (p : Param) → Clean p → Free ends (print p)
print-Free p clean =
    All-append (λ c. (c == 0 || among ends c) ≡ false) (key p) (value p) (key-Free p) clean.free

key_some : (p : Param) → 0 < length (key p)
key_some (Param.id n) = omega arith
key_some (Param.module_name s) = omega arith
key_some (Param.date s) = omega arith
key_some (Param.hash s) = omega arith
key_some (Param.alias s) = omega arith
key_some (Param.token s) = omega arith
key_some (Param.login s) = omega arith
key_some (Param.password s) = omega arith

-- The parameters are read one by one.
pub set_all-print_all :
    (ps : List Param) (b : Memory) (r : Request)
    → All Clean ps
    → set_all (tokens marks false (print_all ps ++ (0 ∷ b))) r ≡ done (all_mean ps r)
unfolding set_all tokens token_at until among field_of strstr text_eq set_found set_field c_str
set_all-print_all [] b r h = refl
set_all-print_all (p ∷ ps) b r (clean, h) =
    ap (λ m. set_all (tokens marks false m) r)
      (append_assoc (print p) (separator ps ∷ print_all ps) (0 ∷ b))
    ∙ ap (λ (ts : List Memory). set_all ts r)
        (tokens-piece (print p) rest (separator ps) free some_text (separator_ends ps)
          ∙ ap (λ (ts : List Memory). (print p ++ (0 ∷ rest)) ∷ ts) (behind_separator ps rest))
    ∙ rw
        (
          field_of-print p rest clean.no_equals,
          set_field-print p rest r (ends-marks (value p) clean.free),
        )
        (set_all-print_all ps b (means p r) h)
  where
    rest : Memory
    rest = print_all ps ++ (0 ∷ b)

    free : Free marks (print p)
    free = ends-marks (print p) (print-Free p clean)

    some_text : 0 < length (print p)
    some_text = omega (arith, key_some p, length-append (key p) (value p))

-- All of it stands on one line.
pub print_all-Free : (ps : List Param) → All Clean ps → Free line_ends (print_all ps)
unfolding among
print_all-Free [] h = (refl, (refl, (refl, (refl, (refl, (refl, (refl, (refl, tt))))))))
print_all-Free (p ∷ ps) (clean, h) =
    All-append (λ c. (c == 0 || among line_ends c) ≡ false) (print p) (separator ps ∷ print_all ps)
      (ends-line_ends (print p) (print-Free p clean)) (inline ps, print_all-Free ps h)
  where
    inline : (ps : List Param) → (separator ps == 0 || among line_ends (separator ps)) ≡ false
    inline [] = refl
    inline (q ∷ qs) = refl

means-ranges : (p : Param) (r : Request) → (means p r).ranges ≡ r.ranges
means-ranges (Param.id n) r = refl
means-ranges (Param.module_name s) r = refl
means-ranges (Param.date s) r = refl
means-ranges (Param.hash s) r = refl
means-ranges (Param.alias s) r = refl
means-ranges (Param.token s) r = refl
means-ranges (Param.login s) r = refl
means-ranges (Param.password s) r = refl

-- No parameter of the address states a range.
pub all_mean-ranges : (ps : List Param) (r : Request) → (all_mean ps r).ranges ≡ r.ranges
all_mean-ranges [] r = refl
all_mean-ranges (p ∷ ps) r = all_mean-ranges ps (means p r) ∙ means-ranges p r
