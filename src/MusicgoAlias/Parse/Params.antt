-- ===== src/MusicgoAlias/Parse/Params.antt =====
-- musicgo_alias/Parameters.cpp: the parameters of a request, and the keys that `get_file_data` finds in them.
use cproject.Base.{
  ℕ, suc, ◌<◌, ◌≡◌, refl, sym, ap, ◌∙◌, true, false, ◌||◌, ◌==◌, ltb, if◌then◌else◌, Option, none,
  some, List, [], ◌∷◌, ◌++◌, length, take, drop, All, All-take, arith,
}
use cproject.Base.Int.{pos}
use cproject.Base.Text.{Text, codes, text_eq}
use cproject.Rotator.Timer.{decimal}
use cproject.MusicgoAlias.Memory.{Memory, among, strstr}
use cproject.MusicgoAlias.Request.{
  Request, Field, copied, fields, field_of, token_size, unescape_slash, marks,
}
use cproject.MusicgoAlias.Parse.{line_ends}
use cproject.MusicgoAlias.Parse.Pieces.{Free, has, strstr-none}

-- A parameter and its value.
pub data Param : Type 0 where
  id : ℕ → Param
  module_name date hash alias token login password : Text → Param

abbrev pub field : Param → Field
field (Param.id n) = Field.id
field (Param.module_name s) = Field.module_name
field (Param.date s) = Field.date
field (Param.hash s) = Field.hash
field (Param.alias s) = Field.alias
field (Param.token s) = Field.token
field (Param.login s) = Field.login
field (Param.password s) = Field.password

abbrev pub key : Param → Text
key (Param.id n) = codes "id="
key (Param.module_name s) = codes "module="
key (Param.date s) = codes "date="
key (Param.hash s) = codes "hash="
key (Param.alias s) = codes "alias="
key (Param.token s) = codes "token="
key (Param.login s) = codes "login="
key (Param.password s) = codes "password="

abbrev pub value : Param → Text
value (Param.id n) = decimal (suc n) n
value (Param.module_name s) = s
value (Param.date s) = s
value (Param.hash s) = s
value (Param.alias s) = s
value (Param.token s) = s
value (Param.login s) = s
value (Param.password s) = s

abbrev pub print : Param → Text
print p = key p ++ value p

-- What a parameter means for the request.
abbrev pub means : Param → Request → Request
means (Param.id n) r = record r { id = pos n; is_aac = true }
means (Param.module_name s) r = record r { module_name = some s }
means (Param.date s) r = record r { date = some (unescape_slash s); is_mp3 = true }
means (Param.hash s) r = record r { hash = some s }
means (Param.alias s) r = record r { alias = copied s }
means (Param.token s) r = record r { token = if ltb (length s) token_size then none else some s }
means (Param.login s) r = record r { username = some s }
means (Param.password s) r = record r { userpass = some s }

-- What ends a piece or a line.
abbrev pub ends : Text
ends = 32 ∷ 63 ∷ 38 ∷ 13 ∷ 10 ∷ []

ends_facts :
    (c : ℕ)
    → (c == 0 || among ends c) ≡ false
    → ((c == 0 || among marks c) ≡ false) × ((c == 0 || among line_ends c) ≡ false)
unfolding among
ends_facts c h = (ground arith, ground arith)

pub ends-marks : (s : Text) → Free ends s → Free marks s
ends-marks [] h = tt
ends-marks (c ∷ s) h = ((ends_facts c h.0).0, ends-marks s h.1)

pub ends-line_ends : (s : Text) → Free ends s → Free line_ends s
ends-line_ends [] h = tt
ends-line_ends (c ∷ s) h = ((ends_facts c h.0).1, ends-line_ends s h.1)

-- The number of a parameter that has one.
abbrev pub number : Param → ℕ
number (Param.id n) = n
number p = 0

-- Neither the end of a piece or of a line nor the equals sign stands in the value, and an `int` holds
-- the number.
pub record Clean (p : Param) : Type 0 where
  pub free : Free ends (value p)
  pub no_equals : All (λ c. (c == 61) ≡ false) (value p)
  pub in_int : number p < 2147483648

abbrev pub Lacks : ℕ → Text → Type 0
Lacks e s = All (λ c. (c == e) ≡ false) s

-- None of the keys of the list is found.
abbrev pub NoneOf : Memory → List (Text × Field) → Type 0
NoneOf m fs = All (λ (f : Text × Field). strstr m f.0 ≡ none) fs

field_of-skips :
    (before fs : List (Text × Field)) (m : Memory)
    → NoneOf m before
    → field_of (before ++ fs) m ≡ field_of fs m
unfolding field_of
field_of-skips [] fs m h = refl
field_of-skips ((k, f) ∷ before) fs m h = rw (h.0, field_of) (field_of-skips before fs m h.1)

-- No key stands in a text without an equals sign; the last one has none.
no_keys : (s behind : Text) → Lacks 61 s → NoneOf (s ++ (0 ∷ behind)) (take 10 fields)
no_keys s behind h =
    let gone : (k : Text) → has 61 k ≡ true → strstr (s ++ (0 ∷ behind)) k ≡ none =
      λ k e. strstr-none 61 k s behind e h refl in
    (
      gone (codes "token=") refl,
      (
        gone (codes "start=") refl,
        (
          gone (codes "id=") refl,
          (
            gone (codes "module=") refl,
            (
              gone (codes "date=") refl,
              (
                gone (codes "hash=") refl,
                (
                  gone (codes "bytes=") refl,
                  (
                    gone (codes "alias=") refl,
                    (gone (codes "login=") refl, (gone (codes "password=") refl, tt)),
                  ),
                ),
              ),
            ),
          ),
        ),
      ),
    )

-- Where the keys before the `n`th are not found.
pub from_key :
    (n : ℕ) (m : Memory) (x : Option (Field × Memory))
    → NoneOf m (take n fields)
    → take n fields ++ drop n fields ≡ fields
    → field_of (drop n fields) m ≡ x
    → field_of fields m ≡ x
from_key n m x h whole e =
    ap (λ fs. field_of fs m) (sym whole) ∙ field_of-skips (take n fields) (drop n fields) m h ∙ e

-- None of the first `n` keys is found in a value.
pub no_keys_before :
    (n : ℕ) (s b : Memory) → Lacks 61 s → NoneOf (s ++ (0 ∷ b)) (take n (take 10 fields))
no_keys_before n s b h =
    All-take (λ (f : Text × Field). strstr (s ++ (0 ∷ b)) f.0 ≡ none) n (take 10 fields)
      (no_keys s b h)

-- Its key is found in a parameter, and no key that is looked for before.
pub field_of-print :
    (p : Param) (b : Memory)
    → Lacks 61 (value p)
    → field_of fields (print p ++ (0 ∷ b)) ≡ some (field p, value p ++ (0 ∷ b))
unfolding field_of strstr text_eq
field_of-print (Param.token s) b h = refl
field_of-print (Param.id n) b h =
    from_key 2 (print (Param.id n) ++ (0 ∷ b)) _ (no_keys_before 2 (decimal (suc n) n) b h) refl
      refl
field_of-print (Param.module_name s) b h =
    from_key 3 (print (Param.module_name s) ++ (0 ∷ b)) _ (no_keys_before 3 s b h) refl refl
field_of-print (Param.date s) b h =
    from_key 4 (print (Param.date s) ++ (0 ∷ b)) _ (no_keys_before 4 s b h) refl refl
field_of-print (Param.hash s) b h =
    from_key 5 (print (Param.hash s) ++ (0 ∷ b)) _ (no_keys_before 5 s b h) refl refl
field_of-print (Param.alias s) b h =
    from_key 7 (print (Param.alias s) ++ (0 ∷ b)) _ (no_keys_before 7 s b h) refl refl
field_of-print (Param.login s) b h =
    from_key 8 (print (Param.login s) ++ (0 ∷ b)) _ (no_keys_before 8 s b h) refl refl
field_of-print (Param.password s) b h =
    from_key 9 (print (Param.password s) ++ (0 ∷ b)) _ (no_keys_before 9 s b h) refl refl
