-- ===== src/MusicgoAlias/Parse/Pieces.antt =====
-- musicgo_alias/Parameters.cpp: what `strtok` and `strstr` make of texts without separators.
use cproject.Base.{
  ℕ, suc, ◌<◌, ◌≡◌, refl, ap, ap₂, Bool, true, false, not, ◌&&◌, ◌||◌, ◌==◌, if◌then◌else◌, none,
  List, [], ◌∷◌, ◌++◌, length, take, drop, All, arith, if-both,
}
use cproject.Base.Text.{Text, text_eq, c_str}
use cproject.MusicgoAlias.Memory.{Memory, among, until, token_at, tokens, cut, strstr}
use cproject.MusicgoAlias.Request.{marks}

-- No byte of the text is a NUL or a separator.
abbrev pub Free : Text → Text → Type 0
Free seps s = All (λ c. (c == 0 || among seps c) ≡ false) s

or_facts : (a b : Bool) → (a || b) ≡ false → (a ≡ false) × (b ≡ false)
or_facts true b e = cc
or_facts false true e = cc
or_facts false false e = (refl, refl)

pub until-Free :
    (seps s t : Text) (e : ℕ)
    → Free seps s
    → (e == 0 || among seps e) ≡ true
    → until seps (s ++ (e ∷ t)) ≡ s
unfolding until
until-Free seps [] t e h end = rw end refl
until-Free seps (c ∷ s) t e h end = rw h.0 (ap (λ r. c ∷ r) (until-Free seps s t e h.1 end))

drop-behind : (s t : Text) (e : ℕ) → drop (suc (length s)) (s ++ (e ∷ t)) ≡ t
drop-behind [] t e = refl
drop-behind (c ∷ s) t e = drop-behind s t e

pub token_at-Free :
    (seps s t : Text) (e : ℕ)
    → Free seps s
    → (e == 0 || among seps e) ≡ true
    → token_at seps (s ++ (e ∷ t)) ≡ s ++ (0 ∷ t)
unfolding token_at
token_at-Free seps s t e h end =
    rw (until-Free seps s t e h end) (ap (λ r. s ++ (0 ∷ r)) (drop-behind s t e))

pub c_str-Free : (seps s t : Text) → Free seps s → c_str (s ++ (0 ∷ t)) ≡ s
unfolding c_str
c_str-Free seps [] t h = refl
c_str-Free seps (c ∷ s) t h =
    let (some_byte, no_sep) = or_facts (c == 0) (among seps c) h.0 in
    rw some_byte (ap (λ r. c ∷ r) (c_str-Free seps s t h.1))

-- A text that ends a piece: a mark, or the NUL.
abbrev pub tokens_behind : ℕ → Memory → List Memory
tokens_behind e t = if e == 0 then [] else tokens marks false t

tokens-begun :
    (s t : Text) (e : ℕ)
    → Free marks s
    → (e == 0 || among marks e) ≡ true
    → tokens marks true (s ++ (e ∷ t)) ≡ tokens_behind e t
unfolding tokens
tokens-begun [] t e h end = by_end (e == 0) (among marks e) end
  where
    by_end :
        (z m : Bool)
        → (z || m) ≡ true
        → (if z
            then []
            else if m || true
            then tokens marks (not m) t
            else token_at marks (e ∷ t) ∷ tokens marks (not m) t)
          ≡ (if z then [] else tokens marks false t)
    by_end true m h = refl
    by_end false true h = refl
    by_end false false h = cc
tokens-begun (c ∷ s) t e h end =
    let (some_byte, no_mark) = or_facts (c == 0) (among marks c) h.0 in
    rw (some_byte, no_mark) (tokens-begun s t e h.1 end)

-- A piece of at least one byte is handed out whole.
tokens-Free :
    (c : ℕ) (s t : Text) (e : ℕ)
    → Free marks (c ∷ s)
    → (e == 0 || among marks e) ≡ true
    → tokens marks false (c ∷ (s ++ (e ∷ t))) ≡ (c ∷ (s ++ (0 ∷ t))) ∷ tokens_behind e t
unfolding tokens token_at
tokens-Free c s t e h end =
    let (some_byte, no_mark) = or_facts (c == 0) (among marks c) h.0 in
    let whole = ap (λ x. c ∷ x) (token_at-Free marks s t e h.1 end) in
    rw (some_byte, no_mark) (ap₂ (λ x y. x ∷ y) whole (tokens-begun s t e h.1 end))

pub tokens-piece :
    (s t : Text) (e : ℕ)
    → Free marks s
    → 0 < length s
    → (e == 0 || among marks e) ≡ true
    → tokens marks false (s ++ (e ∷ t)) ≡ (s ++ (0 ∷ t)) ∷ tokens_behind e t
tokens-piece [] t e h some_text end = absurd (omega arith)
tokens-piece (c ∷ s) t e h some_text end = tokens-Free c s t e h end

-- The calls of `strtok` keep what stands behind the NUL.
pub drop-cut :
    (begun : Bool) (s t : Text)
    → All (λ c. (c == 0) ≡ false) s
    → drop (suc (length s)) (cut marks begun (s ++ (0 ∷ t))) ≡ t
unfolding cut
drop-cut begun [] t h = refl
drop-cut begun (c ∷ s) t h =
    let rest = drop-cut (not (among marks c)) s t h.1 in
    rw h.0 (if-both (λ m. drop (suc (suc (length s))) m ≡ t) (among marks c && begun) rest rest)

-- Whether a byte stands in the key, before a NUL.
abbrev pub has : ℕ → Text → Bool
has e [] = false
has e (c ∷ key) = c == e || not (c == 0) && has e key

no_match :
    (e : ℕ) (key v behind : Text)
    → has e key ≡ true
    → All (λ c. (c == e) ≡ false) v
    → (0 == e) ≡ false
    → text_eq (take (length key) (v ++ (0 ∷ behind))) key ≡ false
unfolding text_eq
no_match e [] v behind there lacks ne = cc
no_match e (k ∷ key) [] behind there lacks ne = ground arith
no_match e (k ∷ key) (c ∷ v) behind there lacks ne =
    ground (arith, no_match e key v behind, lacks.0, lacks.1)

-- A key with a byte that the text lacks is not found in it.
pub strstr-none :
    (e : ℕ) (key v behind : Text)
    → has e key ≡ true
    → All (λ c. (c == e) ≡ false) v
    → (0 == e) ≡ false
    → strstr (v ++ (0 ∷ behind)) key ≡ none
unfolding strstr
strstr-none e key [] behind there lacks ne = rw (no_match e key [] behind there tt ne) refl
strstr-none e key (c ∷ v) behind there lacks ne =
    rw (no_match e key (c ∷ v) behind there lacks ne)
      (if-both (λ o. o ≡ none) (c == 0) refl (strstr-none e key v behind there lacks.1 ne))
