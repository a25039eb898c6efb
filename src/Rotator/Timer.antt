-- ===== src/Rotator/Timer.antt =====
-- rotator/obj_timer.h: the clock of a playlist. Durations are seconds; what `get_seconds` computes is an
-- `int`, their sums are `long int`s that the model does not bound.
pub mod Durations
pub mod RoundTrip
use cproject.Base.{
  ℕ, zero, suc, ◌+◌, ◌/◌, ◌%◌, Bool, Option, none, some, [], ◌∷◌, ◌++◌, length, ltb, ◌==◌, ◌&&◌,
  if◌then◌else◌, Outcome, done, crash, ◌>>=◌,
}
use cproject.Base.Int.{ℤ, pos, negsuc, ◌+ℤ◌, ◌-ℤ◌, ◌*ℤ◌, leb_ℤ, fits_int}
use cproject.Base.Text.{Text, codes, atoi, strchr}

-- What the process reads from the clock of the system: the hour now, and the seconds that have
-- passed since the full hour `h` of today.
pub record Clock : Type 0 where
  pub hour : ℕ
  pub seconds_since : ℕ → ℤ

pub record Timer : Type 0 where
  pub remained_interval : ℤ
  pub playlist_duration : ℤ
  pub day : ℤ
  pub default_track_duration : ℤ

abbrev pub hour_interval : ℤ
hour_interval = pos 3600

abbrev pub default_day : ℤ
default_day = pos 24

abbrev pub after : Option Text → Option Text
after none = none
after (some []) = none
after (some (c ∷ s)) = some s

-- `strchr(s, ':') + 1`. Without a colon that is not NULL but the address 1, which the test `if (s1)`
-- lets pass: the read that follows is a crash.
after_colon : Text → Outcome Text
after_colon s = elim (after (strchr s b':')) [ none ↦ crash | some t ↦ done t ]

is_zero : ℤ → Bool
is_zero (pos n) = n == 0
is_zero (negsuc n) = Bool.false

-- Three numbers in seconds; each result that an `int` does not hold is undefined.
unfoldable pub seconds_of : ℤ → ℤ → ℤ → Outcome ℤ
seconds_of h m s =
    if fits_int (h *ℤ pos 3600)
      && fits_int (m *ℤ pos 60)
      && fits_int (h *ℤ pos 3600 +ℤ m *ℤ pos 60)
      && fits_int (h *ℤ pos 3600 +ℤ m *ℤ pos 60 +ℤ s)
    then done (h *ℤ pos 3600 +ℤ m *ℤ pos 60 +ℤ s)
    else crash

-- hh:mm:ss in seconds; a duration of 0, and NULL, are the default.
unfoldable pub get_seconds : ℤ → Option Text → Outcome ℤ
unfolding after_colon is_zero seconds_of
get_seconds default none = done default
get_seconds default (some s) = do
  m ← after_colon s
  t ← after_colon m
  value ← seconds_of (atoi s) (atoi m) (atoi t)
  done (if is_zero value then default else value)

unfoldable pub set_interval : ℤ → Timer → Timer
set_interval counter t = record t { remained_interval = hour_interval *ℤ counter }

-- `remained_interval(char*)`: takes the track off what is left of the interval, and returns that.
unfoldable pub remained_interval : Option Text → Timer → Outcome Timer
remained_interval stime t = do
  s ← get_seconds t.default_track_duration stime
  done (record t { remained_interval = t.remained_interval -ℤ s })

unfoldable pub append_playlist_duration : Option Text → Timer → Outcome Timer
append_playlist_duration none t = done t
append_playlist_duration (some stime) t = do
  s ← get_seconds t.default_track_duration (some stime)
  done (record t { playlist_duration = t.playlist_duration +ℤ s })

unfoldable pub clear_playlist_duration : Timer → Timer
clear_playlist_duration t = record t { playlist_duration = pos 0 }

unfoldable pub is_24hours_completed : Timer → Bool
is_24hours_completed t = leb_ℤ t.day t.playlist_duration

unfoldable pub define_playlist_duration : Clock → ℕ → Timer → Timer
define_playlist_duration clock hour t = record t {
  remained_interval = t.remained_interval -ℤ clock.seconds_since hour;
  playlist_duration = t.playlist_duration +ℤ clock.seconds_since 0;
}

unfoldable pub set_general_duration : Option Text → Timer → Outcome Timer
set_general_duration none t = done (record t { day = hour_interval *ℤ default_day })
set_general_duration (some s) t = do
  day ← get_seconds t.default_track_duration (some s)
  done (record t { day = day })

unfoldable pub set_default_track_duration : Option Text → Timer → Outcome Timer
set_default_track_duration none t = done t
set_default_track_duration (some s) t = do
  track ← get_seconds t.default_track_duration (some s)
  done (record t { default_track_duration = track })

-- The constructor `TTimer(char*)`; "00:03:00" is the default length of a track.
unfoldable pub new_timer : Option Text → Outcome Timer
new_timer duration = do
  track ← get_seconds (pos 0) (some (codes "00:03:00"))
  set_general_duration duration (record {
    remained_interval = hour_interval;
    playlist_duration = pos 0;
    day = pos 0;
    default_track_duration = track;
  })

-- The decimal digits of `n`, on fuel; `suc n` rounds are enough.
unfoldable pub decimal : ℕ → ℕ → Text
decimal zero n = []
decimal (suc fuel) n =
    let front = decimal fuel (n / 10) in
    if ltb n 10 then (b'0' + n) ∷ [] else front ++ ((b'0' + n % 10) ∷ [])

-- "%02li"
unfoldable pub two_digits : ℕ → Text
unfolding decimal
two_digits n = if ltb n 10 then b'0' ∷ (b'0' + n) ∷ [] else decimal (suc n) n

-- The text of "%02li:%02li:%02li".
unfoldable pub clock_text : ℕ → Text
clock_text t =
    two_digits (t / 3600) ++ (b':' ∷ (two_digits (t / 60 % 60) ++ (b':' ∷ two_digits (t % 60))))

-- `convert_seconds_to_char`, of a duration that is not negative. The text is printed into nine bytes, the
-- last one for its end.
unfoldable pub convert_seconds_to_char : ℕ → Outcome Text
convert_seconds_to_char t = if ltb 8 (length (clock_text t)) then crash else done (clock_text t)
