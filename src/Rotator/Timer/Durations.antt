-- ===== src/Rotator/Timer/Durations.antt =====
-- rotator/obj_timer.h: the reading of a duration ends.
use cproject.Base.{
  ◌≢◌, Option, none, some, arith, stuck, if-both, crash-ne-stuck, >>=-ne-stuck, done-ne-stuck,
}
use cproject.Base.Int.{ℤ}
use cproject.Base.Text.{Text, atoi}
use cproject.Rotator.Timer.{
  Timer, after_colon, seconds_of, get_seconds, remained_interval, append_playlist_duration,
}

after_colon-ne-stuck : (s : Text) → after_colon s ≢ stuck
unfolding after_colon
after_colon-ne-stuck s = ground arith

seconds_of-ne-stuck : (h m s : ℤ) → seconds_of h m s ≢ stuck
unfolding seconds_of
seconds_of-ne-stuck h m s = if-both (λ o. o ≢ stuck) _ (done-ne-stuck _) crash-ne-stuck

get_seconds-ne-stuck : (default : ℤ) (s : Option Text) → get_seconds default s ≢ stuck
unfolding get_seconds
get_seconds-ne-stuck default none = done-ne-stuck _
get_seconds-ne-stuck default (some s) =
    >>=-ne-stuck (after_colon s) _ (after_colon-ne-stuck s) (λ m _.
      >>=-ne-stuck (after_colon m) _ (after_colon-ne-stuck m) λ t _.
        >>=-ne-stuck (seconds_of (atoi s) (atoi m) (atoi t)) _
          (seconds_of-ne-stuck (atoi s) (atoi m) (atoi t)) (λ v _. done-ne-stuck _))

pub append_playlist_duration-ne-stuck :
    (s : Option Text) (t : Timer) → append_playlist_duration s t ≢ stuck
unfolding append_playlist_duration
append_playlist_duration-ne-stuck none t = done-ne-stuck _
append_playlist_duration-ne-stuck (some s) t =
    >>=-ne-stuck (get_seconds t.default_track_duration (some s)) _
      (get_seconds-ne-stuck t.default_track_duration (some s)) (λ n _. done-ne-stuck _)

pub remained_interval-ne-stuck : (s : Option Text) (t : Timer) → remained_interval s t ≢ stuck
unfolding remained_interval
remained_interval-ne-stuck s t =
    >>=-ne-stuck (get_seconds t.default_track_duration s) _
      (get_seconds-ne-stuck t.default_track_duration s) (λ n _. done-ne-stuck _)
