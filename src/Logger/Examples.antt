-- ===== src/Logger/Examples.antt =====
-- Two errors of one domain, run through logger/errormonitor.cpp, and the theorems at them.
use cproject.Base.{ℕ, ◌-◌, ◌≡◌, refl, false, some, List, [], ◌∷◌, arith, map}
use cproject.Base.Int.{pos}
use cproject.Base.Text.{Text, codes, text_compare}
use cproject.Base.Map.{lookup, insert}
use cproject.Logger.ErrorMonitor.{
  Settings, Domains, counter_overflow, exceeded_email_timeout, count_error, make_room, file_message,
  ignored, entry_at, add_to_domain, on_add_error, reset_loop, exceeded_reset_timeout, Event, error,
  silence, handle, monitor,
}
use cproject.Logger.ErrorMonitor.Sizes.{AllSized, monitor-AllSized}
use cproject.Logger.ErrorMonitor.Quiet.{gap}
use cproject.Logger.ErrorMonitor.Spacing.{Spaced, monitor-Spaced}
use cproject.Logger.ErrorMonitor.Again.{on_add_error-again}

-- Two errors are waited for; mails are a minute apart, and a quiet domain is forgotten after two.
abbrev settings : Settings
settings = record {
  error_counter = 2;
  registered_error_level = pos 1;
  reset_timeout = 120;
  email_timeout = 60;
  email_volume = 8;
}

abbrev earlier : ℕ → ℕ
earlier now = now - 1000

abbrev site : Text
site = codes "site"

abbrev fault : ℕ → Event
fault now = error now (pos 5) site (codes "down")

abbrev events : List Event
events = fault 2000 ∷ fault 2001 ∷ fault 2002 ∷ silence 2010 ∷ fault 2070 ∷ fault 2300 ∷ []

-- Three errors bring a mail; after it each error does, once the minute is over.
monitor_test : map (λ m. m.at) (monitor earlier settings events []).1 ≡ 2002 ∷ 2070 ∷ 2300 ∷ []
unfolding monitor handle on_add_error add_to_domain entry_at count_error counter_overflow
    exceeded_email_timeout make_room file_message ignored exceeded_reset_timeout reset_loop
    text_compare lookup insert
monitor_test = refl

monitor-AllSized_example : AllSized earlier settings (monitor earlier settings events []).0
monitor-AllSized_example = monitor-AllSized earlier settings events [] tt

monitor-Spaced_example : Spaced (gap settings) (monitor earlier settings events []).1
monitor-Spaced_example =
    monitor-Spaced settings earlier 2000 events [] tt
      (omega arith, (omega arith, (omega arith, (omega arith, (omega arith, (omega arith, tt))))))

abbrev domains : Domains
domains = (monitor earlier settings (fault 2000 ∷ fault 2001 ∷ []) []).0

third_mail :
    (on_add_error earlier settings 2002 (pos 5) site (codes "down") domains).1
    ≡ some (codes "down" ∷ codes "down" ∷ [])
unfolding monitor handle on_add_error add_to_domain entry_at count_error counter_overflow
    exceeded_email_timeout make_room file_message ignored text_compare lookup insert
third_mail = refl

counts : ignored settings (pos 5) ≡ false
unfolding ignored
counts = refl

on_add_error-again_example :
    (on_add_error earlier settings 2062
      (pos 5)
      site
      (codes "full")
      (on_add_error earlier settings 2002 (pos 5) site (codes "down") domains).0).1
    ≡ some (codes "full" ∷ [])
on_add_error-again_example =
    on_add_error-again earlier settings 2002 2062 (pos 5) (pos 5) site (codes "down") (codes "full")
      domains (codes "down" ∷ codes "down" ∷ []) third_mail (omega arith) counts
