-- ===== src/Logger/ErrorMonitor.antt =====
-- logger/errormonitor.cpp: which errors of a domain are mailed, and when. The two calls of `time` in
-- one call of a method read one and the same second; the timeouts are whole seconds, as the
-- configuration computes them.
pub mod Sizes
pub mod Quiet
pub mod Spacing
pub mod Again
use cproject.Base.{
  ℕ, ◌+◌, ◌-◌, Bool, true, false, not, ◌&&◌, ◌||◌, ◌==◌, ltb, leb, if◌then◌else◌, Option, none,
  some, List, [], ◌∷◌, ◌++◌, length,
}
use cproject.Base.Int.{ℤ, pos, leb_ℤ}
use cproject.Base.Text.{Text, text_compare}
use cproject.Base.Map.{lookup, insert, erase}

-- `ErrMonitor`; the volume is in bytes.
pub record Settings : Type 0 where
  pub error_counter : ℕ
  pub registered_error_level : ℤ
  pub reset_timeout : ℕ
  pub email_timeout : ℕ
  pub email_volume : ℕ

-- `TDomInfo`, without `last_msg`, that nothing uses.
pub record DomInfo : Type 0 where
  pub counter : ℕ
  pub tm : ℕ
  pub overflow : Bool
  pub first_overflow : Bool
  pub msg_box_size : ℕ
  pub msg_box : List Text

abbrev pub Domains : Type 0
Domains = List (Text × DomInfo)

-- `counter_overflow(bool, int &)`: the answer, and the value that it leaves.
unfoldable pub counter_overflow : Settings → Bool → ℕ → Bool × ℕ
counter_overflow s is_overflow value =
    let value' = if is_overflow || leb s.error_counter value then 0 else value in
    (value' == 0, value')

-- `exceeded_email_timeout(TDomInfo &)` at the time `now`
unfoldable pub exceeded_email_timeout : Settings → ℕ → DomInfo → DomInfo × Bool
exceeded_email_timeout s now m =
    if m.overflow && leb (m.tm + s.email_timeout) now
    then (record m { overflow = false; first_overflow = false; tm = now }, true)
    else (m, false)

-- The branch of `onAdd_error` for a domain that is known.
unfoldable pub count_error : Settings → ℕ → DomInfo → DomInfo × Bool
unfolding counter_overflow exceeded_email_timeout
count_error s now info =
    let (overflow, counter) = counter_overflow s info.overflow info.counter in
    exceeded_email_timeout s now (record info { overflow = overflow; counter = counter })

-- The first message leaves the box; an empty box stays as it is.
drop_first : List Text → DomInfo → DomInfo
drop_first [] info = info
drop_first (x ∷ box) info = record info {
  msg_box_size = info.msg_box_size - length x;
  msg_box = box;
}

-- One message makes room where the new one goes past the volume.
unfoldable pub make_room : Settings → Text → DomInfo → DomInfo
unfolding drop_first
make_room s msg info =
    if ltb s.email_volume (length msg + info.msg_box_size)
    then drop_first info.msg_box info
    else info

-- The message goes into the box, and the box into a mail if `mail` is set.
unfoldable pub file_message : Text → Bool → DomInfo → DomInfo × Option (List Text)
file_message msg mail info =
    let box = info.msg_box ++ (msg ∷ []) in
    if mail then (record info { msg_box = []; counter = 0; msg_box_size = 0 }, some box) else (
      record info {
        msg_box = box;
        counter = info.counter + 1;
        msg_box_size = info.msg_box_size + length msg;
      },
      none,
    )

-- The errors that `onAdd_error` returns at: 0, and up to the registered level.
unfoldable pub ignored : Settings → ℤ → Bool
ignored s error =
    (leb_ℤ error (pos 0) && leb_ℤ (pos 0) error) || leb_ℤ error s.registered_error_level

-- `earlier` is what `localtime` and `mktime` make of a time when the year is set back by ten.
module _ (earlier : ℕ → ℕ) where
  fresh : ℕ → DomInfo
  fresh now = record {
    counter = 0;
    tm = earlier now;
    overflow = false;
    first_overflow = true;
    msg_box_size = 0;
    msg_box = [];
  }

  unfoldable pub entry_at : Settings → ℕ → Option DomInfo → DomInfo × Bool
  unfolding fresh
  entry_at s now none = (fresh now, false)
  entry_at s now (some info) = count_error s now info

  unfoldable pub add_to_domain : Settings → ℕ → Text → Option DomInfo → DomInfo × Option (List Text)
  add_to_domain s now msg known =
      let (info, mail) = entry_at s now known in file_message msg mail (make_room s msg info)

  -- `onAdd_error`: the domains, and the mail that is sent.
  unfoldable pub on_add_error :
      Settings → ℕ → ℤ → Text → Text → Domains → Domains × Option (List Text)
  on_add_error s now error dm msg d =
      let (info, mail) = add_to_domain s now msg (lookup text_compare dm d) in
      if ignored s error then (d, none) else (insert text_compare dm info d, mail)

-- The loop of `exceeded_reset_timeout` over a copy of the domains.
unfoldable pub reset_loop : Settings → ℕ → Domains → Domains → Domains
reset_loop s now [] d = d
reset_loop s now ((name, info) ∷ rest) d =
    reset_loop s now rest
      (if leb (info.tm + s.reset_timeout) now then erase text_compare name d else d)

-- `exceeded_reset_timeout`
unfoldable pub exceeded_reset_timeout : Settings → ℕ → Domains → Domains
unfolding reset_loop
exceeded_reset_timeout s now d = reset_loop s now d d

-- What the monitor's thread waits for: an error's signal, or none within the timeout.
pub data Event : Type 0 where
  error : ℕ → ℤ → Text → Text → Event
  silence : ℕ → Event

-- A mail: its domain, the time it is sent, and its messages.
pub record Mail : Type 0 where
  pub domain : Text
  pub at : ℕ
  pub box : List Text

posted : Text → ℕ → Option (List Text) → List Mail
posted dm now none = []
posted dm now (some box) = record { domain = dm; at = now; box = box } ∷ []

module _ (earlier : ℕ → ℕ) (s : Settings) where
  -- One round of `handler_error_monitor_thread`.
  unfoldable pub handle : Event → Domains → Domains × List Mail
  unfolding posted
  handle (error now code dm msg) d =
      let (d', mail) = on_add_error earlier s now code dm msg d in (d', posted dm now mail)
  handle (silence now) d = (exceeded_reset_timeout s now d, [])

  -- The thread over the events that come.
  unfoldable pub monitor : List Event → Domains → Domains × List Mail
  monitor [] d = (d, [])
  monitor (e ∷ es) d =
      let (d', mails) = handle e d in let (last, later) = monitor es d' in (last, mails ++ later)
