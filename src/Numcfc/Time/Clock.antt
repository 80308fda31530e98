-- ===== src/Numcfc/Time/Clock.antt =====
-- numcfc/Time.cpp: the constructors that ask the clock or read a text, the conversion to local time,
-- and TimeElapsed. What the clocks show, and the conversion of the fields, are parameters.
use numcore_messaging_librar.Common.{Bool, Option, none, some, Bytes, ℤ, if◌then◌else◌}
use numcore_messaging_librar.Outcome.{Outcome, done, aborts, ◌>>=◌}
use numcore_messaging_librar.Numcfc.Time.{
  TimeType, universal, local, unknown, Time, is_local_time, from_extended_iso,
}
use numcore_messaging_librar.Numcfc.Time.Seconds.{
  Calendar, unread, reset_to_past, get_elapsed_seconds,
}

-- The universal and the local time now, and the local time of a universal one.
pub record Clock : Type 0 where
  pub universal_time : Time
  pub local_time : Time
  pub utc_to_local : Time → Time

unfoldable pub init_current_universal : Clock → Time
init_current_universal clock = record (clock.universal_time) { type = universal }

unfoldable pub init_current_local : Clock → Time
init_current_local clock = record (clock.local_time) { type = local }

-- `Time(TimeType)`
unfoldable pub current_time : Clock → TimeType → Time
unfolding init_current_universal init_current_local
current_time clock universal = init_current_universal clock
current_time clock local = init_current_local clock
current_time clock unknown = record (init_current_universal clock) { type = unknown }

-- A text that is not read leaves the fields as they happen to be.
abbrev if_read : Bool × Time → Option Time
if_read (read, t) = if read then some t else none

-- `Time(const char*, TimeType)`
unfoldable pub parsed_time : Bytes → TimeType → Outcome (Option Time)
unfolding from_extended_iso
parsed_time s type = from_extended_iso s (unread type) >>= λ r. done (if_read r)

unfoldable pub convert_universal_to_local : Clock → Time → Outcome Time
unfolding is_local_time
convert_universal_to_local clock t =
    if is_local_time t then aborts else done (record (clock.utc_to_local t) { type = local })

-- `TimeElapsed`: the time that it counts from.
pub record TimeElapsed : Type 0 where
  pub t0 : Time

unfoldable pub reset_to_current : Clock → TimeElapsed
unfolding init_current_universal
reset_to_current clock = record { t0 = init_current_universal clock }

module _ (c : Calendar) where
  unfoldable pub long_time_elapsed : Outcome TimeElapsed
  unfolding reset_to_past
  long_time_elapsed = reset_to_past c >>= λ t. done (record { t0 = t })

  unfoldable pub elapsed_seconds : Clock → TimeElapsed → Outcome ℤ
  unfolding get_elapsed_seconds current_time
  elapsed_seconds clock te = get_elapsed_seconds c te.t0 (current_time clock universal)
