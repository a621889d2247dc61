-- ===== src/Task/Ticks.antt =====
-- The ticks of a sleep that is given in hours, minutes, seconds and milliseconds.
use raw_os.Shared.{ℕ, ◌+◌, ◌*◌, ◌≤◌, ◌<◌, arith}
use raw_os.Task.{sleep_ticks}

-- Within the limits of the hours and minutes, and for seconds and milliseconds that leave the sum in
-- 32 bits, the delay is the time that was asked for to the nearest tick of 10 milliseconds, half a
-- tick rounded up.
pub sleep_ticks_lem :
    (hours minutes seconds milli : ℕ)
    → hours ≤ 999
    → minutes ≤ 9999
    → seconds ≤ 38000000
    → milli ≤ 42949667
    → let asked = (hours * 3600 + minutes * 60 + seconds) * 1000 + milli in
      let ticks = sleep_ticks hours minutes seconds milli in
      (ticks * 10 ≤ asked + 5) × (asked + 5 < ticks * 10 + 10)
unfolding sleep_ticks
sleep_ticks_lem hours minutes seconds milli h m s l = (omega arith, omega arith)
