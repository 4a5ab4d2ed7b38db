-- ===== src/Util/Calendar/Tests.antt =====
-- Times and dates of history/embedded-sw/dev/util.c.
use bpm_gw.Base.{◌+◌, ◌≡◌, refl, some, arith, negsuc, if◌then◌else◌, ltb}
use bpm_gw.Util.{Tm, format_time, memcpy, memcmp}
use bpm_gw.Util.Gregorian.{IsDate, seconds_of}
use bpm_gw.Util.Calendar.{format_time-seconds_of}

format_time-seconds_of_example :
    (d : Tm) × (format_time 137 1362052800 ≡ some d) × IsDate d × (seconds_of d ≡ 1362052800)
format_time-seconds_of_example = format_time-seconds_of 137 1362052800 (omega arith)

-- the 29th of February 2012, at 12:34:56, a Wednesday
leap_day :
    format_time 137 1330518896
    ≡ some (record { wday = 3; mon = 1; mday = 29; year = 2012; hour = 12; min = 34; sec = 56 })
unfolding format_time
leap_day = refl

-- the last second of the 32 bits
last_second :
    format_time 137 4294967295
    ≡ some (record { wday = 0; mon = 1; mday = 7; year = 2106; hour = 6; min = 28; sec = 15 })
unfolding format_time
last_second = refl

copied : memcpy (λ j. j) 10 20 3 12 ≡ 22
unfolding memcpy
copied = refl

differs : memcmp (λ j. if ltb j 10 then j else j + 1) 0 10 4 ≡ negsuc 10
unfolding memcmp
differs = refl
