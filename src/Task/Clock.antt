-- ===== src/Task/Clock.antt =====
-- The time stamps of src/server/task.rs: `iso_now`, `epoch_days_to_ymd`, `now_with_iso`. What the
-- two system clocks show is an argument.
use Prim.Native.String.{◌++◌}
use ida_mcp_rs.Base.{ℕ, zero, suc, ◌+◌, ◌-◌, ◌*◌, ◌/◌, ◌%◌, String, ltb, leb, if◌then◌else◌}

-- What `Instant::now` and `SystemTime::now` show: nanoseconds, and seconds since the epoch.
pub record Reading : Type 0 where
  pub instant : ℕ
  pub unix_secs : ℕ

pub record Ymd : Type 0 where
  pub year : ℕ
  pub month : ℕ
  pub day : ℕ

-- The year of the cycle of 400 years that begins on the first of March, for a day of it.
unfoldable pub year_of_era : ℕ → ℕ
year_of_era doe = (doe - doe / 1460 + doe / 36524 - doe / 146096) / 365

-- The rest of the computation, from the cycle and the day in it.
unfoldable pub era_day_to_ymd : ℕ → ℕ → Ymd
unfolding year_of_era
era_day_to_ymd era doe =
    let yoe = year_of_era doe in
    let y = yoe + era * 400 in
    let doy = doe - (365 * yoe + yoe / 4 - yoe / 100) in
    let mp = (5 * doy + 2) / 153 in
    let d = doy - (153 * mp + 2) / 5 + 1 in
    let m = (if ltb mp 10 then mp + 3 else mp - 9) in
    record { year = (if leb m 2 then y + 1 else y); month = m; day = d }

unfoldable pub epoch_days_to_ymd : ℕ → Ymd
unfolding era_day_to_ymd
epoch_days_to_ymd days =
    let z = days + 719468 in let era = z / 146097 in era_day_to_ymd era (z - era * 146097)

digit : ℕ → String
digit zero = "0"
digit (suc zero) = "1"
digit (suc (suc zero)) = "2"
digit (suc (suc (suc zero))) = "3"
digit (suc (suc (suc (suc zero)))) = "4"
digit (suc (suc (suc (suc (suc zero))))) = "5"
digit (suc (suc (suc (suc (suc (suc zero)))))) = "6"
digit (suc (suc (suc (suc (suc (suc (suc zero))))))) = "7"
digit (suc (suc (suc (suc (suc (suc (suc (suc zero)))))))) = "8"
digit _ = "9"

-- `{:0w}` on a number: at least `w` digits. The fuel is the most digits that a u64 has.
padded : ℕ → ℕ → ℕ → String
unfolding digit
padded zero w n = ""
padded (suc fuel) w n =
    let rest = padded fuel (w - 1) (n / 10) in
    if ltb n 10 then (if leb w 1 then digit n else rest ++ digit n) else rest ++ digit (n % 10)

unfoldable pub iso_now : ℕ → String
unfolding padded epoch_days_to_ymd
iso_now secs =
    let time_secs = secs % 86400 in
    let date = epoch_days_to_ymd (secs / 86400) in
    padded 20 4 date.year
    ++ "-"
    ++ padded 20 2 date.month
    ++ "-"
    ++ padded 20 2 date.day
    ++ "T"
    ++ padded 20 2 (time_secs / 3600)
    ++ ":"
    ++ padded 20 2 (time_secs % 3600 / 60)
    ++ ":"
    ++ padded 20 2 (time_secs % 60)
    ++ "Z"

unfoldable pub now_with_iso : Reading → ℕ × String
now_with_iso r = (r.instant, iso_now r.unix_secs)
