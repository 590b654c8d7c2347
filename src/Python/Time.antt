-- ===== src/Python/Time.antt =====
-- `datetime`: its fields, its place on the time line, comparison and `isoformat`.
use api2agent.Common.{
  ℕ, suc, ◌+◌, ◌-◌, ◌*◌, ◌/◌, ◌%◌, ◌≡◌, refl, String, Bool, true, ◌&&◌, ◌||◌, Option, none, some,
  not, nat_eq, leb, ltb, if◌then◌else◌, ◌<>◌,
}
use api2agent.Python.Number.{ℤ, pos, negsuc}
use api2agent.Python.Text.{show_padded}

-- `offset` is that of its zone from UTC in minutes; `none` is a naive time.
pub record DateTime : Type 0 where
  pub year : ℕ
  pub month : ℕ
  pub day : ℕ
  pub hour : ℕ
  pub minute : ℕ
  pub second : ℕ
  pub microsecond : ℕ
  pub offset : Option ℤ

is_leap : ℕ → Bool
is_leap y = nat_eq (y % 4) 0 && (not (nat_eq (y % 100) 0) || nat_eq (y % 400) 0)

-- Days of the year before the first of a month.
days_before_month : Bool → ℕ → ℕ
days_before_month leap m =
    (if leap && ltb 2 m then 1 else 0)
    + (if leb m 2 then (m - 1) * 31 else (306 * (m + 1)) / 10 - 63)

-- Microseconds of the wall clock since the first of January of year 1.
wall_clock : DateTime → ℕ
unfolding is_leap days_before_month
wall_clock t =
    let y = t.year - 1 in
    let days =
      y * 365
      + y / 4
      - y / 100
      + y / 400
      + days_before_month (is_leap t.year) t.month
      + (t.day - 1) in
    (((days * 24 + t.hour) * 60 + t.minute) * 60 + t.second) * 1_000_000 + t.microsecond

-- `t.replace(tzinfo=timezone.utc)` where `t` is naive
abbrev pub assume_utc : DateTime → DateTime
assume_utc t = elim t.offset [ none ↦ record t { offset = some (pos 0) } | some z ↦ t ]

minutes_east : Option ℤ → ℕ
minutes_east (some (pos n)) = n
minutes_east _ = 0

minutes_west : Option ℤ → ℕ
minutes_west (some (negsuc n)) = suc n
minutes_west _ = 0

-- `t <= u` of aware times: the wall clocks less the offsets.
unfoldable pub time_le : DateTime → DateTime → Bool
unfolding wall_clock minutes_east minutes_west
time_le t u =
    let east = λ (z : Option ℤ). minutes_east z * 60_000_000 in
    let west = λ (z : Option ℤ). minutes_west z * 60_000_000 in
    leb (wall_clock t + west t.offset + east u.offset)
      (wall_clock u + west u.offset + east t.offset)

show_offset : Option ℤ → String
show_offset none = ""
show_offset (some (pos n)) = "+" <> (show_padded 2 (n / 60) <> (":" <> show_padded 2 (n % 60)))
show_offset (some (negsuc n)) =
    "-" <> (show_padded 2 (suc n / 60) <> (":" <> show_padded 2 (suc n % 60)))

-- `t.isoformat()`
unfoldable pub isoformat : DateTime → String
unfolding show_offset show_padded
isoformat t =
    show_padded 4 t.year
    <> ("-"
        <> (show_padded 2 t.month
            <> ("-"
                <> (show_padded 2 t.day
                    <> ("T"
                        <> (show_padded 2 t.hour
                            <> (":"
                                <> (show_padded 2 t.minute
                                    <> (":"
                                        <> (show_padded 2 t.second
                                            <> ((if nat_eq t.microsecond 0
                                                  then ""
                                                  else "." <> show_padded 6 t.microsecond)
                                                <> show_offset t.offset)))))))))))

abbrev noon : DateTime
noon = record {
  year = 2026;
  month = 3;
  day = 1;
  hour = 12;
  minute = 0;
  second = 0;
  microsecond = 0;
  offset = some (pos 480);
}

isoformat_runs : isoformat noon ≡ "2026-03-01T12:00:00+08:00"
unfolding isoformat
isoformat_runs = refl

-- Noon at +08:00 is before five in the morning of UTC.
time_le_runs : time_le noon (record noon { hour = 5; offset = some (pos 0) }) ≡ true
unfolding time_le
time_le_runs = refl
