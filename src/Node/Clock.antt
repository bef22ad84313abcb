-- ===== src/Node/Clock.antt =====
-- The time stamps of crates/bcc-node/src/debug_event.rs: `format_ts` and `epoch_to_ymd`.
pub mod Calendar
use better_call_chain.Prelude.{
  ℕ, zero, suc, ◌+◌, ◌-◌, ◌*◌, ◌/◌, ◌%◌, List, [], ◌∷◌, ◌++◌, if◌then◌else◌, ltb, ◌==◌, length,
}
use better_call_chain.Prelude.Words.{u32_mod}
use better_call_chain.Core.Types.{Bytes}

unfoldable pub leap : ℕ → ℕ
leap y = if y % 400 == 0 then 1 else if y % 100 == 0 then 0 else if y % 4 == 0 then 1 else 0

-- The `loop` over the years, with fuel. Each year takes at least 365 days, so a fuel of `days / 365`
-- lets the loop end by its own test or with less than a year left.
unfoldable pub year_loop : ℕ → ℕ → ℕ → ℕ × ℕ
year_loop zero y days = (y, days)
year_loop (suc fuel) y days =
    let rest = year_loop fuel (suc y) (days - (365 + leap y)) in
    if ltb days (365 + leap y) then (y, days) else rest

abbrev pub month_days : ℕ → List ℕ
month_days y = 31 ∷ (28 + leap y) ∷ 31 ∷ 30 ∷ 31 ∷ 30 ∷ 31 ∷ 31 ∷ 30 ∷ 31 ∷ 30 ∷ 31 ∷ []

-- `for &md in &month_days { … }`
unfoldable pub month_loop : List ℕ → ℕ → ℕ → ℕ × ℕ
month_loop [] m days = (m, days)
month_loop (md ∷ mds) m days =
    let rest = month_loop mds (suc m) (days - md) in if ltb days md then (m, days) else rest

pub record Date : Type 0 where
  pub year : ℕ
  pub month : ℕ
  pub day : ℕ

unfoldable pub epoch_to_ymd : ℕ → Date
epoch_to_ymd days =
    let years = year_loop (days / 365) 1970 days in
    let months = month_loop (month_days years.0) 0 years.1 in
    record { year = years.0; month = months.0 + 1; day = months.1 + 1 }

-- The decimal digits, last first, with fuel for their number.
unfoldable pub digits : ℕ → ℕ → Bytes
digits zero n = []
digits (suc fuel) n =
    let rest = digits fuel (n / 10) in (if ltb n 10 then [] else rest) ++ (48 + n % 10) ∷ []

abbrev pub zeros_to : ℕ → Bytes → Bytes
zeros_to zero text = text
zeros_to (suc n) text = b'0' ∷ zeros_to n text

-- `{n:0width}`
unfoldable pub padded : ℕ → ℕ → Bytes
padded width n = let text = digits (suc n) n in zeros_to (width - length text) text

unfoldable pub format_ts : ℕ → Bytes
format_ts millis =
    let secs = millis / 1000 in
    let ms = millis % 1000 in
    let mins = secs / 60 in
    let s = secs % 60 in
    let hours = mins / 60 in
    let m = mins % 60 in
    let days = hours / 24 in
    let h = hours % 24 in
    let date = epoch_to_ymd (days % u32_mod) in
    padded 4 date.year
    ++ b'-' ∷ padded 2 date.month
    ++ b'-' ∷ padded 2 date.day
    ++ b'T' ∷ padded 2 h
    ++ b':' ∷ padded 2 m
    ++ b':' ∷ padded 2 s
    ++ b'.' ∷ padded 3 ms
    ++ b'Z' ∷ []
