-- ===== src/Clock.antt =====
-- Timestamps: `_utc_text` of infrastructure/local_broker.py and infrastructure/sqlite_control.py,
-- and `parse_utc` of application/models.py. A `datetime` is the number of its microseconds on the
-- UTC time line since the start of the year 1; one without a timezone, which `_utc_text` refuses, has no
-- such number.
pub mod Bounds
use lineage_collection.Prelude.{
  ℕ, ◌+◌, ◌*◌, ◌/◌, ◌%◌, Bool, true, false, ltb, leb, eqb, if◌then◌else◌,
}

abbrev pub second : ℕ
second = 1000000

-- Up to the end of the year 9999, `datetime.max`: a sum with a `timedelta` beyond it raises OverflowError.
unfoldable pub in_calendar : ℕ → Bool
in_calendar t = ltb t 315537897600000000

-- `isoformat` writes whole seconds, and the microseconds only when they are not zero.
pub record UtcText : Type 0 where
  pub seconds : ℕ
  pub fraction : ℕ

abbrev pub utc_text : ℕ → UtcText
utc_text t = record { seconds = t / second; fraction = t % second }

abbrev pub parse_utc : UtcText → ℕ
parse_utc s = s.seconds * second + s.fraction

-- The end of the text: `Z`, or a point, six digits and `Z`. The point is smaller than `Z`.
abbrev pub end_leb : ℕ → ℕ → Bool
end_leb a b = if eqb b 0 then true else (if eqb a 0 then false else leb a b)

-- SQL's `<=` on two timestamp columns compares their texts.
abbrev pub utc_text_leb : UtcText → UtcText → Bool
utc_text_leb a b =
    if ltb a.seconds b.seconds
    then true
    else (if eqb a.seconds b.seconds then end_leb a.fraction b.fraction else false)

-- The same test on the instants whose texts the columns hold.
unfoldable pub text_leb : ℕ → ℕ → Bool
text_leb a b = utc_text_leb (utc_text a) (utc_text b)
