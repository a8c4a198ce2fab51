-- ===== src/Dates.antt =====
-- Calendar dates and times, and `datetime.strptime` for the directives that
-- app/integrations/normalizer.py and app/integrations/csv_connector.py use. Python turns a format
-- into a regular expression with the alternatives below, takes its first match, refuses what is left
-- over, and then checks the calendar. Digits are the ASCII digits.
use Prim.Native.Nat.{ℕ, ◌+◌, ◌-◌, ◌*◌, ◌%◌}
use Prim.Native.Char.{code}
use Prim.Native.String.{String}
use nexus_inventory_platform.Base.{
  List, [], ◌∷◌, ◌++◌, map, Option, none, some, Bool, ◌&&◌, ◌||◌, not, leb, ◌==◌, if◌then◌else◌, ℤ,
  pos, pos_part, neg_part, ◌≡◌, refl, arith, ◌-◌, ◌*◌, ◌/◌, zero, suc,
}
use nexus_inventory_platform.Text.{is_space, lstrip}

pub record Date : Type 0 where
  pub year : ℕ
  pub month : ℕ
  pub day : ℕ

-- `offset` is the offset from UTC in seconds; `none` is a naive datetime.
pub record DateTime : Type 0 where
  pub date : Date
  pub hour : ℕ
  pub minute : ℕ
  pub second : ℕ
  pub microsecond : ℕ
  pub offset : Option ℤ

abbrev pub utc : Option ℤ
utc = some (pos 0)

-- datetime(d.year, d.month, d.day, tzinfo=UTC)
abbrev pub midnight_utc : Date → DateTime
midnight_utc d = record {
  date = d;
  hour = 0;
  minute = 0;
  second = 0;
  microsecond = 0;
  offset = utc;
}

-- value.replace(tzinfo=UTC)
abbrev pub with_utc : DateTime → DateTime
with_utc t = record t { offset = utc }

is_leap : ℕ → Bool
is_leap y = y % 4 == 0 && (not (y % 100 == 0) || y % 400 == 0)

days_in_month : ℕ → ℕ → ℕ
unfolding is_leap
days_in_month y m =
    if m == 2
    then (if is_leap y then 29 else 28)
    else if m == 4 || m == 6 || m == 9 || m == 11
    then 30
    else 31

-- The days of the year `y` before its month `m`.
days_before_month : ℕ → ℕ → ℕ
unfolding days_in_month
days_before_month y zero = 0
days_before_month y (suc m) = days_before_month y m + (if m == 0 then 0 else days_in_month y m)

-- date.toordinal()
unfoldable pub ordinal : Date → ℕ
unfolding days_before_month
ordinal d =
    let y = d.year - 1 in
    y * 365 + y / 4 - y / 100 + y / 400 + days_before_month d.year d.month + d.day

-- The seconds of the local time since the first ordinal day.
local_seconds : DateTime → ℕ
unfolding ordinal
local_seconds t = ((ordinal t.date * 24 + t.hour) * 60 + t.minute) * 60 + t.second

-- A naive time counts as one in UTC.
abbrev offset_of : DateTime → ℤ
offset_of t = elim t.offset [ none ↦ pos 0 | some o ↦ o ]

-- Whether two times are the same instant, as a `timestamptz` column compares them: the local seconds
-- less the offsets.
unfoldable pub same_instant : DateTime → DateTime → Bool
unfolding local_seconds
same_instant a b =
    local_seconds a + pos_part (offset_of b) + neg_part (offset_of a)
      == local_seconds b + pos_part (offset_of a) + neg_part (offset_of b)
    && a.microsecond == b.microsecond

pub same_instant_self : (t : DateTime) → same_instant t t ≡ Bool.true
unfolding same_instant
same_instant_self t = ground arith

test_same_instant :
    same_instant
      (record {
        date = record { year = 2026; month = 3; day = 1 };
        hour = 0;
        minute = 10;
        second = 0;
        microsecond = 0;
        offset = some (pos 19800);
      })
      (record {
        date = record { year = 2026; month = 2; day = 28 };
        hour = 18;
        minute = 40;
        second = 0;
        microsecond = 0;
        offset = utc;
      })
    ≡ Bool.true
unfolding same_instant
test_same_instant = refl

-- What `date(y, m, d)` accepts.
unfoldable pub is_date : Date → Bool
unfolding days_in_month
is_date d =
    leb 1 d.year
    && leb d.year 9999
    && leb 1 d.month
    && leb d.month 12
    && leb 1 d.day
    && leb d.day (days_in_month d.year d.month)

-- A literal character, `T` in either case, and `\s+` for a space, beside the directives.
pub data Directive : Type 0 where
  year month day hour minute second zone tee blank : Directive
  literal : ℕ → Directive

-- One alternative: the range of code points at each place.
abbrev Alternative : Type 0
Alternative = List (ℕ × ℕ)

abbrev char_range : ℕ → ℕ × ℕ
char_range c = (c, c)

abbrev digit : ℕ × ℕ
digit = (b'0', b'9')

two_digits : ℕ → ℕ → ℕ → ℕ → Alternative
two_digits a b c d = (a, b) ∷ (c, d) ∷ []

-- `(\.\d{1,6})?`, the longest first.
fractions : List Alternative
fractions =
    map (λ ds. char_range b'.' ∷ ds)
      ((digit ∷ digit ∷ digit ∷ digit ∷ digit ∷ digit ∷ [])
        ∷ (digit ∷ digit ∷ digit ∷ digit ∷ digit ∷ [])
        ∷ (digit ∷ digit ∷ digit ∷ digit ∷ [])
        ∷ (digit ∷ digit ∷ digit ∷ [])
        ∷ (digit ∷ digit ∷ [])
        ∷ (digit ∷ [])
        ∷ [])
    ++ [] ∷ []

-- Every choice from the first followed by every choice from the second, in order.
sequence : List Alternative → List Alternative → List Alternative
sequence [] bs = []
sequence (a ∷ as') bs = map (λ b. a ++ b) bs ++ sequence as' bs

-- Offsets of less than a day, with or without colons, and `Z`.
zones : List Alternative
unfolding sequence fractions two_digits
zones =
    sequence ((char_range b'+' ∷ []) ∷ (char_range b'-' ∷ []) ∷ []) (
      sequence (two_digits b'0' b'1' b'0' b'9' ∷ two_digits b'2' b'2' b'0' b'3' ∷ []) (
        sequence ((char_range b':' ∷ sixty) ∷ [])
          (sequence ((char_range b':' ∷ sixty) ∷ []) fractions ++ [] ∷ [])
        ++ sequence (sixty ∷ []) (sequence (sixty ∷ []) fractions ++ [] ∷ [])))
    ++ (char_range b'Z' ∷ []) ∷ []
  where
    sixty : Alternative
    sixty = (b'0', b'5') ∷ digit ∷ []

alternatives : Directive → List Alternative
unfolding two_digits zones
alternatives Directive.year = (digit ∷ digit ∷ digit ∷ digit ∷ []) ∷ []
alternatives Directive.month =
    two_digits b'1' b'1' b'0' b'2' ∷ two_digits b'0' b'0' b'1' b'9' ∷ ((b'1', b'9') ∷ []) ∷ []
alternatives Directive.day =
    two_digits b'3' b'3' b'0' b'1'
    ∷ two_digits b'1' b'2' b'0' b'9'
    ∷ two_digits b'0' b'0' b'1' b'9'
    ∷ ((b'1', b'9') ∷ [])
    ∷ two_digits b' ' b' ' b'1' b'9'
    ∷ []
alternatives Directive.hour =
    two_digits b'2' b'2' b'0' b'3' ∷ two_digits b'0' b'1' b'0' b'9' ∷ (digit ∷ []) ∷ []
alternatives Directive.minute = two_digits b'0' b'5' b'0' b'9' ∷ (digit ∷ []) ∷ []
alternatives Directive.second =
    two_digits b'6' b'6' b'0' b'1' ∷ two_digits b'0' b'5' b'0' b'9' ∷ (digit ∷ []) ∷ []
alternatives Directive.zone = zones
alternatives Directive.tee = (char_range b'T' ∷ []) ∷ (char_range b't' ∷ []) ∷ []
alternatives Directive.blank = []
alternatives (literal c) = (char_range c ∷ []) ∷ []

-- The number read, with a blank for a zero, and the text behind it.
match_alternative : Alternative → ℕ → String → Option (ℕ × String)
match_alternative [] n s = some (n, s)
match_alternative (r ∷ rs) n String.[] = none
match_alternative (r ∷ rs) n (String.◌∷◌ c s) =
    if leb r.0 (code c) && leb (code c) r.1
    then match_alternative rs (n * 10 + (code c - 48)) s
    else none

match_all : List Alternative → String → List (ℕ × String)
unfolding match_alternative
match_all [] s = []
match_all (a ∷ as') s =
    let rest = match_all as' s in elim (match_alternative a 0 s) [ none ↦ rest | some m ↦ m ∷ rest ]

match_blank : String → List (ℕ × String)
unfolding lstrip is_space
match_blank String.[] = []
match_blank (String.◌∷◌ c s) = if is_space (code c) then (0, lstrip s) ∷ [] else []

match_directive : Directive → String → List (ℕ × String)
unfolding match_all match_blank alternatives
match_directive Directive.blank s = match_blank s
match_directive d s = match_all (alternatives d) s

-- strptime's defaults are those of 1900-01-01.
abbrev epoch : DateTime
epoch = record {
  date = record { year = 1900; month = 1; day = 1 };
  hour = 0;
  minute = 0;
  second = 0;
  microsecond = 0;
  offset = none;
}

store : Directive → ℕ → DateTime → DateTime
store Directive.year n t = record t { date = record (t.date) { year = n } }
store Directive.month n t = record t { date = record (t.date) { month = n } }
store Directive.day n t = record t { date = record (t.date) { day = n } }
store Directive.hour n t = record t { hour = n }
store Directive.minute n t = record t { minute = n }
store Directive.second n t = record t { second = n }
store _ n t = t

collect :
    (DateTime → String → List (DateTime × String))
    → Directive
    → DateTime
    → List (ℕ × String)
    → List (DateTime × String)
unfolding store
collect go d t [] = []
collect go d t ((n, rest) ∷ ms) = go (store d n t) rest ++ collect go d t ms

-- The matches of a format, in the order in which the regular expression tries them.
matches : List Directive → DateTime → String → List (DateTime × String)
unfolding collect match_directive
matches [] t s = (t, s) ∷ []
matches (d ∷ ds) t s = collect (λ t' rest. matches ds t' rest) d t (match_directive d s)

checked : List (DateTime × String) → Option DateTime
unfolding is_date
checked [] = none
checked ((t, String.[]) ∷ ms) = if is_date t.date && leb t.second 59 then some t else none
checked ((t, String.◌∷◌ c s) ∷ ms) = none

-- datetime.strptime(s, fmt); `none` is ValueError. The offset that %z reads is not kept, since the
-- program replaces it.
unfoldable pub strptime : List Directive → String → Option DateTime
unfolding matches checked
strptime fmt s = checked (matches fmt epoch s)

abbrev compact : List Directive
compact = Directive.year ∷ Directive.month ∷ Directive.day ∷ []

test_backtrack :
    strptime compact "202411"
    ≡ some (record epoch { date = record { year = 2024; month = 1; day = 1 } })
unfolding strptime
test_backtrack = refl
