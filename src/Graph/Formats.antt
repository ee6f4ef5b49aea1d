-- ===== src/Graph/Formats.antt =====
-- src/call-validator.ts: `matchesFormat`. A regular expression over fixed places is a list of
-- classes of code points; whether `new URL` accepts a text is a parameter.
use Prim.Native.Nat.{◌%◌}
use Prim.Native.Char.{code}
use superset_agent_orchestra.Base.{
  ℕ, zero, suc, ◌+◌, ◌*◌, ◌-◌, String, Bool, true, false, ◌&&◌, ◌||◌, not, List, [], ◌∷◌, ◌++◌,
  length, drop, take, ltb, leb, ◌==◌, if◌then◌else◌, nat_eq, is_space,
}
use superset_agent_orchestra.Graph.Schema.{Format, date_time, email, uri, uuid}

abbrev pub codes : String → List ℕ
codes String.[] = []
codes (String.◌∷◌ c s) = code c ∷ codes s

abbrev Class : Type 0
Class = ℕ → Bool

abbrev is_digit : Class
is_digit c = leb b'0' c && leb c b'9'

-- `[0-9a-f]` with the flag i
abbrev is_hex : Class
is_hex c = is_digit c || (leb b'a' c && leb c b'f') || (leb b'A' c && leb c b'F')

abbrev one_of : List ℕ → Class
one_of [] c = false
one_of (d ∷ ds) c = c == d || one_of ds c

-- The text begins with one code point of each class.
unfoldable pub begins : List (ℕ → Bool) → List ℕ → Bool
begins [] cs = true
begins (p ∷ ps) [] = false
begins (p ∷ ps) (c ∷ cs) = p c && begins ps cs

abbrev pub times : ℕ → (ℕ → Bool) → List (ℕ → Bool)
times zero p = []
times (suc n) p = p ∷ times n p

abbrev dash : List Class
dash = (λ c. c == b'-') ∷ []

-- 8-4-4-4-12 digits, where the version is 1 to 5 and the variant 8, 9, a or b.
abbrev uuid_places : List Class
uuid_places =
    times 8 is_hex
    ++ dash
    ++ times 4 is_hex
    ++ dash
    ++ times 1 (λ c. leb b'1' c && leb c b'5')
    ++ times 3 is_hex
    ++ dash
    ++ times 1 (one_of (b'8' ∷ b'9' ∷ b'a' ∷ b'b' ∷ b'A' ∷ b'B' ∷ []))
    ++ times 3 is_hex
    ++ dash
    ++ times 12 is_hex

unfoldable pub is_uuid : List ℕ → Bool
unfolding begins
is_uuid cs = begins uuid_places cs && length cs == 36

-- `[^\s@]`
abbrev is_plain : Class
is_plain c = not (is_space c) && not (c == b'@')

unfoldable pub all_plain : List ℕ → Bool
all_plain [] = true
all_plain (c ∷ cs) = is_plain c && all_plain cs

abbrev is_empty : List ℕ → Bool
is_empty [] = true
is_empty (_ ∷ _) = false

-- `[^\s@]*\.[^\s@]+`, after the first character of the domain
unfoldable pub is_dotted : List ℕ → Bool
unfolding all_plain
is_dotted [] = false
is_dotted (c ∷ cs) =
    is_plain c && ((c == b'.' && not (is_empty cs) && all_plain cs) || is_dotted cs)

abbrev is_domain : List ℕ → Bool
unfolding is_dotted
is_domain [] = false
is_domain (c ∷ cs) = is_plain c && is_dotted cs

-- The part before the `@`; `seen` says whether it has a character yet.
unfoldable pub is_address : Bool → List ℕ → Bool
unfolding is_dotted
is_address seen [] = false
is_address seen (c ∷ cs) =
    if c == b'@' then seen && is_domain cs else not (is_space c) && is_address true cs

abbrev decimal : ℕ → List ℕ → ℕ
decimal n [] = n
decimal n (c ∷ cs) = decimal (n * 10 + (c - b'0')) cs

abbrev number_at : ℕ → ℕ → List ℕ → ℕ
number_at from size cs = decimal 0 (take size (drop from cs))

abbrev colon : List Class
colon = (λ c. c == b':') ∷ []

abbrev date_places : List Class
date_places =
    times 4 is_digit
    ++ dash
    ++ times 2 is_digit
    ++ dash
    ++ times 2 is_digit
    ++ times 1 (λ c. c == b'T')
    ++ times 2 is_digit
    ++ colon
    ++ times 2 is_digit
    ++ colon
    ++ times 2 is_digit

abbrev pub is_leap : ℕ → Bool
is_leap year = (year % 4 == 0 && not (year % 100 == 0)) || year % 400 == 0

-- The last day of a month. `Date.UTC` takes a year below 100 as one of the twentieth century.
abbrev pub days_in_month : ℕ → ℕ → ℕ
days_in_month year month =
    let counted = if ltb year 100 then 1900 + year else year in
    if month == 2
    then (if is_leap counted then 29 else 28)
    else if one_of (4 ∷ 6 ∷ 9 ∷ 11 ∷ []) month
    then 30
    else 31

-- What follows the digits that a text begins with.
unfoldable pub skip_digits : List ℕ → List ℕ
skip_digits [] = []
skip_digits (c ∷ cs) = let rest = skip_digits cs in if is_digit c then rest else c ∷ cs

-- `(?:\.\d+)?`
abbrev skip_fraction : List ℕ → List ℕ
unfolding skip_digits
skip_fraction (c ∷ d ∷ cs) = if c == b'.' && is_digit d then skip_digits cs else c ∷ d ∷ cs
skip_fraction cs = cs

-- `Z|[+-]\d{2}:\d{2}`, with hours and minutes in range
abbrev is_zone : List ℕ → Bool
unfolding begins
is_zone cs =
    (begins (times 1 (λ c. c == b'Z')) cs && length cs == 1)
    || (begins
          (times 1 (one_of (b'+' ∷ b'-' ∷ [])) ++ times 2 is_digit ++ colon ++ times 2 is_digit) cs
        && length cs == 6
        && leb (number_at 1 2 cs) 23
        && leb (number_at 4 2 cs) 59)

unfoldable pub is_date_time : List ℕ → Bool
unfolding begins skip_digits
is_date_time cs =
    let month = number_at 5 2 cs in
    let day = number_at 8 2 cs in
    begins date_places cs
    && is_zone (skip_fraction (drop 19 cs))
    && leb 1 month
    && leb month 12
    && leb (number_at 11 2 cs) 23
    && leb (number_at 14 2 cs) 59
    && leb (number_at 17 2 cs) 59
    && leb 1 day
    && leb day (days_in_month (number_at 0 4 cs) month)

unfoldable pub matches_format : (String → Bool) → String → Format → Bool
unfolding is_address is_uuid is_date_time
matches_format parses_url value email = is_address false (codes value)
matches_format parses_url value uuid = is_uuid (codes value)
matches_format parses_url value uri = parses_url value
matches_format parses_url value date_time = is_date_time (codes value)
