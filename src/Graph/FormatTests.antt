-- ===== src/Graph/FormatTests.antt =====
-- Runs of the model of the formats of the call validator.
use superset_agent_orchestra.Base.{true, false, ◌≡◌, refl}
use superset_agent_orchestra.Graph.Schema.{date_time, email, uuid}
use superset_agent_orchestra.Graph.Formats.{matches_format}

-- 2000 was a leap year and 2023 was not; a leap second and the hour 24 are refused.
dates :
    (matches_format (λ _. true) "2000-02-29T23:59:59Z" date_time ≡ true)
    × (matches_format (λ _. true) "2023-02-28T23:59:59.125+05:30" date_time ≡ true)
    × (matches_format (λ _. true) "2023-02-29T00:00:00Z" date_time ≡ false)
    × (matches_format (λ _. true) "2023-04-31T00:00:00Z" date_time ≡ false)
    × (matches_format (λ _. true) "2023-06-30T23:59:60Z" date_time ≡ false)
    × (matches_format (λ _. true) "2023-06-30T23:59:59.Z" date_time ≡ false)
    × (matches_format (λ _. true) "2023-06-30T23:59:59+24:00" date_time ≡ false)
unfolding matches_format
dates = (refl, refl, refl, refl, refl, refl, refl)

-- The year 0000 is a leap year of the calendar, and its 29 February is refused.
year_zero : matches_format (λ _. true) "0000-02-29T00:00:00Z" date_time ≡ false
unfolding matches_format
year_zero = refl

addresses :
    (matches_format (λ _. true) "a@b.c" email ≡ true)
    × (matches_format (λ _. true) "a@..c" email ≡ true)
    × (matches_format (λ _. true) "@b.c" email ≡ false)
    × (matches_format (λ _. true) "a@b." email ≡ false)
    × (matches_format (λ _. true) "a@b@c.d" email ≡ false)
unfolding matches_format
addresses = (refl, refl, refl, refl, refl)

identifiers :
    (matches_format (λ _. true) "123e4567-e89b-12d3-A456-426614174000" uuid ≡ true)
    × (matches_format (λ _. true) "123e4567-e89b-62d3-a456-426614174000" uuid ≡ false)
    × (matches_format (λ _. true) "123e4567-e89b-12d3-a456-4266141740001" uuid ≡ false)
unfolding matches_format
identifiers = (refl, refl, refl)
