-- ===== src/Scheduling/Uuids/Tests.antt =====
-- UUIDs written and read.
use runlet.Prelude.{ℕ, ◌≡◌, refl, none, some, text, arith}
use runlet.Scheduling.Jobs.Publish.{uuid_text}
use runlet.Scheduling.Uuids.Parse.{parse_uuid}

uuid_written : uuid_text 3735928559 ≡ text "00000000-0000-0000-0000-0000deadbeef"
unfolding uuid_text
uuid_written = refl

urn_read : parse_uuid (text "urn:uuid:{000000000000000000000000DEADBEEF}") ≡ some 3735928559
unfolding parse_uuid runlet.Prelude.list_beq runlet.Prelude.take runlet.Prelude.drop
urn_read = refl

short_refused : parse_uuid (text "deadbeef") ≡ none
unfolding parse_uuid runlet.Prelude.list_beq runlet.Prelude.take
short_refused = refl
