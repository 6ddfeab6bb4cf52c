-- ===== src/Scheduling/Runtime/Minutes.antt =====
-- Times in UTC and the minutes that they lie in.
use runlet.Prelude.{Bool, ◌≡◌, sym, ◌∙◌, some, nat_eq, list_eq, Result, ok, arith}
use runlet.Scheduling.Clock.{DateTime, to_utc, minute_key}
use runlet.Scheduling.Policies.{Tables}
use runlet.Scheduling.Runtime.Trigger.{UuidError, normalize_time, policy_minute}

pub minute_key-normalize_time : (at : DateTime) → minute_key (normalize_time at) ≡ minute_key at
unfolding minute_key normalize_time to_utc
minute_key-normalize_time at = omega arith

pub same_policy_minute :
    (at at' : DateTime)
    → minute_key at' ≡ minute_key at
    → policy_minute (some (normalize_time at)) ≡ policy_minute (some (normalize_time at'))
unfolding policy_minute
same_policy_minute at at' h =
    minute_key-normalize_time at ∙ sym h ∙ sym (minute_key-normalize_time at')

pub ok_injective :
    {a b : Bool × Tables} → ◌≡◌ {A = Result UuidError (Bool × Tables)} (ok a) (ok b) → a ≡ b
ok_injective h = cc

-- A time in UTC stays as it is.
pub normalize_time_idem : (at : DateTime) → normalize_time (normalize_time at) ≡ normalize_time at
unfolding normalize_time to_utc
normalize_time_idem at = ground arith
