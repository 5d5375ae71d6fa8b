-- ===== src/Bookings/Labels.antt =====
-- `slot_label` and `exception_slot_label` of apps/bookings/services.py.
use Prim.Native.String.{◌++◌ as join}
use ticketmirror.Base.{
  ℕ, ◌/◌, ◌%◌, String, Bool, true, false, Option, none, some, ◌≡◌, refl, if◌then◌else◌,
}
use ticketmirror.Data.{
  SlotType, fixed_time, half_day, full_day, open_time, private_group, ActivityScheduleSlot,
  ActivityScheduleException,
}
use ticketmirror.Polling.Decimal.{digit}

abbrev pub two_digits : ℕ → String → String
two_digits n rest = String.◌∷◌ (digit (n / 10)) (String.◌∷◌ (digit (n % 10)) rest)

-- `time.strftime("%H:%M")` of the microseconds since midnight
unfoldable pub hours_minutes : ℕ → String
hours_minutes t = two_digits (t / 3600000000) (String.◌∷◌ ":" (two_digits (t / 60000000 % 60) ""))

abbrev pub slot_type_display : SlotType → String
slot_type_display fixed_time = "Fixed time"
slot_type_display half_day = "Half day"
slot_type_display full_day = "Full day"
slot_type_display open_time = "Open time"
slot_type_display private_group = "Private group"

abbrev pub shows_type : SlotType → Bool
shows_type fixed_time = false
shows_type _ = true

unfoldable pub slot_label : Option ActivityScheduleSlot → String
unfolding hours_minutes
slot_label none = "Open"
slot_label (some slot) =
    if shows_type slot.slot_type
    then join (hours_minutes slot.start_time) (join " " (slot_type_display slot.slot_type))
    else hours_minutes slot.start_time

abbrev pub extra_label : Option ℕ → String
unfolding hours_minutes
extra_label none = "Extra slot"
extra_label (some t) = join (hours_minutes t) " Extra slot"

unfoldable pub exception_slot_label : ActivityScheduleException → String
unfolding hours_minutes
exception_slot_label e = extra_label e.start_time

half_past_nine : hours_minutes 34200000000 ≡ "09:30"
unfolding hours_minutes
half_past_nine = refl
