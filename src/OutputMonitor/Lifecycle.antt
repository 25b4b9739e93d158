-- ===== src/OutputMonitor/Lifecycle.antt =====
-- The monitor's descriptors and its thread come and go together.
use hardware_floral_codec.Common.{
  ℕ, Bool, true, false, Option, none, some, List, [], ◌∷◌, if◌then◌else◌,
}
use hardware_floral_codec.Common.Int.{ℤ}
use hardware_floral_codec.OutputMonitor.{
  Monitor, monitor, new_monitor, reset, start_watching, start, stop, Event, watch, watch_loop,
}

-- A monitor has a thread and both descriptors, or it has neither and no error.
pub data IsConsistent : Monitor → Type 0 where
  idle : {stopping : Bool} → IsConsistent (monitor none none false stopping 0)
  watching :
      {device wake error : ℕ} {stopping : Bool}
      → IsConsistent (monitor (some device) (some wake) true stopping error)

start_watching-IsConsistent :
    (d e : Option ℕ) (stopping : Bool)
    → IsConsistent (start_watching d e (monitor none none false stopping 0)).0
unfolding start_watching
start_watching-IsConsistent none e stopping = idle
start_watching-IsConsistent (some d) none stopping = idle
start_watching-IsConsistent (some d) (some e) stopping = watching

pub start-IsConsistent : (d e : ℤ) (m : Monitor) → IsConsistent m → IsConsistent (start d e m).0
unfolding start
start-IsConsistent d e m idle = start_watching-IsConsistent (reset d) (reset e) _
start-IsConsistent d e m watching = watching

-- The thread, where there is one, over some events: `error_` is what its loop leaves in it.
abbrev pub watched : List Event → Monitor → Monitor
watched events m =
    if m.joinable
    then record m { error = (watch_loop events (watch true m.error true)).0.error }
    else m

-- What a monitor goes through: a start with what the system gave, events that its thread meets, or
-- a stop.
pub data Call : Type 0 where
  starts : ℤ → ℤ → Call
  meets : List Event → Call
  stops : Call

unfoldable pub after : List Call → Monitor → Monitor
unfolding start stop watch_loop
after [] m = m
after (starts d e ∷ calls) m = after calls (start d e m).0
after (meets events ∷ calls) m = after calls (watched events m)
after (stops ∷ calls) m = after calls (stop m)

watched-IsConsistent :
    (events : List Event) (m : Monitor) → IsConsistent m → IsConsistent (watched events m)
watched-IsConsistent events m idle = idle
watched-IsConsistent events m watching = watching

stop-IsConsistent : (m : Monitor) → IsConsistent (stop m)
unfolding stop
stop-IsConsistent m = idle

after-IsConsistent_from :
    (calls : List Call) (m : Monitor) → IsConsistent m → IsConsistent (after calls m)
unfolding after
after-IsConsistent_from [] m c = c
after-IsConsistent_from (starts d e ∷ calls) m c =
    after-IsConsistent_from calls (start d e m).0 (start-IsConsistent d e m c)
after-IsConsistent_from (meets events ∷ calls) m c =
    after-IsConsistent_from calls (watched events m) (watched-IsConsistent events m c)
after-IsConsistent_from (stops ∷ calls) m c =
    after-IsConsistent_from calls (stop m) (stop-IsConsistent m)

-- Whatever starts, events that its thread meets, and stops a new monitor goes through, in any
-- order, it has a thread and both descriptors, or it has none of them and no error.
pub after-IsConsistent : (calls : List Call) → IsConsistent (after calls new_monitor)
after-IsConsistent calls = after-IsConsistent_from calls new_monitor idle
