-- ===== src/OutputMonitor.antt =====
-- src/V4l2OutputMonitor.h: the thread that watches a capture queue, and its start and stop.
pub mod Notifications
pub mod Lifecycle
mod Examples
use hardware_floral_codec.Common.{
  ℕ, zero, suc, ◌+◌, Bool, true, false, ◌||◌, Option, none, some, List, [], ◌∷◌, ◌==◌,
  if◌then◌else◌,
}
use hardware_floral_codec.Common.Int.{ℤ, pos, negsuc}

-- The variables of the thread's loop: `armed`, `error_`, and whether the loop still runs.
pub record Watch : Type 0 where
  pub armed : Bool
  pub error : ℕ
  pub running : Bool

abbrev pub watch : Bool → ℕ → Bool → Watch
watch armed error running = record { armed = armed; error = error; running = running }

-- The `revents` of the capture queue: POLLIN, and any of POLLERR, POLLHUP and POLLNVAL.
pub record Revents : Type 0 where
  pub readable : Bool
  pub broken : Bool

-- How a turn of the loop meets its surroundings: `stopping_` is seen at the head of the loop or
-- behind poll; poll is interrupted and called again; poll fails with an errno; or it returns with
-- the wake descriptor readable or not and the `revents` of the queue. The last two carry what
-- `requestDrain` would give back.
pub data Event : Type 0 where
  stop_at_head stop_behind_poll interrupted : Event
  poll_failed : ℕ → Bool → Event
  polled : Bool → Revents → Bool → Event

abbrev pub eio : ℕ
eio = 5

-- `if (error_ != 0) { requestDrain(); break; }`, else the rest of the turn. Each function gives
-- the watch afterwards and how many times `requestDrain` was called.
unfoldable pub on_error : Watch → Watch × ℕ → Watch × ℕ
on_error w rest = if w.error == 0 then rest else (watch w.armed w.error false, 1)

-- The wake descriptor arms the watch; a readable queue disarms it and asks for a drain, and ends
-- the loop where that is refused.
unfoldable pub on_ready : Bool → Bool → Bool → Watch → Watch × ℕ
on_ready wake readable accepted w =
    let armed = if wake then true else w.armed in
    if readable then (watch false w.error accepted, 1) else (watch armed w.error true, 0)

-- One turn of the thread's loop.
unfoldable pub turn : Event → Watch → Watch × ℕ
unfolding on_error on_ready
turn stop_at_head w = (watch w.armed w.error false, 0)
turn stop_behind_poll w = (watch w.armed w.error false, 0)
turn interrupted w = (w, 0)
turn (poll_failed errno accepted) w =
    let failed = watch w.armed errno true in on_error failed (failed, 0)
turn (polled wake revents accepted) w =
    let seen = watch w.armed (if revents.broken then eio else w.error) true in
    on_error seen (on_ready wake revents.readable accepted seen)

-- The thread over the events it meets, and the drains that it asks for in all.
unfoldable pub watch_loop : List Event → Watch → Watch × ℕ
unfolding turn
watch_loop [] w = (w, 0)
watch_loop (e ∷ es) w =
    let (w', asked) = turn e w in
    let (w'', more) = watch_loop es w' in if w.running then (w'', asked + more) else (w, 0)

-- The members of the monitor. A descriptor is `none` where its `unique_fd` holds none.
pub record Monitor : Type 0 where
  pub device : Option ℕ
  pub wake : Option ℕ
  pub joinable : Bool
  pub stopping : Bool
  pub error : ℕ

abbrev pub monitor : Option ℕ → Option ℕ → Bool → Bool → ℕ → Monitor
monitor device wake joinable stopping error = record {
  device = device;
  wake = wake;
  joinable = joinable;
  stopping = stopping;
  error = error;
}

abbrev pub new_monitor : Monitor
new_monitor = monitor none none false false 0

-- `unique_fd::reset` with what a call gave back.
abbrev pub reset : ℤ → Option ℕ
reset (pos fd) = some fd
reset (negsuc n) = none

unfoldable pub start_watching : Option ℕ → Option ℕ → Monitor → Monitor × Bool
start_watching none wake m = (monitor none m.wake m.joinable m.stopping m.error, false)
start_watching (some device) none m = (monitor none none m.joinable m.stopping m.error, false)
start_watching (some device) (some wake) m = (monitor (some device) (some wake) true false 0, true)

-- `Start`, with what `fcntl` and `eventfd` give back.
unfoldable pub start : ℤ → ℤ → Monitor → Monitor × Bool
unfolding start_watching
start duplicated event m =
    if m.joinable then (m, true) else start_watching (reset duplicated) (reset event) m

-- What `write` gives back: the bytes written, or an errno.
pub data Written : Type 0 where
  bytes : ℕ → Written
  write_error : ℕ → Written

abbrev pub eintr : ℕ
eintr = 4

abbrev pub eagain : ℕ
eagain = 11

-- The loop of `Rearm` over what its calls of `write` give back. `none`: the calls go on.
unfoldable pub write_loop : List Written → Option Bool
write_loop [] = none
write_loop (bytes n ∷ later) = some (n == 8)
write_loop (write_error e ∷ later) =
    let again = write_loop later in if e == eintr then again else some (e == eagain)

-- `Rearm`.
unfoldable pub rearm : List Written → Monitor → Option Bool
unfolding write_loop
rearm calls m = elim m.wake [ none ↦ some true | some fd ↦ write_loop calls ]

-- `Stop`: the thread is joined, and the descriptors are closed.
unfoldable pub stop : Monitor → Monitor
stop m = monitor none none false true 0
