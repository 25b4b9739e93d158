-- ===== src/OutputMonitor/Notifications.antt =====
-- How often the thread asks for a drain.
use hardware_floral_codec.Common.{
  ℕ, suc, ◌+◌, ◌≤◌, ◌≡◌, ◌≢◌, refl, Bool, true, false, List, [], ◌∷◌, arith, if◌then◌else◌,
  Bool-cases, ℕ-cases, inl, inr,
}
use hardware_floral_codec.OutputMonitor.{
  Watch, Event, stop_at_head, stop_behind_poll, interrupted, poll_failed, polled, on_error,
  on_ready, turn, watch_loop,
}

-- What poll documents: a descriptor of -1 is left out, and its `revents` are empty. A watch that
-- is not armed passes -1 for the queue. An errno is not 0.
abbrev pub Obeys : Bool → Event → Type 0
Obeys armed (polled wake revents accepted) =
    armed ≡ false → (revents.readable ≡ false) × (revents.broken ≡ false)
Obeys armed (poll_failed errno accepted) = errno ≢ 0
Obeys armed stop_at_head = Unit {0}
Obeys armed stop_behind_poll = Unit {0}
Obeys armed interrupted = Unit {0}

unfoldable pub Follows : Watch → List Event → Type 0
Follows w [] = Unit {0}
Follows w (e ∷ es) = Obeys w.armed e × Follows (turn e w).0 es

abbrev pub wakes_of : Event → ℕ
wakes_of (polled true revents accepted) = 1
wakes_of (polled false revents accepted) = 0
wakes_of (poll_failed errno accepted) = 0
wakes_of stop_at_head = 0
wakes_of stop_behind_poll = 0
wakes_of interrupted = 0

-- How many times the wake descriptor is readable, one for each acknowledgement or fewer.
pub wakes : List Event → ℕ
wakes [] = 0
wakes (e ∷ es) = wakes_of e + wakes es

abbrev pub credit : Bool → ℕ
credit armed = if armed then 1 else 0

-- A turn without an error pays for its drain.
turn-credit :
    (e : Event) (w : Watch)
    → Obeys w.armed e
    → (turn e w).0.error ≡ 0
    → (turn e w).1 + credit (turn e w).0.armed ≤ credit w.armed + wakes_of e
unfolding turn on_error on_ready
turn-credit stop_at_head w o h = ground arith
turn-credit stop_behind_poll w o h = ground arith
turn-credit interrupted w o h = ground arith
turn-credit (poll_failed errno accepted) w o h = ground arith
turn-credit (polled true revents accepted) w o h = ground arith
turn-credit (polled false revents accepted) w o h = elim (Bool-cases w.armed) [
  | inl armed ↦ ground arith
  | inr not_armed ↦ let (r, b) = o not_armed in ground arith
]

turn-error :
    (e : Event) (w : Watch)
    → (turn e w).0.error ≢ 0
    → w.error ≡ 0
    → ((turn e w).0.running ≡ false) × ((turn e w).1 ≡ 1)
unfolding turn on_error on_ready
turn-error stop_at_head w h z = ground arith
turn-error stop_behind_poll w h z = ground arith
turn-error interrupted w h z = ground arith
turn-error (poll_failed errno accepted) w h z = ground arith
turn-error (polled wake revents accepted) w h z = ground arith

stopped_loop : (es : List Event) (w : Watch) → w.running ≡ false → watch_loop es w ≡ (w, 0)
unfolding watch_loop
stopped_loop [] w h = refl
stopped_loop (e ∷ es) w h = rw h refl

running_loop :
    (e : Event) (es : List Event) (w : Watch)
    → w.running ≡ true
    → watch_loop (e ∷ es) w
      ≡ ((watch_loop es (turn e w).0).0, (turn e w).1 + (watch_loop es (turn e w).0).1)
unfolding watch_loop
running_loop e es w h = rw h refl

ended_error :
    (es : List Event) (w : Watch) (n : ℕ)
    → w.running ≡ false
    → w.error ≡ suc n
    → (watch_loop es w).0.error ≢ 0
ended_error es w n off failed h = omega (arith, rw (stopped_loop es w off) at h)

-- As long as no error is seen, from the start on, the thread asks for at most one drain to begin
-- with, if it is armed, and one more for each time that its wake descriptor is readable, given
-- that poll reports nothing for a descriptor of -1 and that an errno is not 0.
pub watch_loop_bounded :
    (es : List Event) (w : Watch)
    → Follows w es
    → w.error ≡ 0
    → (watch_loop es w).0.error ≡ 0
    → (watch_loop es w).1 ≤ credit w.armed + wakes es
unfolding watch_loop Follows wakes
watch_loop_bounded [] w f z h = omega arith
watch_loop_bounded (e ∷ es) w f z h = elim (Bool-cases w.running) [
  | inr off ↦ rw (stopped_loop (e ∷ es) w off) (omega arith)
  | inl on ↦ elim (ℕ-cases (turn e w).0.error) [
    | inl none_yet ↦
        let ih =
          watch_loop_bounded es (turn e w).0 f.1 none_yet (rw (running_loop e es w on) at h) in
        let paid = turn-credit e w f.0 none_yet in rw (running_loop e es w on) (omega arith)
    | inr (n, failed) ↦
        let (ended, _) = turn-error e w (rw failed (λ q. cc)) z in
        absurd (ended_error es (turn e w).0 n ended failed (rw (running_loop e es w on) at h))
  ]
]

-- Where the thread begins with no error and ends up with one, it has asked for a drain and its
-- loop has ended.
pub watch_loop_error :
    (es : List Event) (w : Watch)
    → w.error ≡ 0
    → (watch_loop es w).0.error ≢ 0
    → ((watch_loop es w).0.running ≡ false) × (1 ≤ (watch_loop es w).1)
unfolding watch_loop
watch_loop_error [] w z h = absurd (h z)
watch_loop_error (e ∷ es) w z h = elim (Bool-cases w.running) [
  | inr off ↦ absurd ((rw (stopped_loop (e ∷ es) w off) at h) z)
  | inl on ↦ elim (ℕ-cases (turn e w).0.error) [
    | inl none_yet ↦
        let (ended, asked) =
          watch_loop_error es (turn e w).0 none_yet (rw (running_loop e es w on) at h) in
        rw (running_loop e es w on) (ended, omega arith)
    | inr (n, failed) ↦
        let (ended, asked) = turn-error e w (rw failed (λ q. cc)) z in
        rw (running_loop e es w on) (rw (stopped_loop es (turn e w).0 ended) (ended, omega arith))
  ]
]
