-- ===== src/OutputMonitor/Examples.antt =====
-- Runs of the monitor.
use hardware_floral_codec.Common.{◌+◌, ◌≤◌, ◌≡◌, ◌≢◌, refl, true, false, List, [], ◌∷◌, arith}
use hardware_floral_codec.Common.Int.{pos, negsuc}
use hardware_floral_codec.OutputMonitor.{
  start, start_watching, on_error, on_ready, Watch, watch, Revents, Event, interrupted, poll_failed,
  polled, turn, watch_loop, new_monitor,
}
use hardware_floral_codec.OutputMonitor.Notifications.{Follows, wakes, credit, watch_loop_bounded}
use hardware_floral_codec.OutputMonitor.Lifecycle.{
  IsConsistent, starts, meets, stops, after, after-IsConsistent,
}

abbrev silent : Revents
silent = record { readable = false; broken = false }

abbrev readable : Revents
readable = record { readable = true; broken = false }

abbrev fresh : Watch
fresh = watch true 0 true

-- The queue has a frame, the component drains it, and there is another.
abbrev two_frames : List Event
two_frames =
    polled false readable true
    ∷ interrupted
    ∷ polled true silent true
    ∷ polled false readable true
    ∷ []

two_frames-Follows : Follows fresh two_frames
unfolding Follows turn
two_frames-Follows = (λ e. cc, (tt, (λ e. (refl, refl), (λ e. cc, tt))))

two_frames_run : (watch_loop two_frames fresh).0.error ≡ 0
unfolding watch_loop
two_frames_run = refl

watch_loop_bounded_example : (watch_loop two_frames fresh).1 ≤ credit true + wakes two_frames
watch_loop_bounded_example =
    watch_loop_bounded two_frames fresh two_frames-Follows refl two_frames_run

abbrev failing : List Event
failing = polled false readable true ∷ poll_failed 12 true ∷ []

failing_run : (watch_loop failing fresh).0.error ≢ 0
unfolding watch_loop
failing_run = λ e. omega arith

after-IsConsistent_example : IsConsistent (
    after
      (starts (pos 7) (negsuc 0) ∷ starts (pos 7) (pos 8) ∷ meets failing ∷ stops ∷ [])
      new_monitor)
after-IsConsistent_example =
    after-IsConsistent
      (starts (pos 7) (negsuc 0) ∷ starts (pos 7) (pos 8) ∷ meets failing ∷ stops ∷ [])

-- The thread fails, and a stop forgets it.
error_run : (after (starts (pos 7) (pos 8) ∷ meets failing ∷ []) new_monitor).error ≡ 12
unfolding after start start_watching watch_loop turn on_error on_ready
error_run = refl
