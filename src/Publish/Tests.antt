-- ===== src/Publish/Tests.antt =====
-- The rate gate, and publishes of a playback and of a live source.
use camera_service.Common.{ℕ, ◌≡◌, refl, true, false, none, some, List, [], ◌∷◌, arith}
use camera_service.Common.Int.{pos, ◌-ℤ◌}
use camera_service.Publish.{Rate, publish_every_n, past_window, should_publish, new_wire}
use camera_service.Publish.Ascending.{Publish, wire_run, Rising, wire_run-Rising}

abbrev hertz : ℕ → Rate
hertz n = record { num = n; den = 1 }

-- 24 frames per second under a cap of 10 Hz: every third.
every_third : publish_every_n (hertz 24) (hertz 10) ≡ 3
unfolding publish_every_n
every_third = refl

every_second : publish_every_n (hertz 24) (hertz 12) ≡ 2
unfolding publish_every_n
every_second = refl

-- The rate of the source is not known, and its clock steps back.
steps_back :
    (should_publish
      (hertz 0)
      (hertz 10)
      (pos 5)
      (record { last_pub_ts = some (pos 900); pub_seq = 0 })).0
    ≡ true
unfolding should_publish publish_every_n past_window ◌-ℤ◌
steps_back = refl

-- A frame, the same frame held, and one whose PTS jumps by a minute.
abbrev publishes : List Publish
publishes =
    record { pts = pos 0; held = false; now = 1000 }
    ∷ record { pts = pos 0; held = true; now = 1900 }
    ∷ record { pts = pos 60000000000; held = false; now = 2000 }
    ∷ []

wire_run-Rising_example : Rising none (wire_run false 40 new_wire publishes)
wire_run-Rising_example = wire_run-Rising false 40 publishes (omega arith)
