-- ===== src/Preview/Tests.antt =====
-- A camera of 2048 by 1536 in a preview of 1280 by 720.
use camera_service.Common.{ℕ, ◌≡◌, refl, List}
use camera_service.Common.Text.{codes, text_eq}
use camera_service.BayerTile.{lower}
use camera_service.Formats.{one_of}
use camera_service.Preview.{
  box_of, parts_of, parse_max_size, onto_first, split_x, all_digits, int_from, unspaced, scaled,
  passes, fit_within,
}
use camera_service.Preview.Fits.{Outcome, fit_within-Outcome}

abbrev spec : List ℕ
spec = codes " 1280X720"

fit_within-Outcome_example : Outcome 2048 1536 1280 720 (fit_within 2048 1536 1280 720)
unfolding parse_max_size unspaced lower one_of text_eq split_x onto_first parts_of box_of all_digits
    int_from
fit_within-Outcome_example = fit_within-Outcome spec 2048 1536 1280 720 refl

scaled_down : fit_within 2048 1536 1280 720 ≡ scaled 960 720
unfolding fit_within
scaled_down = refl

small_passes : fit_within 640 480 1280 720 ≡ passes
unfolding fit_within
small_passes = refl
