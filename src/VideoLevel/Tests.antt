-- ===== src/VideoLevel/Tests.antt =====
-- Levels of a stream of 2048 by 1536.
use camera_service.Common.{◌≡◌, refl, false, none}
use camera_service.Common.Text.{codes, text_eq}
use camera_service.VideoLevel.{
  Rate, index_of, name_at, rounded, load, first_fit, level, answer_at, h264_level_for, fits_at,
  level_covers,
}
use camera_service.VideoLevel.Lowest.{Advises, h264_level_for-Advises}

abbrev thirty : Rate
thirty = record { num = 59; den = 2 }

h264_level_for-Advises_example :
    Advises 2048 1536 thirty none (codes "5.2") (h264_level_for 2048 1536 thirty none (codes "5.2"))
h264_level_for-Advises_example = h264_level_for-Advises 2048 1536 thirty none (codes "5.2")

five : h264_level_for 2048 1536 thirty none (codes "5.2") ≡ level (codes "5")
unfolding h264_level_for answer_at first_fit load rounded index_of name_at text_eq
five = refl

clamped_below : h264_level_for 2048 1536 thirty none (codes "4") ≡ level (codes "4")
unfolding h264_level_for answer_at first_fit load rounded index_of name_at text_eq
clamped_below = refl

four_too_low : level_covers (codes "4") 2048 1536 thirty none ≡ false
unfolding level_covers fits_at load rounded index_of text_eq
four_too_low = refl
