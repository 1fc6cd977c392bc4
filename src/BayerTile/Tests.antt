-- ===== src/BayerTile/Tests.antt =====
-- A mosaic of two by four pixels, tiled and untiled.
use camera_service.Common.{ℕ, ◌≡◌, refl, none, some, List, [], ◌∷◌, arith}
use camera_service.Common.Text.{codes, text_eq}
use camera_service.Formats.{one_of}
use camera_service.BayerTile.{
  word, normalize_mode, named_mode, strip_front, strip_back, lower, plain, green_diff, rct,
  tile_cfa, untile_cfa, has_shape, bytes, array, cell, tabulate, tiled, spread, recolour_all,
  recolour, in_quadrant, quadrant, difference, targets, phases, phases_of,
}
use camera_service.BayerTile.Untile.{untile_cfa-tile_cfa}

abbrev mosaic : List ℕ
mosaic = 10 ∷ 20 ∷ 11 ∷ 21 ∷ 23 ∷ 250 ∷ 18 ∷ 5 ∷ []

plain_quadrants : tile_cfa mosaic 4 2 plain none ≡ some (10 ∷ 11 ∷ 20 ∷ 21 ∷ 23 ∷ 18 ∷ 250 ∷ 5 ∷ [])
unfolding tile_cfa has_shape bytes array cell tabulate tiled spread recolour_all targets
plain_quadrants = refl

green_difference :
    tile_cfa mosaic 4 2 green_diff (some (codes "RGGB"))
    ≡ some (10 ∷ 11 ∷ 20 ∷ 21 ∷ 131 ∷ 125 ∷ 250 ∷ 5 ∷ [])
unfolding tile_cfa has_shape bytes array cell tabulate tiled spread recolour_all recolour
    in_quadrant quadrant difference targets phases phases_of lower text_eq
green_difference = refl

spelled : normalize_mode (word (codes " Green_Diff ")) ≡ green_diff
unfolding normalize_mode named_mode strip_front strip_back lower one_of text_eq
spelled = refl

untile_cfa-tile_cfa_example :
    (t : List ℕ) × (tile_cfa mosaic 4 2 rct (some (codes "grbg")) ≡ some t)
    × (untile_cfa t 4 2 rct (some (codes "grbg")) ≡ some mosaic)
untile_cfa-tile_cfa_example =
    untile_cfa-tile_cfa mosaic 4 2 rct (some (codes "grbg"))
      ((
        omega arith,
        (
          omega arith,
          (
            omega arith,
            (omega arith, (omega arith, (omega arith, (omega arith, (omega arith, tt))))),
          ),
        ),
      ))
      refl refl refl
