-- ===== src/Playback/Position.antt =====
-- The position that core-driver/cam_driver/playback.py shows on its timeline.
use native.Mathlib.Nat.{mul-div-le, le-div_iff_mul-le}
use camera_service.Common.{
  ℕ, ◌*◌, ◌/◌, ◌≤◌, ◌<◌, ◌≡◌, false, none, some, ◌==◌, arith, if◌then◌else◌,
}
use camera_service.Common.Int.{
  ℤ, pos, negsuc, ◌+ℤ◌, ◌-ℤ◌, ◌≤ℤ◌, ltb_ℤ, +ℤ_parts, -ℤ_parts, at_least_zero,
}
use camera_service.Playback.{Speed, sped, Playback, playing, timeline_position}

quotient_mono : (a b d : ℕ) → 0 < d → a ≤ b → a / d ≤ b / d
quotient_mono a b d k h = (le-div_iff_mul-le k).1 (grind (arith, mul-div-le a d))

product_mono : (a b n : ℕ) → a ≤ b → a * n ≤ b * n
product_mono a b n h = grind arith

sped_mono : (v : Speed) (a b : ℤ) → 0 < v.den → pos 0 ≤ℤ a → a ≤ℤ b → sped v a ≤ℤ sped v b
unfolding sped
sped_mono v (pos a) (pos b) d z h =
    omega
      (arith, quotient_mono (a * v.num) (b * v.num) v.den d (product_mono a b v.num (omega arith)))
sped_mono v (pos a) (negsuc b) d z h = absurd (omega arith)
sped_mono v (negsuc a) b d z h = absurd (omega arith)

-- The later of the last frame's position and the timeline's, not past the duration.
abbrev shown : ℤ → ℤ → ℕ → ℤ
shown position timeline d =
    let ahead = if ltb_ℤ position timeline then timeline else position in
    at_least_zero (if ltb_ℤ (pos d) ahead then pos d else ahead)

shown_mono :
    (position x y : ℤ) (d : ℕ)
    → x ≤ℤ y
    → (pos 0 ≤ℤ shown position x d)
      × (shown position x d ≤ℤ pos d)
      × (shown position x d ≤ℤ shown position y d)
unfolding at_least_zero
shown_mono position x y d h = ground (arith, h)

playing_position :
    (now t0 : ℤ) (p : Playback) (d : ℕ)
    → p.state ≡ playing
    → (p.pacer.speed.num == 0) ≡ false
    → p.duration_ns ≡ some d
    → p.pacer.t0_src ≡ some t0
    → timeline_position now p
      ≡ shown p.position_ns
          (sped p.pacer.speed (now -ℤ p.pacer.t0_wall)
            +ℤ (t0 -ℤ (elim p.cycle_base_ns as (λ x. ℤ) [ none ↦ t0 | some b ↦ b ])))
          d
unfolding timeline_position
playing_position now t0 p d s v u t = ground (arith, s, v, u, t)

-- While a playback plays on an anchored timeline of known duration, the position that it shows is
-- never below zero and never past the duration, and as the clock goes on it does not go back.
timeline_position_advances :
    (now later t0 : ℤ) (p : Playback) (d : ℕ)
    → 0 < p.pacer.speed.den
    → p.state ≡ playing
    → (p.pacer.speed.num == 0) ≡ false
    → p.duration_ns ≡ some d
    → p.pacer.t0_src ≡ some t0
    → p.pacer.t0_wall ≤ℤ now
    → now ≤ℤ later
    → (pos 0 ≤ℤ timeline_position now p)
      × (timeline_position now p ≤ℤ pos d)
      × (timeline_position now p ≤ℤ timeline_position later p)
timeline_position_advances now later t0 p d k s v u t w h =
    let wall = p.pacer.t0_wall in
    let c = t0 -ℤ (elim p.cycle_base_ns as (λ x. ℤ) [ none ↦ t0 | some b ↦ b ]) in
    let x = sped p.pacer.speed (now -ℤ wall) in
    let y = sped p.pacer.speed (later -ℤ wall) in
    let m : x ≤ℤ y =
      sped_mono p.pacer.speed (now -ℤ wall) (later -ℤ wall) k (omega (arith, w, -ℤ_parts now wall))
        (omega (arith, h, -ℤ_parts now wall, -ℤ_parts later wall)) in
    let n : (x +ℤ c) ≤ℤ (y +ℤ c) = omega (arith, m, +ℤ_parts x c, +ℤ_parts y c) in
    rw (playing_position now t0 p d s v u t, playing_position later t0 p d s v u t)
      (shown_mono p.position_ns (x +ℤ c) (y +ℤ c) d n)
