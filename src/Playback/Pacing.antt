-- ===== src/Playback/Pacing.antt =====
-- The pacer of core-driver/cam_driver/playback.py: frames against the data's own timeline.
use camera_service.Common.{ℕ, suc, ◌*◌, ◌/◌, Bool, Option, none, some, ◌==◌, if◌then◌else◌}
use camera_service.Common.Int.{ℤ, pos, negsuc, sub_ℕ, ◌+ℤ◌, ◌-ℤ◌, ltb_ℤ}

-- num / den, where `den` is not 0; 0 is as fast as the pipeline drains.
pub record Speed : Type 0 where
  pub num : ℕ
  pub den : ℕ

abbrev pub same_speed : Speed → Speed → Bool
same_speed a b = a.num * b.den == b.num * a.den

-- `int(d / speed)` and `int(d * speed)`, which round towards 0.
unfoldable pub slowed : Speed → ℤ → ℤ
slowed v (pos n) = pos (n * v.den / v.num)
slowed v (negsuc n) = sub_ℕ 0 (suc n * v.den / v.num)

unfoldable pub sped : Speed → ℤ → ℤ
sped v (pos n) = pos (n * v.num / v.den)
sped v (negsuc n) = sub_ℕ 0 (suc n * v.num / v.den)

pub record Pacer : Type 0 where
  pub speed : Speed
  pub anchor_src : Option ℤ
  pub t0_src : Option ℤ
  pub t0_wall : ℤ
  pub last_src : Option ℤ

unfoldable pub new_pacer : Speed → Option ℤ → Pacer
new_pacer v anchor = record {
  speed = v;
  anchor_src = anchor;
  t0_src = none;
  t0_wall = pos 0;
  last_src = none;
}

unfoldable pub reset : Option ℤ → Pacer → Pacer
reset anchor p = record p { anchor_src = anchor; t0_src = none; last_src = none }

unfoldable pub anchor_now : ℤ → Pacer → Pacer
anchor_now now p = elim p.anchor_src [
  | none ↦ p
  | some a ↦ record p { t0_src = some a; t0_wall = now }
]

unfoldable pub rebase : ℤ → Pacer → Pacer
rebase now p = elim p.last_src [ none ↦ p | some l ↦ record p { t0_src = some l; t0_wall = now } ]

unfoldable pub set_speed : ℤ → Speed → Pacer → Pacer
set_speed now v p = rebase now (record p { speed = v })

-- The time that a frame is due, where its timeline is anchored.
abbrev pub target : ℤ → ℤ → Pacer → ℤ
target t0 ts p = p.t0_wall +ℤ slowed p.speed (ts -ℤ t0)

abbrev pub delay_until : ℤ → ℤ → ℤ
delay_until t now = if ltb_ℤ now t then t -ℤ now else pos 0

-- How long `wait` sleeps; the sleep itself, which a cancellation ends, changes nothing.
unfoldable pub wait : ℤ → ℤ → Pacer → ℤ × Pacer
wait ts now p =
    let p' : Pacer = record p { last_src = some ts } in
    if p.speed.num == 0 then (pos 0, p') else elim p.t0_src [
      | some t0 ↦ (delay_until (target t0 ts p') now, p')
      | none ↦ elim p.anchor_src [
        | none ↦ (pos 0, record p' { t0_src = some ts; t0_wall = now })
        | some a ↦
            let q : Pacer = record p' { t0_src = some a; t0_wall = now } in
            (delay_until (target a ts q) now, q)
      ]
    ]
