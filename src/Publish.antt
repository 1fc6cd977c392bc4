-- ===== src/Publish.antt =====
-- Publishing to the plugin endpoint in core-driver/cam_driver/pipeline.py: the rate gate
-- (`_should_publish`) and the timeline of the transport (`_transport_pts`). Rates are rational numbers
-- where the code has floats; the monotonic clock is an argument, in nanoseconds.
pub mod Ascending
mod Tests
use camera_service.Common.{
  ℕ, zero, suc, ◌+◌, ◌-◌, ◌*◌, ◌/◌, ◌%◌, Bool, true, false, ◌&&◌, ◌||◌, Option, none, some, List,
  [], ◌∷◌, max, leb, ◌==◌, if◌then◌else◌,
}
use camera_service.Common.Int.{ℤ, pos, pos_part, neg_part, ◌+ℤ◌, ◌-ℤ◌, ltb_ℤ, leb_ℤ}

-- num / den hertz.
pub record Rate : Type 0 where
  pub num : ℕ
  pub den : ℕ

-- `max(1, math.ceil(fps / rate - 1e-9))`, or 0 without a cap or a known rate of the source.
unfoldable pub publish_every_n : Rate → Rate → ℕ
publish_every_n fps rate =
    let whole = rate.num * fps.den * 1000000000 in
    let frames = fps.num * rate.den * 1000000000 - rate.num * fps.den in
    if rate.num == 0 || fps.num == 0 then 0 else max 1 ((frames + whole - 1) / whole)

-- `_last_pub_ts` and `_pub_seq`.
pub record Window : Type 0 where
  pub last_pub_ts : Option ℤ
  pub pub_seq : ℕ

-- The gate by timestamps: an interval of the rate, at least, from the last published frame on.
unfoldable pub past_window : Rate → ℤ → Option ℤ → Bool
past_window rate ts none = true
past_window rate ts (some last) =
    ltb_ℤ ts last || leb (1000000000 * rate.den) (pos_part (ts -ℤ last) * rate.num)

unfoldable pub should_publish : Rate → Rate → ℤ → Window → Bool × Window
should_publish fps rate ts w =
    let n = publish_every_n fps rate in
    if rate.num == 0
    then (true, w)
    else if leb 1 n
    then (w.pub_seq % n == 0, record w { pub_seq = w.pub_seq + 1 })
    else if past_window rate ts w.last_pub_ts
    then (true, record w { last_pub_ts = some ts })
    else (false, w)

-- `_tpts_shift_ns`, `_tpts_last` and `_tpts_last_mono`; the last is `none` before the first publish.
pub record Wire : Type 0 where
  pub shift : ℤ
  pub last : Option ℤ
  pub last_mono : ℕ

unfoldable pub new_wire : Wire
new_wire = record { shift = pos 0; last = none; last_mono = 0 }

-- The time stamp that a publish gets on the wire.
unfoldable pub wire_pts : Bool → ℕ → ℤ → Bool → ℕ → Wire → ℤ
wire_pts finite interval pts held now w = elim w.last [
  | none ↦ if finite then pos 0 else pts +ℤ w.shift
  | some last ↦
      if finite || held
      then last +ℤ pos (max (now - w.last_mono) 1)
      else if leb_ℤ (pts +ℤ w.shift) last
      then last +ℤ pos interval
      else pts +ℤ w.shift
]

unfoldable pub transport_pts : Bool → ℕ → ℤ → Bool → ℕ → Wire → ℤ × Wire
transport_pts finite interval pts held now w =
    let tpts = wire_pts finite interval pts held now w in
    (tpts, record { shift = tpts -ℤ pts; last = some tpts; last_mono = now })
