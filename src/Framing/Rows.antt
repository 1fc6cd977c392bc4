-- ===== src/Framing/Rows.antt =====
-- The packing of a message's rows in plugins/ros2-source/cam_ros2_source/framing.py: the pixels of
-- every row are kept, in order, and the padding is dropped.
use camera_service.Common.{
  ℕ, zero, suc, ◌+◌, ◌*◌, ◌≤◌, ◌<◌, ◌≡◌, refl, ◌∙◌, ap, false, List, length, take, drop, get_elem?,
  length-append, length-drop, length-take, get_elem?-take, get_elem?-drop, get_elem?-append_left,
  get_elem?-append_right, leb, ◌==◌, arith, Bool-cases, inl, inr,
}
use camera_service.Framing.{packed_rows, unpad_rows}

row_length :
    (r step row_bytes : ℕ) (d : List ℕ)
    → row_bytes ≤ step
    → (r + 1) * step ≤ length d
    → length (take row_bytes (drop (r * step) d)) ≡ row_bytes
row_length r step row_bytes d h k =
    length-take row_bytes (drop (r * step) d) (omega (arith, length-drop (r * step) d))

rows_end : (r n step m : ℕ) → (r + suc n) * step ≤ m → (r + 1) * step ≤ m
rows_end r n step m h = grind arith

length-packed_rows :
    (r n step row_bytes : ℕ) (d : List ℕ)
    → row_bytes ≤ step
    → (r + n) * step ≤ length d
    → length (packed_rows r n step row_bytes d) ≡ n * row_bytes
unfolding packed_rows
length-packed_rows r zero step row_bytes d h k = omega arith
length-packed_rows r (suc n) step row_bytes d h k =
    let row = take row_bytes (drop (r * step) d) in
    omega (
      arith,
      length-append row (packed_rows (r + 1) n step row_bytes d),
      row_length r step row_bytes d h (rows_end r n step (length d) k),
      length-packed_rows (r + 1) n step row_bytes d h (omega arith),
    )

get_elem?-packed_rows :
    (r n step row_bytes i c : ℕ) (d : List ℕ)
    → row_bytes ≤ step
    → (r + n) * step ≤ length d
    → i < n
    → c < row_bytes
    → get_elem? (packed_rows r n step row_bytes d) (i * row_bytes + c)
      ≡ get_elem? d ((r + i) * step + c)
unfolding packed_rows
get_elem?-packed_rows r zero step row_bytes i c d h k l m = absurd (omega arith)
get_elem?-packed_rows r (suc n) step row_bytes zero c d h k l m =
    let row = take row_bytes (drop (r * step) d) in
    let w = row_length r step row_bytes d h (rows_end r n step (length d) k) in
    let e : zero * row_bytes + c ≡ c = omega arith in
    let e' : (r + zero) * step + c ≡ r * step + c = omega arith in
    rw (e, e')
      (get_elem?-append_left row (packed_rows (r + 1) n step row_bytes d) c (omega (arith, w))
        ∙ get_elem?-take row_bytes c (drop (r * step) d) m
        ∙ get_elem?-drop (r * step) c d)
get_elem?-packed_rows r (suc n) step row_bytes (suc i) c d h k l m =
    let row = take row_bytes (drop (r * step) d) in
    let w = row_length r step row_bytes d h (rows_end r n step (length d) k) in
    let e : suc i * row_bytes + c ≡ length row + (i * row_bytes + c) = omega (arith, w) in
    let e' : (r + suc i) * step + c ≡ (r + 1 + i) * step + c = omega arith in
    rw (e, e')
      (get_elem?-append_right row (packed_rows (r + 1) n step row_bytes d) (i * row_bytes + c)
        ∙ get_elem?-packed_rows (r + 1) n step row_bytes i c d h (omega arith) (omega arith) m)

-- A message of `height` rows of `step` bytes, of which the first `row_bytes` are pixels: the packed
-- frame has the size of the pixels, and its byte `c` of row `i` is that of the message's row.
unpad_rows_lem :
    (d : List ℕ) (step row_bytes height i c : ℕ)
    → row_bytes ≤ step
    → length d ≡ height * step
    → i < height
    → c < row_bytes
    → (length (unpad_rows d step row_bytes height) ≡ height * row_bytes)
      × (get_elem? (unpad_rows d step row_bytes height) (i * row_bytes + c)
          ≡ get_elem? d (i * step + c))
unfolding unpad_rows
unpad_rows_lem d step row_bytes height i c h l k m = elim (Bool-cases (leb step row_bytes)) [
  | inl tight ↦
      let e : step ≡ row_bytes = ground arith in
      rw tight (omega (arith, l, ap (λ (n : ℕ). height * n) e), rw e refl)
  | inr padded ↦
      let positive : (row_bytes == 0) ≡ false = ground arith in
      let whole : (0 + height) * step ≤ length d = omega (arith, l) in
      let zero_i : 0 + i ≡ i = omega arith in
      rw (padded, positive)
        (
          length-packed_rows 0 height step row_bytes d h whole,
          get_elem?-packed_rows 0 height step row_bytes i c d h whole k m
              ∙ ap (λ (n : ℕ). get_elem? d (n * step + c)) zero_i,
        )
]
