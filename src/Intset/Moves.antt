-- ===== src/Intset/Moves.antt =====
-- The array of an intset (src/vr_intset.c) under `intsetResize` and `intsetMoveTail`.
use myownproject.Base.{ℕ, ◌+◌, ◌-◌, ◌*◌, ◌%◌, ◌^◌, ◌≤◌, ◌<◌, ◌≡◌, ap, ◌∙◌, arith, inl, length}
use myownproject.Base.Bytes.{word-move_in, word-move_out, length-move, length-resize, word-resize}
use myownproject.Intset.{Intset, width, signed, get_encoded, get, resize_to, move_tail}
use myownproject.Intset.Cells.{IsEncoding, int16, int32, int64, cell_fits}

-- The bound on the number of values keeps sizes within 32 bits.
pub size_exact : {e : ℕ} → IsEncoding e → (n : ℕ) → n ≤ 2 ^ 28 → n * e % 2 ^ 32 ≡ n * e
size_exact int16 n l = omega arith
size_exact int32 n l = omega arith
size_exact int64 n l = omega arith

pub length-resize_to :
    (junk : ℕ → ℕ) (is : Intset) (n : ℕ)
    → IsEncoding is.encoding
    → n ≤ 2 ^ 28
    → length (resize_to junk is n).contents ≡ n * is.encoding
unfolding resize_to
length-resize_to junk is n known l =
    length-resize junk is.contents (n * is.encoding % 2 ^ 32) ∙ size_exact known n l

-- A cell of any encoding that lies in the old and in the new array is kept.
pub get_encoded-resize_to :
    (junk : ℕ → ℕ) (is : Intset) (n i enc : ℕ)
    → IsEncoding is.encoding
    → n ≤ 2 ^ 28
    → i * width enc + width enc ≤ length is.contents
    → i * width enc + width enc ≤ n * is.encoding
    → get_encoded (resize_to junk is n).contents i enc ≡ get_encoded is.contents i enc
unfolding resize_to get_encoded
get_encoded-resize_to junk is n i enc known l old kept = ap (signed (width enc)) (
    word-resize (width enc) junk is.contents (n * is.encoding % 2 ^ 32) (i * width enc) old
      (omega (arith, size_exact known n l)))

pub get-resize_to :
    (junk : ℕ → ℕ) (is : Intset) (n m i : ℕ)
    → IsEncoding is.encoding
    → n ≤ 2 ^ 28
    → length is.contents ≡ m * is.encoding
    → i < m
    → i < n
    → get (resize_to junk is n) i ≡ get is i
unfolding resize_to get get_encoded
get-resize_to junk is n m i known l size old kept =
    get_encoded-resize_to junk is n i is.encoding known l
      (omega (arith, size, cell_fits known i m old)) (cell_fits known i n kept)

tail_bytes :
    {e : ℕ}
    → IsEncoding e
    → (len from : ℕ) → from ≤ len
    → len ≤ 2 ^ 28
    → (len + (2 ^ 32 - from)) % 2 ^ 32 * width e % 2 ^ 32 ≡ (len - from) * width e
tail_bytes int16 len from h l = omega arith
tail_bytes int32 len from h l = omega arith
tail_bytes int64 len from h l = omega arith

-- A run of `k` cells from cell `i` on, in bytes.
run_room : {e : ℕ} → IsEncoding e → (i k n : ℕ) → i + k ≤ n → i * width e + k * width e ≤ n * e
run_room int16 i k n l = omega arith
run_room int32 i k n l = omega arith
run_room int64 i k n l = omega arith

cells_below : {e : ℕ} → IsEncoding e → (i j : ℕ) → i < j → i * width e + width e ≤ j * width e
cells_below int16 i j l = omega arith
cells_below int32 i j l = omega arith
cells_below int64 i j l = omega arith

scale : {e : ℕ} → IsEncoding e → (i k : ℕ) → (i + k) * width e ≡ i * width e + k * width e
scale int16 i k = omega arith
scale int32 i k = omega arith
scale int64 i k = omega arith

pub length-move_tail :
    (is : Intset) (from to : ℕ) → length (move_tail is from to).contents ≡ length is.contents
unfolding move_tail
length-move_tail is from to =
    length-move is.contents (to * width is.encoding) (from * width is.encoding)
      ((is.len + (2 ^ 32 - from)) % 2 ^ 32 * width is.encoding % 2 ^ 32)

-- Below its target a move changes no value.
pub get-move_tail_below :
    (is : Intset) (from to n i : ℕ)
    → IsEncoding is.encoding
    → is.len ≤ 2 ^ 28
    → length is.contents ≡ n * is.encoding
    → from ≤ is.len
    → is.len ≤ n
    → to + (is.len - from) ≤ n
    → i < to
    → get (move_tail is from to) i ≡ get is i
unfolding move_tail get get_encoded
get-move_tail_below is from to n i known l size start inside room below =
    let bytes = tail_bytes known is.len from start l in
    let before : i * width is.encoding + width is.encoding ≤ to * width is.encoding =
      cells_below known i to below in
    ap (signed (width is.encoding)) (
      word-move_out (width is.encoding) is.contents (to * width is.encoding)
        (from * width is.encoding)
        ((is.len + (2 ^ 32 - from)) % 2 ^ 32 * width is.encoding % 2 ^ 32) (i * width is.encoding)
        (omega (arith, bytes, size, run_room known to (is.len - from) n room))
        (omega (arith, bytes, size, run_room known from (is.len - from) n (omega arith)))
        (inl before))

-- The moved values.
pub get-move_tail :
    (is : Intset) (from to n k : ℕ)
    → IsEncoding is.encoding
    → is.len ≤ 2 ^ 28
    → length is.contents ≡ n * is.encoding
    → from ≤ is.len
    → is.len ≤ n
    → to + (is.len - from) ≤ n
    → k < is.len - from
    → get (move_tail is from to) (to + k) ≡ get is (from + k)
unfolding move_tail get get_encoded
get-move_tail is from to n k known l size start inside room below =
    let bytes = tail_bytes known is.len from start l in
    let there = scale known to k in
    let here = scale known from k in
    ap (signed (width is.encoding)) (
      rw (there, here)
        (word-move_in (width is.encoding) is.contents (to * width is.encoding)
          (from * width is.encoding)
          ((is.len + (2 ^ 32 - from)) % 2 ^ 32 * width is.encoding % 2 ^ 32) (k * width is.encoding)
          (omega (arith, bytes, size, run_room known to (is.len - from) n room))
          (omega (arith, bytes, size, run_room known from (is.len - from) n (omega arith)))
          (omega (arith, bytes, cells_below known k (is.len - from) below))))
