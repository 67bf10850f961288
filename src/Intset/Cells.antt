-- ===== src/Intset/Cells.antt =====
-- The array of an intset (src/vr_intset.c): its cells under stores, moves and changes of size.
use myownproject.Base.{ℕ, ◌+◌, ◌-◌, ◌*◌, ◌/◌, ◌^◌, ◌≤◌, ◌<◌, ◌≡◌, ap, ◌∙◌, arith, ◌⊎◌, length}
use myownproject.Base.Int.{ℤ, pos, negsuc, ◌<ℤ◌, ◌≤ℤ◌}
use myownproject.Base.Bytes.{word-store, word-store_other, length-store}
use myownproject.Intset.{Intset, width, signed, unsigned, get_encoded, get, put}

-- The encodings that the code uses.
pub data IsEncoding : ℕ → Type 0 where
  int16 : IsEncoding 2
  int32 : IsEncoding 4
  int64 : IsEncoding 8

-- A value that a signed integer of `n` bytes holds.
abbrev pub Fits : ℕ → ℤ → Type 0
Fits n v = (negsuc (256 ^ n / 2 - 1) ≤ℤ v) × (v <ℤ pos (256 ^ n / 2))

pub unsigned-lt : {e : ℕ} → IsEncoding e → (v : ℤ) → unsigned (width e) v < 256 ^ width e
unsigned-lt int16 (pos a) = omega arith
unsigned-lt int16 (negsuc a) = omega arith
unsigned-lt int32 (pos a) = omega arith
unsigned-lt int32 (negsuc a) = omega arith
unsigned-lt int64 (pos a) = omega arith
unsigned-lt int64 (negsuc a) = omega arith

-- Encoding and decoding a value of the range.
pub signed-unsigned :
    {e : ℕ} → IsEncoding e → (v : ℤ) → Fits e v → signed (width e) (unsigned (width e) v) ≡ v
signed-unsigned int16 (pos a) (lo, hi) = ground arith
signed-unsigned int16 (negsuc a) (lo, hi) = ground arith
signed-unsigned int32 (pos a) (lo, hi) = ground arith
signed-unsigned int32 (negsuc a) (lo, hi) = ground arith
signed-unsigned int64 (pos a) (lo, hi) = ground arith
signed-unsigned int64 (negsuc a) (lo, hi) = ground arith

-- A cell below `n` ends within `n` cells.
pub cell_fits : {e : ℕ} → IsEncoding e → (i n : ℕ) → i < n → i * width e + width e ≤ n * e
cell_fits int16 i n l = omega arith
cell_fits int32 i n l = omega arith
cell_fits int64 i n l = omega arith

cells_apart :
    {e : ℕ}
    → IsEncoding e
    → (i j : ℕ) → (i < j) ⊎ (j < i)
    → (j * width e + width e ≤ i * width e) ⊎ (i * width e + width e ≤ j * width e)
cells_apart int16 i j l = ground arith
cells_apart int32 i j l = ground arith
cells_apart int64 i j l = ground arith

pub get-put :
    (is : Intset) (i n : ℕ) (v : ℤ)
    → IsEncoding is.encoding
    → length is.contents ≡ n * is.encoding
    → i < n
    → Fits is.encoding v
    → get (put is i v) i ≡ v
unfolding get get_encoded put
get-put is i n v known size l fits =
    let room : i * width is.encoding + width is.encoding ≤ length is.contents =
      omega (arith, cell_fits known i n l, size) in
    ap (signed (width is.encoding)) (
      word-store (width is.encoding) is.contents (i * width is.encoding)
        (unsigned (width is.encoding) v) room (unsigned-lt known v))
    ∙ signed-unsigned known v fits

pub get-put_other :
    (is : Intset) (i j n : ℕ) (v : ℤ)
    → IsEncoding is.encoding
    → length is.contents ≡ n * is.encoding
    → i < n
    → (i < j) ⊎ (j < i)
    → get (put is i v) j ≡ get is j
unfolding get get_encoded put
get-put_other is i j n v known size l apart =
    let room : i * width is.encoding + width is.encoding ≤ length is.contents =
      omega (arith, cell_fits known i n l, size) in
    ap (signed (width is.encoding)) (
      word-store_other (width is.encoding) (width is.encoding) is.contents (i * width is.encoding)
        (unsigned (width is.encoding) v) (j * width is.encoding) room (cells_apart known i j apart))

pub length-put : (is : Intset) (i : ℕ) (v : ℤ) → length (put is i v).contents ≡ length is.contents
unfolding put
length-put is i v =
    length-store (width is.encoding) is.contents (i * width is.encoding)
      (unsigned (width is.encoding) v)
