-- ===== src/Intset.antt =====
-- src/vr_intset.c: a sorted set of integers in an array of bytes. `contents` holds the bytes of the
-- flexible array member; words are little-endian on every host. `junk` is what the allocator
-- leaves in new bytes.
mod Search
mod Cells
mod Moves
mod Valid
mod Insert
mod Gap
mod Upgrade
mod Add
mod Remove
mod Tests
use myownproject.Base.{
  ℕ, zero, suc, ◌+◌, ◌-◌, ◌*◌, ◌/◌, ◌%◌, ◌^◌, Bool, true, false, ◌&&◌, ◌||◌, List, [], ◌∷◌, ltb,
  leb, ◌==◌, if◌then◌else◌, Option, some, none,
}
use myownproject.Base.Int.{ℤ, pos, negsuc, ltb_ℤ, eqb_ℤ}
use myownproject.Base.Bytes.{word, store, move, resize}

pub record Intset : Type 0 where
  encoding : ℕ
  len : ℕ
  contents : List ℕ

-- `_intsetValueEncoding`.
unfoldable pub value_encoding : ℤ → ℕ
value_encoding v =
    if ltb_ℤ v (negsuc (2 ^ 31 - 1)) || ltb_ℤ (pos (2 ^ 31 - 1)) v
    then 8
    else if ltb_ℤ v (negsuc (2 ^ 15 - 1)) || ltb_ℤ (pos (2 ^ 15 - 1)) v
    then 4
    else 2

-- The integer type that the code picks for an encoding.
abbrev pub width : ℕ → ℕ
width enc = if enc == 8 then 8 else if enc == 4 then 4 else 2

-- The value of a signed integer of `n` bytes, and the bytes of a value cut to `n` bytes.
abbrev pub signed : ℕ → ℕ → ℤ
signed n w = if ltb w (256 ^ n / 2) then pos w else negsuc (256 ^ n - w - 1)

abbrev pub unsigned : ℕ → ℤ → ℕ
unsigned n (pos a) = a % 256 ^ n
unsigned n (negsuc a) = 256 ^ n - 1 - a % 256 ^ n

-- `_intsetGetEncoded`.
unfoldable pub get_encoded : List ℕ → ℕ → ℕ → ℤ
get_encoded contents i enc = signed (width enc) (word (width enc) contents (i * width enc))

-- `_intsetGet`.
unfoldable pub get : Intset → ℕ → ℤ
unfolding get_encoded
get is i = get_encoded is.contents i is.encoding

-- `_intsetSet`.
unfoldable pub put : Intset → ℕ → ℤ → Intset
put is i value = record is {
  contents =
      store (width is.encoding) is.contents (i * width is.encoding)
        (unsigned (width is.encoding) value);
}

-- `intsetNew`.
unfoldable pub new : Intset
new = record { encoding = 2; len = 0; contents = [] }

-- The `while` of `intsetSearch`: `cur`, `mid` and `min` behind it. `past` is `max + 1`; each round
-- takes at least one value away, so as many rounds as values suffice.
unfoldable pub search_loop : ℕ → Intset → ℤ → ℕ → ℕ → ℕ → ℤ → ℤ × ℕ × ℕ
search_loop zero is value min past mid cur = (cur, mid, min)
search_loop (suc fuel) is value min past mid cur =
    let middle = (min + (past - 1)) / 2 in
    let found = get is middle in
    let above = search_loop fuel is value (middle + 1) past middle found in
    let below = search_loop fuel is value min middle middle found in
    if leb past min
    then (cur, mid, min)
    else if ltb_ℤ found value
    then above
    else if ltb_ℤ value found
    then below
    else (found, middle, min)

-- The result of `intsetSearch` and its `pos`, from what the loop left.
abbrev pub outcome : ℤ → ℤ × ℕ × ℕ → Bool × ℕ
outcome value (cur, mid, min) = if eqb_ℤ value cur then (true, mid) else (false, min)

-- `intsetSearch`; `mid` starts at -1, which is 2 ^ 32 - 1 as the position it may become.
unfoldable pub search : Intset → ℤ → Bool × ℕ
search is value =
    if is.len == 0
    then (false, 0)
    else if ltb_ℤ (get is (is.len - 1)) value
    then (false, is.len)
    else if ltb_ℤ value (get is 0)
    then (false, 0)
    else outcome value (search_loop is.len is value 0 is.len (2 ^ 32 - 1) (negsuc 0))

-- `intsetFind`.
unfoldable pub find : Intset → ℤ → Bool
find is value = leb (value_encoding value) is.encoding && (search is value).0

-- `intsetResize`; the size is computed in 32 bits.
unfoldable pub resize_to : (ℕ → ℕ) → Intset → ℕ → Intset
resize_to junk is n = record is { contents = resize junk is.contents (n * is.encoding % 2 ^ 32) }

-- The `while` of `intsetUpgradeAndAdd`, from the last value to the first.
unfoldable pub upgrade_loop : ℕ → ℕ → ℕ → Intset → Intset
upgrade_loop zero prepend curenc is = is
upgrade_loop (suc n) prepend curenc is =
    upgrade_loop n prepend curenc (put is (n + prepend) (get_encoded is.contents n curenc))

-- `intsetUpgradeAndAdd`.
unfoldable pub upgrade_and_add : (ℕ → ℕ) → Intset → ℤ → Intset
upgrade_and_add junk is value =
    let prepend = if ltb_ℤ value (pos 0) then 1 else 0 in
    let len = (is.len + 1) % 2 ^ 32 in
    let grown = resize_to junk (record is { encoding = value_encoding value }) len in
    let upgraded = upgrade_loop is.len prepend is.encoding grown in
    record (put upgraded (if prepend == 1 then 0 else is.len) value) { len = len }

-- `intsetMoveTail`; the number of bytes is computed in 32 bits.
unfoldable pub move_tail : Intset → ℕ → ℕ → Intset
move_tail is from to =
    let size = width is.encoding in
    let bytes = (is.len + (2 ^ 32 - from)) % 2 ^ 32 * size % 2 ^ 32 in
    record is { contents = move is.contents (to * size) (from * size) bytes }

-- `intsetAdd` behind its search: `success` and the set.
unfoldable pub add_at : (ℕ → ℕ) → Intset → ℤ → Bool × ℕ → Bool × Intset
add_at junk is value (true, p) = (false, is)
add_at junk is value (false, p) =
    let len = (is.len + 1) % 2 ^ 32 in
    let grown = resize_to junk is len in
    let moved = if ltb p is.len then move_tail grown p (p + 1) else grown in
    (true, record (put moved p value) { len = len })

-- `intsetAdd`.
unfoldable pub add : (ℕ → ℕ) → Intset → ℤ → Bool × Intset
add junk is value =
    if ltb is.encoding (value_encoding value)
    then (true, upgrade_and_add junk is value)
    else add_at junk is value (search is value)

-- `intsetRemove` behind its search: `success` and the set.
unfoldable pub remove_at : (ℕ → ℕ) → Intset → Bool × ℕ → Bool × Intset
remove_at junk is (false, p) = (false, is)
remove_at junk is (true, p) =
    let moved = if ltb p (is.len - 1) then move_tail is (p + 1) p else is in
    (true, record (resize_to junk moved (is.len - 1)) { len = is.len - 1 })

-- `intsetRemove`.
unfoldable pub remove : (ℕ → ℕ) → Intset → ℤ → Bool × Intset
remove junk is value =
    if leb (value_encoding value) is.encoding
    then remove_at junk is (search is value)
    else (false, is)

-- `intsetGet`, `intsetLen` and `intsetBlobLen`, with the 8 bytes of the header.
unfoldable pub get_at : Intset → ℕ → Option ℤ
get_at is i = if ltb i is.len then some (get is i) else none

abbrev pub set_len : Intset → ℕ
set_len is = is.len

unfoldable pub blob_len : Intset → ℕ
blob_len is = 8 + is.len * is.encoding % 2 ^ 32

-- `intsetRandom`; `r` is what `rand()` returned.
unfoldable pub random : ℕ → Intset → ℤ
random r is = get is (r % is.len)
