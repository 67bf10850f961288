-- ===== src/Intset/Upgrade.antt =====
-- `intsetUpgradeAndAdd` (src/vr_intset.c): every value is rewritten in place, in a wider cell.
use myownproject.Base.{
  ℕ, zero, suc, ◌+◌, ◌*◌, ◌%◌, ◌^◌, ◌≤◌, ◌<◌, ◌≡◌, refl, ap, ◌∙◌, arith, inl, inr, ◌==◌, Bool-cases,
  length,
}
use myownproject.Base.Int.{ℤ, pos, ltb_ℤ}
use myownproject.Base.Bytes.{word-store_other}
use myownproject.Intset.{
  Intset, width, signed, unsigned, value_encoding, get, get_encoded, put, resize_to, upgrade_loop,
  upgrade_and_add,
}
use myownproject.Intset.Cells.{
  IsEncoding, int16, int32, int64, Fits, cell_fits, get-put, get-put_other, length-put,
}
use myownproject.Intset.Moves.{length-resize_to, get_encoded-resize_to}
use myownproject.Intset.Search.{Below, Above}
use myownproject.Intset.Valid.{
  Valid, value_encoding-IsEncoding, value_encoding-Fits, value_encoding_below, value_encoding_above,
}
use myownproject.Intset.Insert.{Inserted, Added, Inserted-Valid}
use myownproject.Intset.Gap.{Gap, put-Inserted}

-- A narrow cell ends before every wider cell of a greater or equal index that is behind it.
narrow_before :
    {a b : ℕ}
    → IsEncoding a
    → IsEncoding b
    → a ≤ b
    → (k n : ℕ) → k < n
    → k * width a + width a ≤ n * width b
narrow_before int16 int16 le k n l = omega arith
narrow_before int16 int32 le k n l = omega arith
narrow_before int16 int64 le k n l = omega arith
narrow_before int32 int16 le k n l = omega arith
narrow_before int32 int32 le k n l = omega arith
narrow_before int32 int64 le k n l = omega arith
narrow_before int64 int16 le k n l = omega arith
narrow_before int64 int32 le k n l = omega arith
narrow_before int64 int64 le k n l = omega arith

-- Narrow cells lie within as many wider ones.
narrow_room :
    {a b : ℕ}
    → IsEncoding a
    → IsEncoding b
    → a ≤ b
    → (k n : ℕ) → k < n
    → k * width a + width a ≤ n * b
narrow_room int16 int16 le k n l = omega arith
narrow_room int16 int32 le k n l = omega arith
narrow_room int16 int64 le k n l = omega arith
narrow_room int32 int16 le k n l = omega arith
narrow_room int32 int32 le k n l = omega arith
narrow_room int32 int64 le k n l = omega arith
narrow_room int64 int16 le k n l = omega arith
narrow_room int64 int32 le k n l = omega arith
narrow_room int64 int64 le k n l = omega arith

-- A write to a wider cell leaves the narrow cells before it.
get_encoded-put :
    (s : Intset) (cur k i size : ℕ) (v : ℤ)
    → IsEncoding cur
    → IsEncoding s.encoding
    → cur ≤ s.encoding
    → length s.contents ≡ size * s.encoding
    → i < size
    → k < i
    → get_encoded (put s i v).contents k cur ≡ get_encoded s.contents k cur
unfolding get_encoded put
get_encoded-put s cur k i size v narrow wide le sized inside before = ap (signed (width cur)) (
    word-store_other (width s.encoding) (width cur) s.contents (i * width s.encoding)
      (unsigned (width s.encoding) v) (k * width cur)
      (omega (arith, sized, cell_fits wide i size inside))
      (inl (narrow_before narrow wide le k i before)))

-- The set `s` during the loop: cells below `n` are still narrow, the others are done.
record Upgrading (is : Intset) (prepend n : ℕ) (s : Intset) : Type 0 where
  wide : IsEncoding s.encoding
  wider : is.encoding ≤ s.encoding
  sized : length s.contents ≡ suc is.len * s.encoding
  narrow : (k : ℕ) → k < n → get_encoded s.contents k is.encoding ≡ get is k
  done : (k : ℕ) → n ≤ k → k < is.len → get s (k + prepend) ≡ get is k

-- A wider encoding holds the values of a narrower one.
widen : {a b : ℕ} → IsEncoding a → IsEncoding b → a ≤ b → (v : ℤ) → Fits a v → Fits b v
widen int16 int16 le v (lo, hi) = (omega arith, omega arith)
widen int16 int32 le v (lo, hi) = (omega arith, omega arith)
widen int16 int64 le v (lo, hi) = (omega arith, omega arith)
widen int32 int16 le v (lo, hi) = (omega arith, omega arith)
widen int32 int32 le v (lo, hi) = (omega arith, omega arith)
widen int32 int64 le v (lo, hi) = (omega arith, omega arith)
widen int64 int16 le v (lo, hi) = (omega arith, omega arith)
widen int64 int32 le v (lo, hi) = (omega arith, omega arith)
widen int64 int64 le v (lo, hi) = (omega arith, omega arith)

upgrade_step :
    (is : Intset) (prepend n : ℕ) (s : Intset)
    → Valid is
    → prepend ≤ 1
    → suc n ≤ is.len
    → Upgrading is prepend (suc n) s
    → Upgrading is prepend n (put s (n + prepend) (get_encoded s.contents n is.encoding))
unfolding put
upgrade_step is prepend n s valid p l up =
    let v = get_encoded s.contents n is.encoding in
    let value : v ≡ get is n = up.narrow n (omega arith) in
    let fit : Fits s.encoding v =
      rw value (widen valid.known up.wide up.wider (get is n) (valid.fits n (omega arith))) in
    record {
      wide = up.wide;
      wider = up.wider;
      sized = length-put s (n + prepend) v ∙ up.sized;
      narrow = λ k m.
          get_encoded-put s is.encoding k (n + prepend) (suc is.len) v valid.known up.wide up.wider
            up.sized (omega arith) (omega arith)
          ∙ up.narrow k (omega arith);
      done = λ k m inside. elim (Bool-cases (k == n)) [
        | inl e ↦
            (let same : k ≡ n = ground arith in
              rw same
                (get-put s (n + prepend) (suc is.len) v up.wide up.sized (omega arith) fit ∙ value))
        | inr e ↦
            (let more : n < k = ground arith in
              get-put_other s (n + prepend) (k + prepend) (suc is.len) v up.wide up.sized
                (omega arith) (inl (omega arith))
              ∙ up.done k (omega arith) inside)
      ];
    }

upgrade_loop-Upgrading :
    (n : ℕ) (is : Intset) (prepend : ℕ) (s : Intset)
    → Valid is
    → prepend ≤ 1
    → n ≤ is.len
    → Upgrading is prepend n s
    → Upgrading is prepend 0 (upgrade_loop n prepend is.encoding s)
unfolding upgrade_loop
upgrade_loop-Upgrading zero is prepend s valid p l up = up
upgrade_loop-Upgrading (suc n) is prepend s valid p l up =
    upgrade_loop-Upgrading n is prepend (put s (n + prepend) (get_encoded s.contents n is.encoding))
      valid p (omega arith) (upgrade_step is prepend n s valid p l up)

encoding-upgrade_loop :
    (n prepend cur : ℕ) (s : Intset) → (upgrade_loop n prepend cur s).encoding ≡ s.encoding
unfolding upgrade_loop put
encoding-upgrade_loop zero prepend cur s = refl
encoding-upgrade_loop (suc n) prepend cur s =
    encoding-upgrade_loop n prepend cur (put s (n + prepend) (get_encoded s.contents n cur))

-- The loop opens a cell at the start or at the end.
front-Gap : (is s : Intset) → Upgrading is 1 0 s → Gap is 0 s
front-Gap is s up = record {
  known = up.wide;
  sized = up.sized;
  before = λ i l. absurd (omega arith);
  after = λ i l k. (let e : i + 1 ≡ suc i = omega arith in rw e at (up.done i (omega arith) k));
}

back-Gap : (is s : Intset) → Upgrading is 0 0 s → Gap is is.len s
back-Gap is s up = record {
  known = up.wide;
  sized = up.sized;
  before = λ i l. (let e : i + 0 ≡ i = omega arith in rw e at (up.done i (omega arith) l));
  after = λ i l k. absurd (omega arith);
}

module _ (junk : ℕ → ℕ) (is : Intset) (v : ℤ) (valid : Valid is) (small : is.len < 2 ^ 28)
    (fit : Fits 8 v) (beyond : is.encoding < value_encoding v) where
  abbrev start : Intset
  start = resize_to junk (record is { encoding = value_encoding v }) (suc is.len)

  start-Upgrading : (prepend : ℕ) → Upgrading is prepend is.len start
  unfolding resize_to get
  start-Upgrading prepend =
      let wide = value_encoding-IsEncoding v in
      record {
        wide = wide;
        wider = omega arith;
        sized =
            length-resize_to junk (record is { encoding = value_encoding v }) (suc is.len) wide
              (omega arith);
        narrow = λ k l.
            get_encoded-resize_to junk (record is { encoding = value_encoding v }) (suc is.len) k
              is.encoding wide (omega arith)
              (omega (arith, valid.sized, cell_fits valid.known k is.len l))
              (narrow_room valid.known wide (omega arith) k (suc is.len) (omega arith));
        done = λ k l m. absurd (omega arith);
      }

  module _ (prepend : ℕ) (one : prepend ≤ 1) where
    abbrev upgraded : Intset
    upgraded = upgrade_loop is.len prepend is.encoding start

    upgraded-Upgrading : Upgrading is prepend 0 upgraded
    upgraded-Upgrading =
        upgrade_loop-Upgrading is.len is prepend start valid one (omega arith)
          (start-Upgrading prepend)

    upgraded-Fits : Fits upgraded.encoding v
    unfolding resize_to
    upgraded-Fits =
        rw (encoding-upgrade_loop is.len prepend is.encoding start)
          (value_encoding-Fits (value_encoding-IsEncoding v) v fit (omega arith))

    placed-Valid :
        (p : ℕ)
        → Inserted is v p (record (put upgraded p v) { len = suc is.len })
        → Gap is p upgraded
        → Below is v p
        → Above is v p
        → Valid (record (put upgraded p v) { len = suc is.len })
    unfolding put
    placed-Valid p ins gap below above =
        let up = upgraded-Upgrading in
        Inserted-Valid is (record (put upgraded p v) { len = suc is.len }) v p ins gap.known
          (length-put upgraded p v ∙ gap.sized) upgraded-Fits
          (λ i l. widen valid.known up.wide up.wider (get is i) (valid.fits i l)) valid.sorted below
          above

    finish-Added :
        (p : ℕ)
        → p ≤ is.len
        → Gap is p upgraded
        → Below is v p
        → Above is v p
        → Added is v (record (put upgraded p v) { len = suc is.len })
    finish-Added p inside gap below above =
        let ins = put-Inserted is upgraded p v gap inside upgraded-Fits in
        record { place = p; inserted = ins; valid = placed-Valid p ins gap below above }

  pub upgrade_and_add-Added : Added is v (upgrade_and_add junk is v)
  unfolding upgrade_and_add
  upgrade_and_add-Added =
      let next : (is.len + 1) % 2 ^ 32 ≡ suc is.len = omega arith in
      elim (Bool-cases (ltb_ℤ v (pos 0))) [
        | inl e ↦
            rw (next, e)
              (finish-Added 1 (omega arith) 0 (omega arith)
                (front-Gap is (upgraded 1 (omega arith)) (upgraded-Upgrading 1 (omega arith)))
                (λ i l. absurd (omega arith))
                (λ i l k. value_encoding_below valid.known v (get is i) beyond (valid.fits i k) e))
        | inr e ↦
            rw (next, e)
              (finish-Added 0 (omega arith) is.len (omega arith)
                (back-Gap is (upgraded 0 (omega arith)) (upgraded-Upgrading 0 (omega arith)))
                (λ i l. value_encoding_above valid.known v (get is i) beyond (valid.fits i l) e)
                (λ i l k. absurd (omega arith)))
      ]
