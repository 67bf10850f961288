-- ===== src/Util/Amount.antt =====
-- src/vr_util.c: memtoll reads what a number and a unit say.
use myownproject.Base.{
  ℕ, zero, suc, ◌+◌, ◌-◌, ◌*◌, ◌/◌, ◌%◌, ◌^◌, ◌≤◌, ◌<◌, ◌≡◌, refl, ◌∙◌, inl, inr, Bool, true, false,
  ◌&&◌, some, List, [], ◌∷◌, ◌++◌, leb, ltb, ◌==◌, arith, length, Bool-cases, length-append,
  take-append,
}
use myownproject.Base.Int.{pos}
use myownproject.Util.{codes}
use myownproject.Util.Decimal.{decimal, decimal_small, decimal_step}
use myownproject.Util.Digits.{length-decimal_step, length-decimal_small, length-decimal_pos}
use myownproject.Util.Memory.{
  is_digit, skip_digits, unit_of, same_text, unit_value, digits_value, strtoll, memtoll,
}

unfoldable all_digits : List ℕ → Bool
all_digits [] = true
all_digits (c ∷ cs) = is_digit c && all_digits cs

all_digits-snoc :
    (xs : List ℕ) (c : ℕ)
    → all_digits xs ≡ true
    → is_digit c ≡ true
    → all_digits (xs ++ (c ∷ [])) ≡ true
unfolding all_digits
all_digits-snoc [] c h d = ground arith
all_digits-snoc (x ∷ xs) c h d = ground (arith, all_digits-snoc xs c)

digits_value-snoc :
    (xs : List ℕ) (acc c : ℕ)
    → digits_value acc (xs ++ (c ∷ [])) ≡ digits_value acc xs * 10 + (c - b'0')
unfolding digits_value
digits_value-snoc [] acc c = refl
digits_value-snoc (x ∷ xs) acc c = digits_value-snoc xs (acc * 10 + (x - b'0')) c

-- The text of a number is digits, and they have its value.
abbrev Written : ℕ → List ℕ → Type 0
Written v ds = (all_digits ds ≡ true) × (digits_value 0 ds ≡ v)

digit-Written : (v : ℕ) → v < 10 → Written v (decimal v)
unfolding all_digits digits_value
digit-Written v s = rw (decimal_small v s) (ground arith, omega arith)

decimal-Written : (k v : ℕ) → v ≤ k → Written v (decimal v)
decimal-Written zero v l = digit-Written v (omega arith)
decimal-Written (suc k) v l = elim (Bool-cases (ltb v 10)) [
  | inl e ↦ digit-Written v (ground arith)
  | inr e ↦
      let b : 10 ≤ v = ground arith in
      let (h, w) = decimal-Written k (v / 10) (omega (arith, b, l)) in
      rw (decimal_step v b) (
        all_digits-snoc (decimal (v / 10)) (b'0' + v % 10) h (ground arith),
        digits_value-snoc (decimal (v / 10)) 0 (b'0' + v % 10) ∙ rw w (omega arith),
      )
]

-- A number below a power of ten has as many digits at most.
unfoldable tens : ℕ → ℕ
tens zero = 10
tens (suc m) = 10 * tens m

length-decimal-le : (m v : ℕ) → v < tens m → length (decimal v) ≤ suc m
unfolding tens
length-decimal-le zero v l = omega (arith, length-decimal_small v (omega arith))
length-decimal-le (suc m) v l = elim (Bool-cases (ltb v 10)) [
  | inl e ↦ let s : v < 10 = ground arith in omega (arith, length-decimal_small v s)
  | inr e ↦
      let b : 10 ≤ v = ground arith in
      let q : v / 10 < tens m = omega arith in
      omega (arith, length-decimal_step v b, length-decimal-le m (v / 10) q)
]

skip_digits-append :
    (ds s : List ℕ) → all_digits ds ≡ true → skip_digits s ≡ s → skip_digits (ds ++ s) ≡ s
unfolding all_digits skip_digits
skip_digits-append [] s h e = e
skip_digits-append (c ∷ cs) s h e =
    (let d : is_digit c ≡ true = ground arith in
      let r : all_digits cs ≡ true = ground arith in rw d (skip_digits-append cs s r e))

unit_of-append :
    (ds s : List ℕ)
    → all_digits ds ≡ true
    → 0 < length ds
    → skip_digits s ≡ s
    → unit_of (ds ++ s) ≡ s
unfolding unit_of all_digits
unit_of-append [] s h l e = absurd (omega arith)
unit_of-append (c ∷ cs) s h l e =
    (let d : (c == b'-') ≡ false = ground arith in rw d (skip_digits-append (c ∷ cs) s h e))

strtoll-digits :
    (empty_fails : Bool) (ds : List ℕ) (v : ℕ)
    → Written v ds
    → 0 < length ds
    → v < 2 ^ 63
    → strtoll empty_fails ds ≡ some (pos v)
unfolding strtoll all_digits
strtoll-digits f [] v w l b = absurd (omega arith)
strtoll-digits f (c ∷ []) v (h, w) l b =
    (let d : (c == b'-') ≡ false = ground arith in
      let m : leb v (2 ^ 63 - 1) ≡ true = ground arith in rw (d, w, m) refl)
strtoll-digits f (c ∷ d ∷ ds) v (h, w) l b =
    (let e : (c == b'-') ≡ false = ground arith in
      let m : leb v (2 ^ 63 - 1) ≡ true = ground arith in rw (e, w, m) refl)

-- The units, as they are written, and how many bytes each stands for.
pub data Amount : Type 0 where
  plain_bytes : Amount
  bytes : Amount
  thousands : Amount
  kilobytes : Amount
  millions : Amount
  megabytes : Amount
  billions : Amount
  gigabytes : Amount

abbrev pub suffix : Amount → List ℕ
suffix plain_bytes = []
suffix bytes = codes "b"
suffix thousands = codes "k"
suffix kilobytes = codes "kb"
suffix millions = codes "m"
suffix megabytes = codes "mb"
suffix billions = codes "g"
suffix gigabytes = codes "gb"

abbrev pub multiple : Amount → ℕ
multiple plain_bytes = 1
multiple bytes = 1
multiple thousands = 10 ^ 3
multiple kilobytes = 2 ^ 10
multiple millions = 10 ^ 6
multiple megabytes = 2 ^ 20
multiple billions = 10 ^ 9
multiple gigabytes = 2 ^ 30

suffix_known :
    (u : Amount) → (skip_digits (suffix u) ≡ suffix u) × (unit_value (suffix u) ≡ some (multiple u))
unfolding skip_digits unit_value same_text
suffix_known plain_bytes = (refl, refl)
suffix_known bytes = (refl, refl)
suffix_known thousands = (refl, refl)
suffix_known kilobytes = (refl, refl)
suffix_known millions = (refl, refl)
suffix_known megabytes = (refl, refl)
suffix_known billions = (refl, refl)
suffix_known gigabytes = (refl, refl)

below_tens : (m : ℕ) → m < 2 ^ 63 → m < tens 18
unfolding tens
below_tens m l = omega (arith, l)

multiple_pos : (u : Amount) → 0 < multiple u
multiple_pos plain_bytes = omega arith
multiple_pos bytes = omega arith
multiple_pos thousands = omega arith
multiple_pos kilobytes = omega arith
multiple_pos millions = omega arith
multiple_pos megabytes = omega arith
multiple_pos billions = omega arith
multiple_pos gigabytes = omega arith

le-mul : (n m : ℕ) → 0 < m → n ≤ n * m
le-mul n zero p = absurd (omega arith)
le-mul n (suc m) p = grind arith

-- memtoll reads a number, written in decimal, with a unit behind it, as that many times what the unit
-- stands for, where that is below 2^63; the C library may or may not refuse an empty number.
pub memtoll-decimal :
    (empty_fails : Bool) (n : ℕ) (u : Amount)
    → n * multiple u < 2 ^ 63
    → memtoll empty_fails (decimal n ++ suffix u) ≡ some (pos (n * multiple u))
unfolding memtoll
memtoll-decimal f n u fits =
    (let b : n < 2 ^ 63 = omega (arith, le-mul n (multiple u) (multiple_pos u), fits) in
      let word : n * multiple u % 2 ^ 64 ≡ n * multiple u = omega (arith, fits) in
      let positive : ltb (n * multiple u) (2 ^ 63) ≡ true = ground (arith, fits) in
      let (d, w) = decimal-Written n n (omega arith) in
      let (s, k) = suffix_known u in
      let start = unit_of-append (decimal n) (suffix u) d (length-decimal_pos n) s in
      let size : length (decimal n ++ suffix u) - length (suffix u) ≡ length (decimal n) =
        omega (arith, length-append (decimal n) (suffix u)) in
      let few : leb 128 (length (decimal n)) ≡ false =
        (let m = length-decimal-le 18 n (below_tens n b) in ground arith) in
      rw
        (
          memtoll,
          start,
          k,
          size,
          few,
          take-append (decimal n) (suffix u),
          strtoll-digits f (decimal n) n (d, w) (length-decimal_pos n) b,
          word,
          positive,
        )
        refl)
