-- ===== src/Util/Parse.antt =====
-- `string2ll` (src/vr_util.c) accepts exactly the decimal texts of 64-bit integers.
use mathlib.Core.List.{append_assoc, append-nil}
use myownproject.Base.{
  ℕ, zero, suc, ◌+◌, ◌-◌, ◌*◌, ◌/◌, ◌%◌, ◌^◌, ◌≤◌, ◌<◌, ◌≡◌, refl, true, false, Option, none, some,
  List, [], ◌∷◌, ◌++◌, arith, ap, ◌∙◌, sym, ◌⊎◌, Bool-cases, inl, inr, ltb, ◌==◌,
}
use myownproject.Base.Int.{ℤ, pos, negsuc}
use myownproject.Util.{parse_loop, parse_end, parse_digits, string2ll, ll_max, ull_max}
use myownproject.Util.Decimal.{decimal, decimal_small, decimal_step, decimal_digit}
use myownproject.Util.Print.{text, IsLongLong}

-- A digit that the loop takes does not overflow.
parse_loop_cons :
    (c : ℕ) (p : List ℕ) (v w : ℕ)
    → parse_loop (c ∷ p) v ≡ some (w, [])
    → (b'0' ≤ c)
      × (c ≤ b'9')
      × (v * 10 + (c - b'0') < 2 ^ 64)
      × (parse_loop p (v * 10 + (c - b'0')) ≡ some (w, []))
unfolding parse_loop
parse_loop_cons c p v w e =
    let lo : b'0' ≤ c = ground arith in
    let hi : c ≤ b'9' = ground arith in
    let small : v ≤ ull_max / 10 = ground arith in
    let fits : v * 10 + (c - b'0') < 2 ^ 64 = ground arith in
    let same : (v * 10 % 2 ^ 64 + (c - b'0')) % 2 ^ 64 ≡ v * 10 + (c - b'0') = omega arith in
    let run : parse_loop p ((v * 10 % 2 ^ 64 + (c - b'0')) % 2 ^ 64) ≡ some (w, []) =
      ground arith in
    (lo, hi, fits, rw same at run)

-- What the loop has read so far and what it reads are the text of its result.
parse_loop-decimal :
    (p : List ℕ) (v w : ℕ)
    → 0 < v
    → v < 2 ^ 64
    → parse_loop p v ≡ some (w, [])
    → (decimal v ++ p ≡ decimal w) × (w < 2 ^ 64) × (0 < w)
unfolding parse_loop
parse_loop-decimal [] v w h l e =
    let same : v ≡ w = ground arith in
    (append-nil (decimal v) ∙ ap decimal same, ground arith, ground arith)
parse_loop-decimal (c ∷ p) v w h l e =
    let (lo, hi, fits, rest) = parse_loop_cons c p v w e in
    let d = c - b'0' in
    let back : b'0' + d ≡ c = omega arith in
    let (f, g, k) = parse_loop-decimal p (v * 10 + d) w (omega arith) fits rest in
    (
      sym (append_assoc (decimal v) (c ∷ []) p)
          ∙ ap (λ n. (decimal v ++ (n ∷ [])) ++ p) (sym back)
          ∙ ap (λ l. l ++ p) (sym (decimal_digit v d h (omega arith)))
          ∙ f,
      g,
      k,
    )

parse_loop-append :
    (p q : List ℕ) (v w : ℕ)
    → parse_loop p v ≡ some (w, [])
    → parse_loop (p ++ q) v ≡ parse_loop q w
unfolding parse_loop
parse_loop-append [] q v w e = ap (parse_loop q) (ground arith)
parse_loop-append (c ∷ p) q v w e =
    ground (arith, parse_loop-append p q ((v * 10 % 2 ^ 64 + (c - b'0')) % 2 ^ 64) w)

parse_loop_step :
    (v d : ℕ)
    → v * 10 + d < 2 ^ 64
    → d < 10
    → parse_loop ((b'0' + d) ∷ []) v ≡ some (v * 10 + d, [])
unfolding parse_loop
parse_loop_step v d h l = ground arith

-- A text that begins with the digit `c`, which the loop reads as `w`.
record Reads (w : ℕ) : Type 0 where
  c : ℕ
  p : List ℕ
  digits : decimal w ≡ c ∷ p
  first : (b'1' ≤ c) × (c ≤ b'9')
  loop : parse_loop p (c - b'0') ≡ some (w, [])

decimal-Reads : (n w : ℕ) → w ≤ n → 0 < w → w < 2 ^ 64 → Reads w
unfolding parse_loop
decimal-Reads zero w h k l = absurd (omega arith)
decimal-Reads (suc n) w h k l = elim (Bool-cases (ltb w 10)) [
  | inl e ↦ record {
    c = b'0' + w;
    p = [];
    digits = decimal_small w (ground arith);
    first = (omega arith, ground arith);
    loop = ground arith;
  }
  | inr e ↦
      let r = decimal-Reads n (w / 10) (ground arith) (ground arith) (omega arith) in
      let whole : w / 10 * 10 + w % 10 ≡ w = omega arith in
      record {
        c = r.c;
        p = r.p ++ ((b'0' + w % 10) ∷ []);
        digits = decimal_step w (ground arith) ∙ ap (λ l. l ++ ((b'0' + w % 10) ∷ [])) r.digits;
        first = r.first;
        loop =
            parse_loop-append r.p ((b'0' + w % 10) ∷ []) (r.c - b'0') (w / 10) r.loop
            ∙ parse_loop_step (w / 10) (w % 10) (omega arith) (omega arith)
            ∙ ap (λ (t : ℕ). some (t, [])) whole;
      }
]

string2ll_digits :
    (c : ℕ) (p : List ℕ)
    → b'1' ≤ c
    → c ≤ b'9'
    → string2ll (c ∷ p) ≡ parse_end false (parse_loop p (c - b'0'))
unfolding string2ll parse_digits
string2ll_digits c p lo hi = ground arith

string2ll_minus :
    (c : ℕ) (p : List ℕ)
    → b'1' ≤ c
    → c ≤ b'9'
    → string2ll (b'-' ∷ c ∷ p) ≡ parse_end true (parse_loop p (c - b'0'))
unfolding string2ll parse_digits
string2ll_minus c p lo hi = ground arith

-- Every 64-bit integer is read back from its decimal text.
pub string2ll-text : (z : ℤ) → IsLongLong z → string2ll (text z) ≡ some z
unfolding text parse_end string2ll
string2ll-text (pos zero) h = ap string2ll (decimal_small 0 (omega arith))
string2ll-text (pos (suc n)) h =
    let r = decimal-Reads (suc n) (suc n) (omega arith) (omega arith) (omega arith) in
    ap string2ll r.digits
    ∙ string2ll_digits r.c r.p r.first.0 r.first.1
    ∙ ap (parse_end false) r.loop
    ∙ ground arith
string2ll-text (negsuc n) h =
    let r = decimal-Reads (n + 1) (n + 1) (omega arith) (omega arith) (omega arith) in
    ap (λ l. string2ll (b'-' ∷ l)) r.digits
    ∙ string2ll_minus r.c r.p r.first.0 r.first.1
    ∙ ap (parse_end true) r.loop
    ∙ ground arith

parse_end_pos :
    (o : Option (ℕ × List ℕ)) (z : ℤ)
    → parse_end false o ≡ some z
    → (w : ℕ) × (o ≡ some (w, [])) × (z ≡ pos w) × (w ≤ ll_max)
unfolding parse_end
parse_end_pos none z e = cc
parse_end_pos (some (w, c ∷ rest)) z e = cc
parse_end_pos (some (w, [])) z e = (w, refl, ground arith, ground arith)

parse_end_neg :
    (o : Option (ℕ × List ℕ)) (z : ℤ)
    → parse_end true o ≡ some z
    → (w : ℕ) × (o ≡ some (w, [])) × (0 < w → z ≡ negsuc (w - 1)) × (w ≤ ll_max + 1)
unfolding parse_end
parse_end_neg none z e = cc
parse_end_neg (some (w, c ∷ rest)) z e = cc
parse_end_neg (some (w, [])) z e = (w, refl, λ h. ground arith, ground arith)

abbrev ZeroText : ℕ → List ℕ → ℤ → Type 0
ZeroText c p z = (c ≡ b'0') × (p ≡ []) × (z ≡ pos 0)

-- The three ways in which `string2ll` succeeds.
string2ll_cases :
    (c : ℕ) (p : List ℕ) (z : ℤ)
    → string2ll (c ∷ p) ≡ some z
    → ZeroText c p z
      ⊎ ((b'1' ≤ c) × (c ≤ b'9') × (parse_end false (parse_loop p (c - b'0')) ≡ some z))
      ⊎ ((a : ℕ) × (q : List ℕ) × (c ≡ b'-')
          × (p ≡ a ∷ q)
          × (b'1' ≤ a)
          × (a ≤ b'9')
          × (parse_end true (parse_loop q (a - b'0')) ≡ some z))
unfolding string2ll parse_digits
string2ll_cases c [] z e = elim (Bool-cases (c == b'0')) [
  | inl f ↦ inl (ground arith, refl, ground arith)
  | inr f ↦ elim (Bool-cases (c == b'-')) [
    | inl g ↦ absurd (ground arith)
    | inr g ↦ inr (inl (ground arith, ground arith, ground arith))
  ]
]
string2ll_cases c (a ∷ q) z e = elim (Bool-cases (c == b'-')) [
  | inl g ↦ inr (inr (a, q, ground arith, refl, ground arith, ground arith, ground arith))
  | inr g ↦ inr (inl (ground arith, ground arith, ground arith))
]

read_positive :
    (c : ℕ) (p : List ℕ) (z : ℤ)
    → b'1' ≤ c
    → c ≤ b'9'
    → parse_end false (parse_loop p (c - b'0')) ≡ some z
    → (c ∷ p ≡ text z) × IsLongLong z
unfolding text
read_positive c p z lo hi e =
    let (w, run, same, small) = parse_end_pos (parse_loop p (c - b'0')) z e in
    let (f, g, k) = parse_loop-decimal p (c - b'0') w (omega arith) (omega arith) run in
    let back : b'0' + (c - b'0') ≡ c = omega arith in
    rw same (
      ap (λ n. n ∷ p) (sym back)
          ∙ ap (λ l. l ++ p) (sym (decimal_small (c - b'0') (omega arith)))
          ∙ f,
      small,
    )

read_negative :
    (a : ℕ) (q : List ℕ) (z : ℤ)
    → b'1' ≤ a
    → a ≤ b'9'
    → parse_end true (parse_loop q (a - b'0')) ≡ some z
    → (b'-' ∷ a ∷ q ≡ text z) × IsLongLong z
unfolding text
read_negative a q z lo hi e =
    let (w, run, same, small) = parse_end_neg (parse_loop q (a - b'0')) z e in
    let (f, g, k) = parse_loop-decimal q (a - b'0') w (omega arith) (omega arith) run in
    let back : b'0' + (a - b'0') ≡ a = omega arith in
    let whole : w ≡ w - 1 + 1 = omega arith in
    rw (same k) (
      ap (λ n. b'-' ∷ n ∷ q) (sym back)
          ∙ ap (λ l. b'-' ∷ (l ++ q)) (sym (decimal_small (a - b'0') (omega arith)))
          ∙ ap (λ l. b'-' ∷ l) (f ∙ ap decimal whole),
      omega arith,
    )

-- What `string2ll` accepts is the decimal text of its result, which a `long long` holds: no plus
-- sign, no leading zero, no `-0`, nothing behind the number, no overflow.
pub string2ll_sound : (s : List ℕ) (z : ℤ) → string2ll s ≡ some z → (s ≡ text z) × IsLongLong z
unfolding text
string2ll_sound [] z e = unfold string2ll in cc
string2ll_sound (c ∷ p) z e = elim (string2ll_cases c p z e) [
  | inl (f, g, h) ↦ rw (f, g, h) (sym (decimal_small 0 (omega arith)), omega arith)
  | inr (inl (lo, hi, f)) ↦ read_positive c p z lo hi f
  | inr (inr (a, q, f, g, lo, hi, h)) ↦ rw (f, g) (read_negative a q z lo hi h)
]
