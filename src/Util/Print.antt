-- ===== src/Util/Print.antt =====
-- `ll2string` (src/vr_util.c) writes the decimal text, in place and from its end.
use native.Mathlib.Nat.{pow-suc}
use mathlib.Core.List.{append_assoc}
use myownproject.Base.{
  ℕ, zero, suc, ◌+◌, ◌-◌, ◌*◌, ◌/◌, ◌%◌, ◌^◌, ◌≤◌, ◌<◌, ◌≡◌, refl, Bool, true, false, List, [], ◌∷◌,
  ◌++◌, arith, length, length-append, ap, ◌∙◌, Bool-cases, inl, inr, take, drop, set, get_or,
  length-set, take-set, drop-set_self, set_split, ltb, if◌then◌else◌, leb, ◌==◌, ==_iff,
}
use myownproject.Base.Int.{ℤ, pos, negsuc}
use myownproject.Util.{digits10, print_loop, write_pair, digit_pairs, ll2string, magnitude, ll_max}
use myownproject.Util.Decimal.{decimal, decimal_small, decimal_step}
use myownproject.Util.Digits.{digits10-decimal, length-decimal_pos}

-- Whether a test holds of every number below a bound, by evaluation.
checked : (ℕ → Bool) → ℕ → Bool
checked test zero = true
checked test (suc bound) = if test bound then checked test bound else false

checked→test :
    (test : ℕ → Bool) (bound i : ℕ) → i < bound → checked test bound ≡ true → test i ≡ true
unfolding checked
checked→test test zero i below run = absurd (omega arith)
checked→test test (suc bound) i below run = ground (arith, checked→test test bound i)

-- The constant table holds the two digits of every number below 100.
high_digits_table : checked (λ i. get_or digit_pairs (i * 2) 0 == b'0' + i / 10) 100 ≡ true
unfolding checked
high_digits_table = refl

low_digits_table : checked (λ i. get_or digit_pairs (i * 2 + 1) 0 == b'0' + i % 10) 100 ≡ true
unfolding checked
low_digits_table = refl

digit_pairs_lem :
    (i : ℕ)
    → i < 100
    → (get_or digit_pairs (i * 2) 0 ≡ b'0' + i / 10)
      × (get_or digit_pairs (i * 2 + 1) 0 ≡ b'0' + i % 10)
digit_pairs_lem i h = (
  (==_iff _ _).0 (checked→test _ 100 i h high_digits_table),
  (==_iff _ _).0 (checked→test _ 100 i h low_digits_table),
)

abbrev two_digits : ℕ → List ℕ
two_digits i = (b'0' + i / 10) ∷ (b'0' + i % 10) ∷ []

write_pair_lem :
    (dst : List ℕ) (p i : ℕ)
    → suc p < length dst
    → i < 100
    → write_pair dst (suc p) (i * 2) ≡ take p dst ++ (two_digits i ++ drop (suc (suc p)) dst)
unfolding write_pair
write_pair_lem dst p i h small =
    let b = b'0' + i % 10 in
    let (hi, lo) = digit_pairs_lem i small in
    let at : suc p - 1 ≡ p = omega arith in
    rw (hi, lo, at)
      (set_split (set dst (suc p) b) p (b'0' + i / 10) (rw length-set (omega arith))
        ∙ rw (take-set dst p (suc p) b (omega arith), drop-set_self dst (suc p) b h))

decimal_pair : (v : ℕ) → 100 ≤ v → decimal v ≡ decimal (v / 100) ++ two_digits (v % 100)
decimal_pair v h =
    let a : v / 10 / 10 ≡ v / 100 = omega arith in
    let b : v / 10 % 10 ≡ v % 100 / 10 = omega arith in
    let c : v % 10 ≡ v % 100 % 10 = omega arith in
    decimal_step v (omega arith) ∙ rw (decimal_step (v / 10) (omega arith), a, b, c, append_assoc)

decimal_two : (v : ℕ) → 10 ≤ v → v < 100 → decimal v ≡ two_digits v
decimal_two v h l = decimal_step v h ∙ rw (decimal_small (v / 10) (omega arith))

length-pair : (v : ℕ) → 100 ≤ v → length (decimal v) ≡ length (decimal (v / 100)) + 2
length-pair v h = ap length (decimal_pair v h) ∙ length-append (decimal (v / 100)) _

module _ (dst : List ℕ) (p i : ℕ) (inside : suc p < length dst) (small : i < 100) where
  length-write_pair : length (write_pair dst (suc p) (i * 2)) ≡ length dst
  unfolding write_pair
  length-write_pair = rw (length-set, length-set)

  take-write_pair : (o : ℕ) → o ≤ p → take o (write_pair dst (suc p) (i * 2)) ≡ take o dst
  unfolding write_pair
  take-write_pair o h =
      let at : suc p - 1 ≡ p = omega arith in
      rw at (take-set _ o p _ h ∙ take-set dst o (suc p) _ (omega arith))

  drop-write_pair : drop p (write_pair dst (suc p) (i * 2)) ≡ two_digits i ++ drop (suc (suc p)) dst
  unfolding write_pair
  drop-write_pair =
      let b = b'0' + i % 10 in
      let (hi, lo) = digit_pairs_lem i small in
      let at : suc p - 1 ≡ p = omega arith in
      rw (hi, lo, at)
        (drop-set_self (set dst (suc p) b) p (b'0' + i / 10) (rw length-set (omega arith))
          ∙ ap (λ l. (b'0' + i / 10) ∷ l) (drop-set_self dst (suc p) b inside))

print_big :
    (fuel v : ℕ) (dst : List ℕ) (next : ℕ)
    → leb 100 v ≡ true
    → print_loop (suc fuel) dst v next
      ≡ print_loop fuel (write_pair dst next (v % 100 * 2)) (v / 100) (next - 2)
unfolding print_loop
print_big fuel v dst next h = rw h

print_two :
    (fuel v : ℕ) (dst : List ℕ) (next : ℕ)
    → leb 100 v ≡ false
    → ltb v 10 ≡ false
    → print_loop (suc fuel) dst v next ≡ write_pair dst next (v * 2)
unfolding print_loop
print_two fuel v dst next h k = rw (h, k)

more_fuel : (fuel v : ℕ) → 100 ≤ v → v < 100 ^ suc fuel → 0 < fuel
more_fuel zero v h l = absurd (omega arith)
more_fuel (suc fuel) v h l = omega arith

-- The loop writes the decimal text so that it ends at `next`, and touches nothing else.
print_loop_lem :
    (fuel v : ℕ) (dst : List ℕ) (next o : ℕ)
    → 0 < fuel
    → v < 100 ^ fuel
    → o + length (decimal v) ≡ suc next
    → next < length dst
    → print_loop fuel dst v next ≡ take o dst ++ (decimal v ++ drop (suc next) dst)
print_loop_lem zero v dst next o f h e l = absurd (omega arith)
print_loop_lem (suc fuel) v dst next o f h e l = elim (Bool-cases (leb 100 v)) [
  | inl big ↦
      let p = next - 1 in
      let at : next ≡ suc p =
        omega (arith, length-pair v (ground arith), length-decimal_pos (v / 100)) in
      let back : suc (suc p - 2) ≡ p =
        omega (arith, length-pair v (ground arith), length-decimal_pos (v / 100)) in
      let inside : suc p < length dst = omega arith in
      let low : v % 100 < 100 = omega arith in
      let rest =
        print_loop_lem fuel (v / 100) (write_pair dst (suc p) (v % 100 * 2)) (suc p - 2) o
          (more_fuel fuel v (ground arith) h) (omega (arith, pow-suc 100 fuel))
          (omega (arith, length-pair v (ground arith), length-decimal_pos (v / 100)))
          (omega (arith, length-write_pair dst p (v % 100) inside low)) in
      print_big fuel v dst next big
      ∙ ap (λ n. print_loop fuel (write_pair dst n (v % 100 * 2)) (v / 100) (n - 2)) at
      ∙ rest
      ∙ rw (
        back,
        take-write_pair dst p (v % 100) inside low o
            (omega (arith, length-pair v (ground arith), length-decimal_pos (v / 100))),
        drop-write_pair dst p (v % 100) inside low,
        decimal_pair v (ground arith),
        ← at,
        append_assoc,
      )
  | inr small ↦ elim (Bool-cases (ltb v 10)) [
    | inl one ↦
        let d = decimal_small v (ground arith) in
        let at : next ≡ o = omega (arith, ap length d) in
        unfold print_loop in rw (small, one, d, at) (set_split dst o (b'0' + v) (omega arith))
    | inr two ↦
        let d = decimal_two v (ground arith) (ground arith) in
        let at : next ≡ suc o = omega (arith, ap length d) in
        print_two fuel v dst next small two
        ∙ rw (d, at) (write_pair_lem dst o v (omega arith) (ground arith))
  ]
]

abbrev pub IsLongLong : ℤ → Type 0
IsLongLong (pos n) = n ≤ ll_max
IsLongLong (negsuc n) = n ≤ ll_max

-- The decimal text of an integer.
unfoldable pub text : ℤ → List ℕ
text (pos n) = decimal n
text (negsuc n) = b'-' ∷ decimal (n + 1)

ll2string_pos :
    (dst : List ℕ) (n : ℕ)
    → n ≤ ll_max
    → length (decimal n) < length dst
    → ll2string dst (pos n)
      ≡ (length (decimal n), decimal n ++ (0 ∷ drop (suc (length (decimal n))) dst))
unfolding ll2string
ll2string_pos dst n h l =
    let len = length (decimal n) in
    let d : digits10 n ≡ len = digits10-decimal n (omega arith) in
    let z : len + 0 ≡ len = omega arith in
    let fits : leb (length dst) len ≡ false = ground arith in
    let back : suc (len - 1) ≡ len = omega (arith, length-decimal_pos n) in
    rw (d, z, fits)
      (ap (λ b. (len, b))
        (print_loop_lem 10 n (set dst len 0) (len - 1) 0 (omega arith) (omega arith) (omega arith)
            (rw length-set (omega arith))
          ∙ rw (back, drop-set_self dst len 0 l)))

magnitude-negsuc : (n : ℕ) → magnitude (negsuc n) ≡ n + 1
magnitude-negsuc n = ground arith

ll2string_neg :
    (x : ℕ) (r : List ℕ) (n : ℕ)
    → n ≤ ll_max
    → suc (length (decimal (n + 1))) < length (x ∷ r)
    → ll2string (x ∷ r) (negsuc n) ≡ (
      suc (length (decimal (n + 1))),
      b'-' ∷ (decimal (n + 1) ++ (0 ∷ drop (suc (length (decimal (n + 1)))) r)),
    )
unfolding ll2string
ll2string_neg x r n h l =
    let v = n + 1 in
    let k = length (decimal v) in
    let d : digits10 v ≡ k = digits10-decimal v (omega arith) in
    let z : k + 1 ≡ suc k = omega arith in
    let fits : leb (length (x ∷ r)) (suc k) ≡ false = ground arith in
    let back : suc (suc k - 1) ≡ suc k = omega arith in
    let printed : print_loop 10 (x ∷ set r k 0) v (suc k - 1)
        ≡ x ∷ (decimal v ++ (0 ∷ drop (suc k) r)) =
      print_loop_lem 10 v (x ∷ set r k 0) (suc k - 1) 1 (omega arith) (omega arith) (omega arith)
        (rw length-set (omega arith))
      ∙ rw (back, drop-set_self r k 0 (omega arith)) in
    rw (magnitude-negsuc n, d, z, fits) (ap (λ b. (suc k, set b 0 b'-')) printed)

-- A number that fits the buffer is written as its decimal text and a NUL.
pub ll2string-text :
    (dst : List ℕ) (z : ℤ)
    → IsLongLong z
    → length (text z) < length dst
    → ll2string dst z ≡ (length (text z), text z ++ (0 ∷ drop (suc (length (text z))) dst))
unfolding text
ll2string-text dst (pos n) h l = ll2string_pos dst n h l
ll2string-text [] (negsuc n) h l = absurd (omega arith)
ll2string-text (x ∷ r) (negsuc n) h l = ll2string_neg x r n h l

-- A number that does not leaves the buffer alone, and the result is 0.
pub ll2string_short :
    (dst : List ℕ) (z : ℤ)
    → IsLongLong z
    → length dst ≤ length (text z)
    → ll2string dst z ≡ (0, dst)
unfolding text ll2string
ll2string_short dst (pos n) h l =
    let d : digits10 n ≡ length (decimal n) = digits10-decimal n (omega arith) in
    let full : leb (length dst) (length (decimal n) + 0) ≡ true = ground arith in rw (d, full)
ll2string_short dst (negsuc n) h l =
    let d : digits10 (n + 1) ≡ length (decimal (n + 1)) = digits10-decimal (n + 1) (omega arith) in
    let full : leb (length dst) (length (decimal (n + 1)) + 1) ≡ true = ground arith in
    rw (magnitude-negsuc n, d, full)
