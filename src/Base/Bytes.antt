-- ===== src/Base/Bytes.antt =====
-- Memory as a list of bytes: words in little-endian order, and moves of a range.
use native.Mathlib.Nat.{pow-suc}
use myownproject.Base.Tests.{leb, Bool-cases}
use myownproject.Base.Lists.{
  length, get_or, set, take, drop, length-set, get_or-set, length-take, length-drop, length-append,
  get_or-append, get_or-drop,
}
use Prim.Native.Nat.{ℕ, zero, suc, ◌+◌, ◌-◌, ◌*◌, ◌/◌, ◌%◌, ◌^◌, ◌≤◌, ◌<◌}
use mathlib.Core.Path.{◌≡◌, refl, ap, ◌∙◌}
use mathlib.Core.Logic.{◌⊎◌, inl, inr}
use mathlib.Core.List.{List, [], ◌∷◌, ◌++◌}
use native.Mathlib.Omega.{arith}

-- The word of `n` bytes at `at`.
abbrev pub word : ℕ → List ℕ → ℕ → ℕ
word zero memory at = 0
word (suc n) memory at = get_or memory at 0 + 256 * word n memory (suc at)

-- Store a word of `n` bytes at `at`.
abbrev pub store : ℕ → List ℕ → ℕ → ℕ → List ℕ
store zero memory at w = memory
store (suc n) memory at w = store n (set memory at (w % 256)) (suc at) (w / 256)

pub length-store :
    (n : ℕ) (memory : List ℕ) (at w : ℕ) → length (store n memory at w) ≡ length memory
length-store zero memory at w = refl
length-store (suc n) memory at w = omega (
  arith,
  length-store n (set memory at (w % 256)) (suc at) (w / 256),
  length-set memory at (w % 256),
)

-- A store leaves the bytes outside of its range.
pub get_or-store :
    (n : ℕ) (memory : List ℕ) (at w i : ℕ)
    → at + n ≤ length memory
    → (i < at) ⊎ (at + n ≤ i)
    → get_or (store n memory at w) i 0 ≡ get_or memory i 0
get_or-store zero memory at w i fits out = refl
get_or-store (suc n) memory at w i fits out =
    let same = length-set memory at (w % 256) in
    let out' : (i < suc at) ⊎ (suc at + n ≤ i) = ground arith in
    ground (
      arith,
      get_or-store n (set memory at (w % 256)) (suc at) (w / 256) i (omega (arith, same)) out',
      get_or-set memory at i (w % 256) 0,
    )

-- Two memories with the same bytes in a range have the same word there.
pub word_same :
    (n : ℕ) (a b : List ℕ) (at from : ℕ)
    → ((i : ℕ) → i < n → get_or a (at + i) 0 ≡ get_or b (from + i) 0)
    → word n a at ≡ word n b from
word_same zero a b at from h = refl
word_same (suc n) a b at from h =
    let tail : (i : ℕ) → i < n → get_or a (suc at + i) 0 ≡ get_or b (suc from + i) 0 = λ i l.
      (let e : at + suc i ≡ suc at + i = omega arith in
        let f : from + suc i ≡ suc from + i = omega arith in
        let g = h (suc i) (omega arith) in rw (e, f) at g) in
    let head : get_or a at 0 ≡ get_or b from 0 =
      (let e : at + 0 ≡ at = omega arith in
        let f : from + 0 ≡ from = omega arith in let g = h 0 (omega arith) in rw (e, f) at g) in
    omega (arith, head, word_same n a b (suc at) (suc from) tail)

pub word-store :
    (n : ℕ) (memory : List ℕ) (at w : ℕ)
    → at + n ≤ length memory
    → w < 256 ^ n
    → word n (store n memory at w) at ≡ w
word-store zero memory at w fits small = omega arith
word-store (suc n) memory at w fits small =
    let same = length-set memory at (w % 256) in
    let first =
      get_or-store n (set memory at (w % 256)) (suc at) (w / 256) at (omega (arith, same))
        (inl (omega arith)) in
    let written : get_or (set memory at (w % 256)) at 0 ≡ w % 256 =
      ground (arith, get_or-set memory at at (w % 256) 0) in
    let rest =
      word-store n (set memory at (w % 256)) (suc at) (w / 256) (omega (arith, same))
        (omega (arith, pow-suc 256 n)) in
    omega (arith, first, written, rest)

-- A store elsewhere leaves a word.
pub word-store_other :
    (n m : ℕ) (memory : List ℕ) (at w from : ℕ)
    → at + n ≤ length memory
    → (from + m ≤ at) ⊎ (at + n ≤ from)
    → word m (store n memory at w) from ≡ word m memory from
word-store_other n m memory at w from fits out =
    word_same m (store n memory at w) memory from from
      (λ i l. get_or-store n memory at w (from + i) fits (ground arith))

-- `memmove`: bytes are read before they are written.
abbrev pub copy : List ℕ → ℕ → List ℕ → List ℕ
copy memory at [] = memory
copy memory at (b ∷ bs) = copy (set memory at b) (suc at) bs

abbrev pub move : List ℕ → ℕ → ℕ → ℕ → List ℕ
move memory to from n = copy memory to (take n (drop from memory))

-- `realloc`: what the allocator leaves in new bytes is not known.
abbrev pub fill : (ℕ → ℕ) → ℕ → ℕ → List ℕ
fill junk at zero = []
fill junk at (suc n) = junk at ∷ fill junk (suc at) n

abbrev pub resize : (ℕ → ℕ) → List ℕ → ℕ → List ℕ
resize junk memory size = take size memory ++ fill junk (length memory) (size - length memory)

pub length-copy :
    (memory : List ℕ) (at : ℕ) (bs : List ℕ) → length (copy memory at bs) ≡ length memory
length-copy memory at [] = refl
length-copy memory at (b ∷ bs) =
    omega (arith, length-copy (set memory at b) (suc at) bs, length-set memory at b)

get_or-copy_out :
    (memory : List ℕ) (at : ℕ) (bs : List ℕ) (i : ℕ)
    → at + length bs ≤ length memory
    → (i < at) ⊎ (at + length bs ≤ i)
    → get_or (copy memory at bs) i 0 ≡ get_or memory i 0
get_or-copy_out memory at [] i fits out = refl
get_or-copy_out memory at (b ∷ bs) i fits out =
    let later : (i < suc at) ⊎ (suc at + length bs ≤ i) = ground arith in
    ground (
      arith,
      get_or-copy_out (set memory at b) (suc at) bs i (omega (arith, length-set memory at b)) later,
      get_or-set memory at i b 0,
    )

get_or-copy_in :
    (memory : List ℕ) (at : ℕ) (bs : List ℕ) (k : ℕ)
    → at + length bs ≤ length memory
    → k < length bs
    → get_or (copy memory at bs) (at + k) 0 ≡ get_or bs k 0
get_or-copy_in memory at [] k fits inside = absurd (omega arith)
get_or-copy_in memory at (b ∷ bs) zero fits inside = ground (
  arith,
  get_or-copy_out (set memory at b) (suc at) bs (at + 0) (omega (arith, length-set memory at b))
      (inl (omega arith)),
  get_or-set memory at (at + 0) b 0,
)
get_or-copy_in memory at (b ∷ bs) (suc k) fits inside =
    let here : suc at + k ≡ at + suc k = omega arith in
    rw here at (
      get_or-copy_in (set memory at b) (suc at) bs k (omega (arith, length-set memory at b))
        (omega arith))

get_or-take : (n : ℕ) (xs : List ℕ) (i : ℕ) → i < n → get_or (take n xs) i 0 ≡ get_or xs i 0
get_or-take zero xs i l = absurd (omega arith)
get_or-take (suc n) [] i l = refl
get_or-take (suc n) (x ∷ xs) zero l = refl
get_or-take (suc n) (x ∷ xs) (suc i) l = get_or-take n xs i (omega arith)

length-take-drop :
    (n from : ℕ) (xs : List ℕ) → from + n ≤ length xs → length (take n (drop from xs)) ≡ n
length-take-drop n from xs h = length-take n (drop from xs) (omega (arith, length-drop from xs))

pub length-move : (memory : List ℕ) (to from n : ℕ) → length (move memory to from n) ≡ length memory
length-move memory to from n = length-copy memory to (take n (drop from memory))

-- A move leaves a word outside of the range that it writes.
pub word-move_out :
    (m : ℕ) (memory : List ℕ) (to from n at : ℕ)
    → to + n ≤ length memory
    → from + n ≤ length memory
    → (at + m ≤ to) ⊎ (to + n ≤ at)
    → word m (move memory to from n) at ≡ word m memory at
word-move_out m memory to from n at fits source out =
    let size = length-take-drop n from memory source in
    word_same m (move memory to from n) memory at at (λ i l.
      get_or-copy_out memory to (take n (drop from memory)) (at + i) (omega (arith, size))
        (ground (arith, size)))

-- A word inside of the range is the word it was moved from.
pub word-move_in :
    (m : ℕ) (memory : List ℕ) (to from n k : ℕ)
    → to + n ≤ length memory
    → from + n ≤ length memory
    → k + m ≤ n
    → word m (move memory to from n) (to + k) ≡ word m memory (from + k)
word-move_in m memory to from n k fits source inside =
    let size = length-take-drop n from memory source in
    word_same m (move memory to from n) memory (to + k) (from + k) (λ i l.
      let there : to + (k + i) ≡ to + k + i = omega arith in
      let here : from + (k + i) ≡ from + k + i = omega arith in
      rw (there, here) at
        (get_or-copy_in memory to (take n (drop from memory)) (k + i) (omega (arith, size))
            (omega (arith, size))
          ∙ get_or-take n (drop from memory) (k + i) (omega arith)
          ∙ get_or-drop from memory (k + i) 0))

pub length-fill : (junk : ℕ → ℕ) (at n : ℕ) → length (fill junk at n) ≡ n
length-fill junk at zero = refl
length-fill junk at (suc n) = ap suc (length-fill junk (suc at) n)

length-take_all : (n : ℕ) (xs : List ℕ) → length xs ≤ n → length (take n xs) ≡ length xs
length-take_all zero [] h = refl
length-take_all zero (x ∷ xs) h = absurd (omega arith)
length-take_all (suc n) [] h = refl
length-take_all (suc n) (x ∷ xs) h = ap suc (length-take_all n xs (omega arith))

pub length-resize :
    (junk : ℕ → ℕ) (memory : List ℕ) (size : ℕ) → length (resize junk memory size) ≡ size
length-resize junk memory size = elim (Bool-cases (leb size (length memory))) [
  | inl e ↦
      (let small : size ≤ length memory = ground arith in
        omega (
          arith,
          length-append (take size memory) (fill junk (length memory) (size - length memory)),
          length-take size memory small,
          length-fill junk (length memory) (size - length memory),
        ))
  | inr e ↦
      (let large : length memory < size = ground arith in
        omega (
          arith,
          length-append (take size memory) (fill junk (length memory) (size - length memory)),
          length-take_all size memory (omega arith),
          length-fill junk (length memory) (size - length memory),
        ))
]

-- The bytes that a memory keeps when its size changes.
pub word-resize :
    (m : ℕ) (junk : ℕ → ℕ) (memory : List ℕ) (size at : ℕ)
    → at + m ≤ length memory
    → at + m ≤ size
    → word m (resize junk memory size) at ≡ word m memory at
word-resize m junk memory size at old kept =
    word_same m (resize junk memory size) memory at at (λ i l.
      get_or-append (take size memory) (fill junk (length memory) (size - length memory)) (at + i) 0
        (elim (Bool-cases (leb size (length memory))) [
          | inl e ↦
              (let small : size ≤ length memory = ground arith in
                omega (arith, length-take size memory small))
          | inr e ↦ omega (arith, length-take_all size memory (ground arith))
        ])
      ∙ get_or-take size memory (at + i) (omega arith))
