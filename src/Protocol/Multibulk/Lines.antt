-- ===== src/Protocol/Multibulk/Lines.antt =====
-- A counted line of a request (src/vr_client.c) and how the parser reads it.
use myownproject.Base.{
  ℕ, zero, suc, ◌+◌, ◌-◌, ◌/◌, ◌%◌, ◌<◌, ◌≡◌, refl, ap, ◌∙◌, false, some, [], ◌∷◌, ◌++◌, ltb, arith,
  ◌==◌, length, get_or, take, drop, length-append, drop-append, take-append, drop-add_append,
  get_or-append_length, Bool-cases, inl, inr,
}
use myownproject.Util.Decimal.{decimal, decimal_fuel}
use myownproject.Protocol.State.{Bytes, strchr}

-- Neither a carriage return nor a NUL byte.
abbrev pub IsPlain : Bytes → Type 0
IsPlain [] = Unit {0}
IsPlain (b ∷ bs) = ((b'\r' < b) × IsPlain bs)

append-IsPlain : (xs ys : Bytes) → IsPlain xs → IsPlain ys → IsPlain (xs ++ ys)
append-IsPlain [] ys p q = q
append-IsPlain (x ∷ xs) ys (l, p) q = (l, append-IsPlain xs ys p q)

decimal_fuel-IsPlain : (fuel n : ℕ) → IsPlain (decimal_fuel fuel n)
unfolding decimal_fuel
decimal_fuel-IsPlain zero n = (omega arith, tt)
decimal_fuel-IsPlain (suc fuel) n = elim (Bool-cases (ltb n 10)) [
  | inl e ↦ rw e (omega arith, tt)
  | inr e ↦ rw e (
      append-IsPlain (decimal_fuel fuel (n / 10)) ((b'0' + n % 10) ∷ [])
        (decimal_fuel-IsPlain fuel (n / 10)) (omega arith, tt))
]

pub decimal-IsPlain : (n : ℕ) → IsPlain (decimal n)
unfolding decimal
decimal-IsPlain n = decimal_fuel-IsPlain n n

pub strchr-IsPlain :
    (xs rest : Bytes) → IsPlain xs → strchr (xs ++ (b'\r' ∷ rest)) b'\r' ≡ some (length xs)
unfolding strchr
strchr-IsPlain [] rest p = refl
strchr-IsPlain (x ∷ xs) rest (l, p) =
    let e : (x == b'\r') ≡ false = ground arith in
    let f : (x == 0) ≡ false = ground arith in rw (e, f, strchr-IsPlain xs rest p) refl

abbrev pub crlf : Bytes
crlf = b'\r' ∷ b'\n' ∷ []

-- A line of a mark and a number.
abbrev pub counted : ℕ → ℕ → Bytes → Bytes
counted mark n rest = mark ∷ (decimal n ++ (b'\r' ∷ b'\n' ∷ rest))

-- What the parser finds in a buffer that has a counted line at `at`.
module _ (before : Bytes) (mark n : ℕ) (rest : Bytes) (plain : b'\r' < mark) where
  abbrev buffer : Bytes
  buffer = before ++ counted mark n rest

  abbrev newline : ℕ
  newline = suc (length (decimal n))

  pub strchr-counted : strchr (drop (length before) buffer) b'\r' ≡ some newline
  strchr-counted =
      ap (λ l. strchr l b'\r') (drop-append before (counted mark n rest))
      ∙ strchr-IsPlain (mark ∷ decimal n) (b'\n' ∷ rest) (plain, decimal-IsPlain n)

  pub get_or-counted : get_or buffer (length before) 0 ≡ mark
  get_or-counted = get_or-append_length before mark (decimal n ++ (b'\r' ∷ b'\n' ∷ rest)) 0

  pub take-counted : take (newline - 1) (drop (length before + 1) buffer) ≡ decimal n
  take-counted =
      let same : newline - 1 ≡ length (decimal n) = omega arith in
      rw same (
        ap (take (length (decimal n))) (drop-add_append before (counted mark n rest) 1)
        ∙ take-append (decimal n) (b'\r' ∷ b'\n' ∷ rest))

  pub drop-counted : drop (length before + newline + 2) buffer ≡ rest
  drop-counted =
      let same : length before + newline + 2 ≡ length before + suc (length (decimal n) + 2) =
        omega arith in
      rw same (
        drop-add_append before (counted mark n rest) (suc (length (decimal n) + 2))
        ∙ drop-add_append (decimal n) (b'\r' ∷ b'\n' ∷ rest) 2)

  pub length-counted : length buffer ≡ length before + newline + 2 + length rest
  length-counted = omega (
    arith,
    length-append before (counted mark n rest),
    length-append (decimal n) (b'\r' ∷ b'\n' ∷ rest),
  )
