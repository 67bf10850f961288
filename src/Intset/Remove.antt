-- ===== src/Intset/Remove.antt =====
-- `intsetRemove` (src/vr_intset.c) keeps a set well-formed and takes exactly its value out.
use myownproject.Base.{
  ℕ, suc, ◌+◌, ◌-◌, ◌*◌, ◌^◌, ◌≤◌, ◌<◌, ◌≡◌, refl, sym, ap, ◌∙◌, Bool, true, false, not, ◌&&◌,
  arith, ◌⊎◌, inl, inr, ltb, leb, ◌==◌, Bool-cases, same_answer, length, if◌then◌else◌,
}
use myownproject.Base.Int.{ℤ, eqb_ℤ, ◌<ℤ◌, eqb_ℤ→eq, eq→eqb_ℤ}
use myownproject.Intset.{
  Intset, value_encoding, get, search, find, resize_to, move_tail, remove, remove_at,
}
use myownproject.Intset.Cells.{IsEncoding, Fits}
use myownproject.Intset.Moves.{
  length-resize_to, get-resize_to, length-move_tail, get-move_tail, get-move_tail_below,
}
use myownproject.Intset.Search.{IsSorted, IsPlace, search-IsPlace}
use myownproject.Intset.Valid.{Valid, Member, find-Member}

-- The values of `new` are those of `old` without the one at `p`.
record Removed (old : Intset) (v : ℤ) (p : ℕ) (new : Intset) : Type 0 where
  inside : p < old.len
  shrunk : old.len ≡ suc new.len
  before : (i : ℕ) → i < p → get new i ≡ get old i
  here : get old p ≡ v
  after : (i : ℕ) → p ≤ i → i < new.len → get new i ≡ get old (suc i)

unequal : (v q : ℤ) → (v <ℤ q) ⊎ (q <ℤ v) → eqb_ℤ v q ≡ false
unequal v q s = ground arith

module _ (old new : Intset) (v : ℤ) (p : ℕ) (rem : Removed old v p new)
    (sorted : IsSorted old) where
  -- The old index of a value of the new set.
  origin : ℕ → ℕ
  origin i = if ltb i p then i else suc i

  get-origin : (i : ℕ) → i < new.len → get new i ≡ get old (origin i)
  unfolding origin
  get-origin i l = elim (Bool-cases (ltb i p)) [
    | inl e ↦ rw e (rem.before i (ground arith))
    | inr e ↦ rw e (rem.after i (ground arith) l)
  ]

  origin-lt : (i : ℕ) → i < new.len → origin i < old.len
  unfolding origin
  origin-lt i l = (let s = rem.shrunk in ground arith)

  origin_apart : (i : ℕ) → (origin i < p) ⊎ (p < origin i)
  unfolding origin
  origin_apart i = elim (Bool-cases (ltb i p)) [
    | inl e ↦ inl (ground arith)
    | inr e ↦ inr (ground arith)
  ]

  origin_mono : (i j : ℕ) → i < j → origin i < origin j
  unfolding origin
  origin_mono i j l = ground arith

  Removed-IsSorted : IsSorted new
  Removed-IsSorted i j l inside =
      rw (get-origin i (omega arith), get-origin j inside)
        (sorted (origin i) (origin j) (origin_mono i j l) (origin-lt j inside))

  Removed-Member : (q : ℤ) → Member new q → Member old q × (eqb_ℤ v q ≡ false)
  Removed-Member q (i, inside, e) =
      let from : get old (origin i) ≡ q = sym (get-origin i inside) ∙ e in
      (
        (origin i, origin-lt i inside, from),
        elim (origin_apart i) [
          | inl l ↦
              (let s = sorted (origin i) p l rem.inside in
                unequal v q (inr (rw (from, rem.here) at s)))
          | inr l ↦
              (let s = sorted p (origin i) l (origin-lt i inside) in
                unequal v q (inl (rw (from, rem.here) at s)))
        ],
      )

  Member-Removed : (q : ℤ) → Member old q → eqb_ℤ v q ≡ false → Member new q
  Member-Removed q (i, inside, e) other = elim (Bool-cases (ltb i p)) [
    | inl f ↦ (
      i,
      (let s = rem.shrunk in let t = rem.inside in ground arith),
      rem.before i (ground arith) ∙ e,
    )
    | inr f ↦ elim (Bool-cases (i == p)) [
      | inl g ↦ absurd (
          let same : i ≡ p = ground arith in
          let n = eq→eqb_ℤ v q (sym rem.here ∙ ap (get old) (sym same) ∙ e) in ground arith)
      | inr g ↦ (
        i - 1,
        (let s = rem.shrunk in ground arith),
        (let next : suc (i - 1) ≡ i = ground arith in
            rem.after (i - 1) (ground arith) (let s = rem.shrunk in ground arith)
            ∙ ap (get old) next
            ∙ e),
      )
    ]
  ]

module _ (junk : ℕ → ℕ) (is : Intset) (v : ℤ) (valid : Valid is) (small : is.len < 2 ^ 28) (p : ℕ)
    (inside : p < is.len) (here : get is p ≡ v) where
  -- The array behind the move: the value is overwritten, the last cell is free.
  record Closed (closed : Intset) : Type 0 where
    same : closed.encoding ≡ is.encoding
    known : IsEncoding closed.encoding
    sized : length closed.contents ≡ is.len * closed.encoding
    before : (i : ℕ) → i < p → get closed i ≡ get is i
    after : (i : ℕ) → p ≤ i → suc i < is.len → get closed i ≡ get is (suc i)

  untouched-Closed : is.len - 1 ≤ p → Closed is
  untouched-Closed last = record {
    same = refl;
    known = valid.known;
    sized = valid.sized;
    before = λ i l. refl;
    after = λ i l k. absurd (omega arith);
  }

  move_tail-Closed : Closed (move_tail is (p + 1) p)
  unfolding move_tail
  move_tail-Closed = record {
    same = refl;
    known = valid.known;
    sized = length-move_tail is (p + 1) p ∙ valid.sized;
    before = λ i l.
        get-move_tail_below is (p + 1) p is.len i valid.known (omega arith) valid.sized
          (omega arith) (omega arith) (omega arith) l;
    after = λ i l k.
        (let to : i ≡ p + (i - p) = omega arith in
          let from : p + 1 + (i - p) ≡ suc i = omega arith in
          ap (get (move_tail is (p + 1) p)) to
          ∙ get-move_tail is (p + 1) p is.len (i - p) valid.known (omega arith) valid.sized
              (omega arith) (omega arith) (omega arith) (omega arith)
          ∙ ap (get is) from);
  }

  abbrev shorter : Intset → Intset
  shorter closed = record (resize_to junk closed (is.len - 1)) { len = is.len - 1 }

  get-shorter :
      (closed : Intset)
      → Closed closed
      → (i : ℕ) → i < is.len - 1
      → get (shorter closed) i ≡ get closed i
  unfolding get
  get-shorter closed c i l =
      get-resize_to junk closed (is.len - 1) is.len i c.known (omega arith) c.sized (omega arith) l

  shorter-Removed : (closed : Intset) → Closed closed → Removed is v p (shorter closed)
  shorter-Removed closed c = record {
    inside = inside;
    shrunk = omega arith;
    before = λ i l. get-shorter closed c i (omega arith) ∙ c.before i l;
    here = here;
    after = λ i l k. get-shorter closed c i k ∙ c.after i l (omega arith);
  }

  shorter-Fits :
      (closed : Intset)
      → Closed closed
      → (i : ℕ) → i < is.len - 1
      → Fits closed.encoding (get (shorter closed) i)
  shorter-Fits closed c i l =
      let rem = shorter-Removed closed c in
      rw (get-origin is (shorter closed) v p rem valid.sorted i l, c.same)
        (valid.fits (origin is (shorter closed) v p rem valid.sorted i)
          (origin-lt is (shorter closed) v p rem valid.sorted i l))

  shorter-Valid : (closed : Intset) → Closed closed → Valid (shorter closed)
  unfolding resize_to
  shorter-Valid closed c =
      let rem = shorter-Removed closed c in
      record {
        known = c.known;
        sized = length-resize_to junk closed (is.len - 1) c.known (omega arith);
        fits = shorter-Fits closed c;
        sorted = Removed-IsSorted is (shorter closed) v p rem valid.sorted;
      }

-- What a removal gives.
record Taken (old : Intset) (v : ℤ) (new : Intset) : Type 0 where
  place : ℕ
  removed : Removed old v place new
  valid : Valid new

module _ (junk : ℕ → ℕ) (is : Intset) (v : ℤ) (valid : Valid is) (small : is.len < 2 ^ 28) where
  taken :
      (p : ℕ) (inside : p < is.len) (here : get is p ≡ v) (closed : Intset)
      → Closed junk is v valid small p inside here closed
      → Taken is v (shorter junk is v valid small p inside here closed)
  taken p inside here closed c = record {
    place = p;
    removed = shorter-Removed junk is v valid small p inside here closed c;
    valid = shorter-Valid junk is v valid small p inside here closed c;
  }

  remove_at-Taken :
      (r : Bool × ℕ)
      → r.0 ≡ true
      → IsPlace is v r
      → ((remove_at junk is r).0 ≡ true) × Taken is v (remove_at junk is r).1
  unfolding remove_at IsPlace
  remove_at-Taken (false, p) e place = absurd (ground arith)
  remove_at-Taken (true, p) e (inside, here) = elim (Bool-cases (ltb p (is.len - 1))) [
    | inl f ↦ rw f (
      refl,
      taken p inside here (move_tail is (p + 1) p)
          (move_tail-Closed junk is v valid small p inside here),
    )
    | inr f ↦ rw f (
      refl,
      taken p inside here is (untouched-Closed junk is v valid small p inside here (ground arith)),
    )
  ]

  absent_at : (r : Bool × ℕ) → r.0 ≡ false → remove_at junk is r ≡ (false, is)
  unfolding remove_at
  absent_at (false, p) e = refl
  absent_at (true, p) e = absurd (ground arith)

  -- A value that is there is taken out.
  remove_old : find is v ≡ true → ((remove junk is v).0 ≡ true) × Taken is v (remove junk is v).1
  unfolding remove find
  remove_old present =
      let e : leb (value_encoding v) is.encoding ≡ true = ground arith in
      rw e (remove_at-Taken (search is v) (ground arith) (search-IsPlace is v valid.sorted))

  -- A value that is not there leaves the set alone.
  remove_absent : find is v ≡ false → remove junk is v ≡ (false, is)
  unfolding remove find
  remove_absent absent = elim (Bool-cases (leb (value_encoding v) is.encoding)) [
    | inl e ↦ rw e (absent_at (search is v) (ground arith))
    | inr e ↦ rw e refl
  ]

unknown_value :
    (is : Intset) (v q : ℤ) → find is v ≡ false → find is q ≡ (find is q && not (eqb_ℤ v q))
unknown_value is v q e = elim (Bool-cases (eqb_ℤ v q)) [
  | inl s ↦ (let f = rw (eqb_ℤ→eq v q s) at e in rw (s, f) refl)
  | inr n ↦ ground arith
]

find-Taken :
    (is new : Intset) (v q : ℤ)
    → Valid is
    → Taken is v new
    → find new q ≡ (find is q && not (eqb_ℤ v q))
find-Taken is new v q valid taken =
    let (to_member, to_find) = find-Member new q taken.valid in
    let (old_member, old_find) = find-Member is q valid in
    same_answer (find new q) (find is q && not (eqb_ℤ v q))
      (λ e.
        let (m, other) =
          Removed-Member is new v taken.place taken.removed valid.sorted q (to_member e) in
        (let f = old_find m in rw (f, other) refl))
      (λ e. to_find (
        Member-Removed is new v taken.place taken.removed valid.sorted q (old_member (ground arith))
          (ground arith)))

-- After removing a value from a well-formed set of less than 2 ^ 28 values, exactly the other
-- values found before are found.
pub find-remove :
    (junk : ℕ → ℕ) (is : Intset) (v q : ℤ)
    → Valid is
    → is.len < 2 ^ 28
    → find (remove junk is v).1 q ≡ (find is q && not (eqb_ℤ v q))
find-remove junk is v q valid small = elim (Bool-cases (find is v)) [
  | inl e ↦ find-Taken is (remove junk is v).1 v q valid (remove_old junk is v valid small e).1
  | inr e ↦ rw (remove_absent junk is v valid small e) (unknown_value is v q e)
]

-- Removing a value from a well-formed set of less than 2 ^ 28 values keeps the set well-formed and
-- reports success when the value was found before.
pub remove-Valid :
    (junk : ℕ → ℕ) (is : Intset) (v : ℤ)
    → Valid is
    → is.len < 2 ^ 28
    → Valid (remove junk is v).1 × ((remove junk is v).0 ≡ find is v)
remove-Valid junk is v valid small = elim (Bool-cases (find is v)) [
  | inl e ↦ (let (success, t) = remove_old junk is v valid small e in (t.valid, rw e success))
  | inr e ↦ rw (remove_absent junk is v valid small e, e) (valid, refl)
]
