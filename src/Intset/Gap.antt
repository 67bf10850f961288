-- ===== src/Intset/Gap.antt =====
-- The place for a value that `intsetAdd` (src/vr_intset.c) opens in a set of the same encoding.
use myownproject.Base.{
  ℕ, suc, ◌+◌, ◌-◌, ◌*◌, ◌^◌, ◌≤◌, ◌<◌, ◌≡◌, refl, ap, ◌∙◌, arith, inl, inr, length,
}
use myownproject.Base.Int.{ℤ}
use myownproject.Intset.{Intset, get, put, resize_to, move_tail}
use myownproject.Intset.Cells.{IsEncoding, Fits, get-put, get-put_other}
use myownproject.Intset.Moves.{
  length-resize_to, get-resize_to, length-move_tail, get-move_tail, get-move_tail_below,
}
use myownproject.Intset.Valid.{Valid}
use myownproject.Intset.Insert.{Inserted}

-- An array with one cell more, and the old values around cell `p`.
pub record Gap (old : Intset) (p : ℕ) (opened : Intset) : Type 0 where
  pub known : IsEncoding opened.encoding
  pub sized : length opened.contents ≡ suc old.len * opened.encoding
  pub before : (i : ℕ) → i < p → get opened i ≡ get old i
  pub after : (i : ℕ) → p ≤ i → i < old.len → get opened (suc i) ≡ get old i

-- The value in its place.
pub put-Inserted :
    (old opened : Intset) (p : ℕ) (v : ℤ)
    → Gap old p opened
    → p ≤ old.len
    → Fits opened.encoding v
    → Inserted old v p (record (put opened p v) { len = suc old.len })
unfolding put get
put-Inserted old opened p v gap inside fit = record {
  inside = inside;
  grown = refl;
  before = λ i l.
      get-put_other opened p i (suc old.len) v gap.known gap.sized (omega arith) (inr l)
      ∙ gap.before i l;
  here = get-put opened p (suc old.len) v gap.known gap.sized (omega arith) fit;
  after = λ i l k.
      get-put_other opened p (suc i) (suc old.len) v gap.known gap.sized (omega arith)
        (inl (omega arith))
      ∙ gap.after i l k;
}

module _ (junk : ℕ → ℕ) (is : Intset) (valid : Valid is) (small : is.len < 2 ^ 28) where
  abbrev roomy : Intset
  roomy = resize_to junk is (suc is.len)

  roomy_known : IsEncoding roomy.encoding
  unfolding resize_to
  roomy_known = valid.known

  roomy_sized : length roomy.contents ≡ suc is.len * roomy.encoding
  unfolding resize_to
  roomy_sized = length-resize_to junk is (suc is.len) valid.known (omega arith)

  get-roomy : (i : ℕ) → i < is.len → get roomy i ≡ get is i
  get-roomy i l =
      get-resize_to junk is (suc is.len) is.len i valid.known (omega arith) valid.sized l
        (omega arith)

  kept : roomy.len ≡ is.len
  unfolding resize_to
  kept = refl

  -- Appending needs no move.
  pub resize_to-Gap : Gap is is.len (resize_to junk is (suc is.len))
  resize_to-Gap = record {
    known = roomy_known;
    sized = roomy_sized;
    before = get-roomy;
    after = λ i l k. absurd (omega arith);
  }

  pub move_tail-Gap :
      (p : ℕ) → p < is.len → Gap is p (move_tail (resize_to junk is (suc is.len)) p (p + 1))
  unfolding move_tail
  move_tail-Gap p inside =
      let same : roomy.len ≡ is.len = kept in
      record {
        known = roomy_known;
        sized = length-move_tail roomy p (p + 1) ∙ roomy_sized;
        before = λ i l.
            get-move_tail_below roomy p (p + 1) (suc is.len) i roomy_known (omega (arith, same))
              roomy_sized (omega (arith, same)) (omega (arith, same)) (omega (arith, same))
              (omega arith)
            ∙ get-roomy i (omega arith);
        after = λ i l k.
            (let to : suc i ≡ p + 1 + (i - p) = omega arith in
              let from : p + (i - p) ≡ i = omega arith in
              ap (get (move_tail roomy p (p + 1))) to
              ∙ get-move_tail roomy p (p + 1) (suc is.len) (i - p) roomy_known (omega (arith, same))
                  roomy_sized (omega (arith, same)) (omega (arith, same)) (omega (arith, same))
                  (omega (arith, same))
              ∙ ap (get roomy) from
              ∙ get-roomy i k);
      }
