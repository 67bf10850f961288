-- ===== src/Dict/Update.antt =====
-- A write to the bucket of one key, which additions, deletions and replacements share.
use myownproject.Base.{
  ℕ, ◌+◌, ◌<◌, ◌≡◌, ◌≢◌, false, Option, [], arith, length, get_or, set, ◌==◌, ==_iff, Bool-cases,
  inl, inr, length-set, get_or-set, if◌then◌else◌, ◌∙◌, ap,
}
use myownproject.Dict.{Dictht, bucket, index}
use myownproject.Dict.Entries.{DictType, Chain, is_key, chain_find, occurs}
use myownproject.Dict.Tables.{home, home-le, home_congr, total-set}
use myownproject.Dict.Valid.{IsHt}

module _ {ℓ} {K V : Type ℓ} ⦃type : DictType K V⦄ where
  abbrev pub write : Dictht K V → K → Chain K V → ℕ → Dictht K V
  write ht key c u = record ht { table = set ht.table (index ht key) c; used = u }

module _ {ℓ} {K V : Type ℓ} ⦃type : DictType K V⦄ (ht : Dictht K V) (v : IsHt ht) (key : K)
    (c : Chain K V) (u : ℕ) (pos : 0 < ht.size)
    (sized : u + length (bucket ht key) ≡ ht.used + length c)
    (near : (q : K) → home type ht.sizemask q ≢ home type ht.sizemask key → occurs q c ≡ 0) where
  abbrev updated : Dictht K V
  updated = write ht key c u

  in_table : index ht key < length ht.table
  in_table = omega (arith, v.width, v.mask, home-le type ht.sizemask key)

  at :
      (j : ℕ)
      → get_or (set ht.table (index ht key) c) j []
        ≡ (if index ht key == j then c else get_or ht.table j [])
  at j = get_or-set ht.table (index ht key) j c [] in_table

  pub updated-IsHt : IsHt updated
  updated-IsHt = record {
    width = length-set ht.table (index ht key) c ∙ v.width;
    mask = v.mask;
    counted = omega (arith, total-set ht.table (index ht key) c in_table, v.counted);
    placed = λ q j h. ground (arith, at j, near q, v.placed q j);
  }

  pub updated-bucket :
      (q : K) → bucket updated q ≡ (if index ht key == index ht q then c else bucket ht q)
  updated-bucket q = at (index ht q)

  pub updated-occurs :
      (q : K)
      → occurs q (bucket updated q)
        ≡ (if index ht key == index ht q then occurs q c else occurs q (bucket ht q))
  updated-occurs q = ground (arith, updated-bucket q)

  -- A chain that reads `x` at the key and as before elsewhere makes a table that does.
  pub updated-find :
      (x : Option (K × V))
      → ((q : K) → chain_find q c ≡ (if is_key type q key then x else chain_find q (bucket ht key)))
      → (q : K)
      → chain_find q (bucket updated q)
        ≡ (if is_key type q key then x else chain_find q (bucket ht q))
  updated-find x reads q = elim (Bool-cases (index ht key == index ht q)) [
    | inl e ↦
        rw (updated-bucket q, e)
          (reads q
            ∙ ap (λ k. if is_key type q key then x else chain_find q (get_or ht.table k []))
                ((==_iff (index ht key) (index ht q)).0 e))
    | inr e ↦
        let other : is_key type q key ≡ false = ground (arith, home_congr type ht.sizemask q key) in
        rw (updated-bucket q, e, other)
  ]
