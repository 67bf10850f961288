-- ===== src/Dict/Rewrite.antt =====
-- A change to the entry of a key that is there: the common part of `dictGenericDelete` and of
-- `dictSetVal` in `dictReplace` (src/vr_dict.c).
use mathlib.Core.Option.{or_else}
use myownproject.Base.{
  ℕ, ◌+◌, ◌≤◌, ◌<◌, ◌≡◌, ◌≢◌, true, Option, none, some, List, [], ◌∷◌, arith, length, get_or,
  get_or-set, ◌==◌, ==_iff, Bool-cases, inl, inr, if◌then◌else◌, ◌∙◌, ap,
}
use myownproject.Dict.{Dict, Dictht, bucket, index}
use myownproject.Dict.Entries.{DictType, Chain, is_key, chain_find, occurs}
use myownproject.Dict.Entries.Laws.{chain_find_congr, chain_find-eq-none}
use myownproject.Dict.Tables.{home, home-le, home_congr}
use myownproject.Dict.Valid.{IsHt, Phase, IsValid, view}
use myownproject.Dict.Rehash.{or_else-none}
use myownproject.Dict.Update.{write, updated-IsHt, updated-find, updated-occurs}
use myownproject.Dict.Writes.{Writes}

module _ {ℓ} {K V : Type ℓ} ⦃type : DictType K V⦄ where
  pub occurs_found :
      (q : K) (c : Chain K V) (he : K × V) → chain_find q c ≡ some he → 0 < occurs q c
  unfolding occurs chain_find
  occurs_found q [] he h = ground arith
  occurs_found q (e ∷ c) he h = ground (arith, occurs_found q c he)

  pub bucket_find_congr :
      (ht : Dictht K V) (a b : K)
      → is_key type a b ≡ true
      → chain_find a (bucket ht a) ≡ chain_find b (bucket ht b)
  bucket_find_congr ht a b e =
      rw (home_congr type ht.sizemask a b e) (chain_find_congr a b (bucket ht b) e)

  bucket_found :
      (ht : Dictht K V) (key : K) (he : K × V)
      → IsHt ht
      → chain_find key (bucket ht key) ≡ some he
      → 0 < ht.size
  bucket_found ht key he v h = go ht.table v.width h
    where
      go :
          (t : List (Chain K V))
          → length t ≡ ht.size
          → chain_find key (get_or t (index ht key) []) ≡ some he
          → 0 < ht.size
      go [] w h = unfold chain_find in cc
      go (c ∷ t) w h = omega arith

  -- What `c` has to be to stand in for the bucket of `key`: it reads `x` at the key.
  pub record Stands (ht : Dictht K V) (key : K) (x : Option (K × V)) (c : Chain K V) (u : ℕ)
      : Type ℓ where
    pub sized : u + length (bucket ht key) ≡ ht.used + length c
    pub fewer : (q : K) → occurs q c ≤ occurs q (bucket ht key)
    pub reads :
        (q : K) → chain_find q c ≡ (if is_key type q key then x else chain_find q (bucket ht key))

  module _ (ht : Dictht K V) (v : IsHt ht) (key : K) (x : Option (K × V)) (c : Chain K V) (u : ℕ)
      (pos : 0 < ht.size) (s : Stands ht key x c u) where
    near : (q : K) → home type ht.sizemask q ≢ home type ht.sizemask key → occurs q c ≡ 0
    near q h = omega (arith, s.fewer q, v.placed q (index ht key) h)

    written-IsHt : IsHt (write ht key c u)
    written-IsHt = updated-IsHt ht v key c u pos s.sized near

    written-find :
        (q : K)
        → chain_find q (bucket (write ht key c u) q)
          ≡ (if is_key type q key then x else chain_find q (bucket ht q))
    written-find = updated-find ht v key c u pos s.sized near x s.reads

    written-occurs : (q : K) → occurs q (bucket (write ht key c u) q) ≤ occurs q (bucket ht q)
    written-occurs q = elim (Bool-cases (index ht key == index ht q)) [
      | inl e ↦
          let f : index ht key ≡ index ht q = (==_iff (index ht key) (index ht q)).0 e in
          let g : occurs q (bucket ht key) ≡ occurs q (bucket ht q) =
            ap (λ k. occurs q (get_or ht.table k [])) f in
          ground (arith, updated-occurs ht v key c u pos s.sized near q, e, g, s.fewer q)
      | inr e ↦ ground (arith, updated-occurs ht v key c u pos s.sized near q, e)
    ]

  module _ (d : Dict K V) (v : IsValid d) (key : K) (he : K × V) (x : Option (K × V))
      (c : Chain K V) (u : ℕ) where
    Phase-old :
        (o : Option ℕ)
        → 0 < occurs key (bucket d.ht0 key)
        → 0 < d.ht0.size
        → Phase o d.ht0 d.ht1
        → Phase o (write d.ht0 key c u) d.ht1
    unfolding occurs
    Phase-old none h pos p = p
    Phase-old (some idx) h pos p = (
      p.0,
      p.1,
      p.2,
      λ j less. elim (Bool-cases (index d.ht0 key == j)) [
        | inl e ↦ absurd (
            omega (
              arith,
              ap (occurs key) (p.3 j less),
              ap (λ k. occurs key (get_or d.ht0.table k [])) ((==_iff (index d.ht0 key) j).0 e),
            ))
        | inr e ↦ rw (get_or-set d.ht0.table (index d.ht0 key) j c [] in_old, e) (p.3 j less)
      ],
    )
      where
        in_old : index d.ht0 key < length d.ht0.table
        in_old = omega (arith, v.old.width, v.old.mask, home-le type d.ht0.sizemask key)

    pub old-Writes :
        chain_find key (bucket d.ht0 key) ≡ some he
        → Stands d.ht0 key x c u
        → Writes d key x (record d { ht0 = write d.ht0 key c u })
    unfolding view or_else
    old-Writes h s =
        let pos = bucket_found d.ht0 key he v.old h in
        let some_here = occurs_found key (bucket d.ht0 key) he h in
        record {
          valid = record {
            old = written-IsHt d.ht0 v.old key x c u pos s;
            new = v.new;
            phase = Phase-old d.rehashidx some_here pos v.phase;
            once = λ q. omega (arith, written-occurs d.ht0 v.old key x c u pos s q, v.once q);
          };
          reads = λ q. elim (Bool-cases (is_key type q key)) [
            | inl e ↦
                rw (written-find d.ht0 v.old key x c u pos s q, e)
                  (rw
                    (chain_find-eq-none q (bucket d.ht1 q) (
                      omega (
                        arith,
                        v.once q,
                        occurs_found q (bucket d.ht0 q) he (bucket_find_congr d.ht0 q key e ∙ h),
                      )))
                    (or_else-none x))
            | inr e ↦ rw (written-find d.ht0 v.old key x c u pos s q, e)
          ];
        }

    pub new-Writes :
        chain_find key (bucket d.ht0 key) ≡ none
        → chain_find key (bucket d.ht1 key) ≡ some he
        → Stands d.ht1 key x c u
        → Writes d key x (record d { ht1 = write d.ht1 key c u })
    unfolding view or_else
    new-Writes g h s =
        let pos = bucket_found d.ht1 key he v.new h in
        record {
          valid = record {
            old = v.old;
            new = written-IsHt d.ht1 v.new key x c u pos s;
            phase = Phase-new d.rehashidx pos v.phase;
            once = λ q. omega (arith, written-occurs d.ht1 v.new key x c u pos s q, v.once q);
          };
          reads = λ q. elim (Bool-cases (is_key type q key)) [
            | inl e ↦
                rw (written-find d.ht1 v.new key x c u pos s q, e)
                  (rw (bucket_find_congr d.ht0 q key e, g))
            | inr e ↦ rw (written-find d.ht1 v.new key x c u pos s q, e)
          ];
        }
      where
        Phase-new :
            (o : Option ℕ)
            → 0 < d.ht1.size
            → Phase o d.ht0 d.ht1
            → Phase o d.ht0 (write d.ht1 key c u)
        Phase-new none pos p = absurd (omega (arith, ap (λ (t : Dictht K V). t.size) p))
        Phase-new (some idx) pos p = p
