-- ===== src/Dict/Entries/Laws.antt =====
-- What lookups and removals in one chain do, and that keys behave as an equivalence.
use myownproject.Base.{
  ◌+◌, ◌≤◌, ◌≡◌, refl, true, none, some, [], ◌∷◌, arith, if◌then◌else◌, length, inl, inr,
  Option-cases,
}
use myownproject.Dict.Entries.{
  DictType, Chain, is_key, chain_find, chain_assign, chain_remove, occurs,
}

module _ {ℓ} {K V : Type ℓ} (type : DictType K V) where
  pub is_key_refl : (a : K) → is_key type a a ≡ true
  unfolding is_key
  is_key_refl a = ground (arith, type.compare_refl a)

  pub is_key_symm : (a b : K) → is_key type a b ≡ is_key type b a
  unfolding is_key
  is_key_symm a b = ground (
    arith,
    type.compare_symm a b,
    type.compare_symm b a,
    type.compare_pointer a b,
    type.compare_pointer b a,
  )

  pub is_key_congr : (a b c : K) → is_key type a b ≡ true → is_key type a c ≡ is_key type b c
  unfolding is_key
  is_key_congr a b c e = ground (
    arith,
    type.compare_symm a b,
    type.compare_trans a b c,
    type.compare_trans b a c,
    type.compare_pointer a b,
    type.compare_pointer a c,
    type.compare_pointer b c,
  )

  pub is_key_join :
      (a b c : K) → is_key type a c ≡ true → is_key type b c ≡ true → is_key type a b ≡ true
  unfolding is_key
  is_key_join a b c e f = ground (
    arith,
    type.compare_symm b c,
    type.compare_trans a c b,
    type.compare_pointer a c,
    type.compare_pointer b c,
  )

  pub is_key_dup : (a : K) → is_key type a (type.key_dup a) ≡ true
  unfolding is_key
  is_key_dup a = ground (arith, type.compare_dup a)

  pub hash-is_key : (a b : K) → is_key type a b ≡ true → type.hash a ≡ type.hash b
  unfolding is_key
  hash-is_key a b e = ground (arith, type.compare_pointer a b, type.hash-compare a b)

module _ {ℓ} {K V : Type ℓ} ⦃type : DictType K V⦄ where
  pub chain_find-eq-none : (q : K) (c : Chain K V) → occurs q c ≡ 0 → chain_find q c ≡ none
  unfolding occurs chain_find
  chain_find-eq-none q [] h = refl
  chain_find-eq-none q (he ∷ c) h = ground (arith, chain_find-eq-none q c)

  pub occurs-eq-zero : (q : K) (c : Chain K V) → chain_find q c ≡ none → occurs q c ≡ 0
  unfolding occurs chain_find
  occurs-eq-zero q [] h = refl
  occurs-eq-zero q (he ∷ c) h = ground (arith, occurs-eq-zero q c)

  pub occurs-le-length : (q : K) (c : Chain K V) → occurs q c ≤ length c
  unfolding occurs
  occurs-le-length q [] = omega arith
  occurs-le-length q (he ∷ c) = ground (arith, occurs-le-length q c)

  pub occurs_congr : (a b : K) (c : Chain K V) → is_key type a b ≡ true → occurs a c ≡ occurs b c
  unfolding occurs
  occurs_congr a b [] e = refl
  occurs_congr a b (he ∷ c) e = ground (arith, occurs_congr a b c, is_key_congr type a b he.0)

  pub chain_find_congr :
      (a b : K) (c : Chain K V) → is_key type a b ≡ true → chain_find a c ≡ chain_find b c
  unfolding chain_find
  chain_find_congr a b [] e = refl
  chain_find_congr a b (he ∷ c) e =
      ground (arith, chain_find_congr a b c, is_key_congr type a b he.0)

  pub occurs-chain_assign :
      (key q : K) (v : V) (c : Chain K V) → occurs q (chain_assign key v c) ≡ occurs q c
  unfolding occurs chain_assign
  occurs-chain_assign key q v [] = refl
  occurs-chain_assign key q v (he ∷ c) = ground (arith, occurs-chain_assign key q v c)

  pub length-chain_assign :
      (key : K) (v : V) (c : Chain K V) → length (chain_assign key v c) ≡ length c
  unfolding chain_assign
  length-chain_assign key v [] = refl
  length-chain_assign key v (he ∷ c) = ground (arith, length-chain_assign key v c)

  -- The entry keeps its own key.
  pub chain_find-chain_assign :
      (key q : K) (v : V) (c : Chain K V) (he : K × V)
      → chain_find key c ≡ some he
      → chain_find q (chain_assign key v c)
        ≡ (if is_key type q key then some (he.0, v) else chain_find q c)
  unfolding chain_find chain_assign
  chain_find-chain_assign key q v [] he h = ground arith
  chain_find-chain_assign key q v (e ∷ c) he h = ground (
    arith,
    chain_find-chain_assign key q v c he,
    is_key_congr type q key e.0,
    is_key_join type q key e.0,
  )

  pub chain_remove-eq-none :
      (key : K) (c : Chain K V) → chain_remove key c ≡ none → occurs key c ≡ 0
  unfolding occurs chain_remove
  chain_remove-eq-none key [] h = refl
  chain_remove-eq-none key (he ∷ c) h = ground (arith, chain_remove-eq-none key c)

  pub length-chain_remove :
      (key : K) (c : Chain K V) {r : Chain K V}
      → chain_remove key c ≡ some r
      → length r + 1 ≡ length c
  unfolding chain_remove
  length-chain_remove key [] h = ground arith
  length-chain_remove key (he ∷ c) {r} h = elim (Option-cases (chain_remove key c)) [
    | inl e ↦ ground (arith, e)
    | inr (x, e) ↦ ground (arith, e, length-chain_remove key c e)
  ]

  pub occurs-chain_remove :
      (key q : K) (c : Chain K V) {r : Chain K V}
      → chain_remove key c ≡ some r
      → occurs q r + (if is_key type q key then 1 else 0) ≡ occurs q c
  unfolding occurs chain_remove
  occurs-chain_remove key q [] h = ground arith
  occurs-chain_remove key q (he ∷ c) {r} h = elim (Option-cases (chain_remove key c)) [
    | inl e ↦ ground (arith, e, is_key_congr type q key he.0, is_key_join type q key he.0)
    | inr (x, e) ↦ ground (
      arith,
      e,
      occurs-chain_remove key q c e,
      is_key_congr type q key he.0,
      is_key_join type q key he.0,
    )
  ]

  pub chain_find-chain_remove :
      (key q : K) (c : Chain K V) {r : Chain K V}
      → occurs q c ≤ 1
      → chain_remove key c ≡ some r
      → chain_find q r ≡ (if is_key type q key then none else chain_find q c)
  unfolding occurs chain_remove chain_find
  chain_find-chain_remove key q [] o h = ground arith
  chain_find-chain_remove key q (he ∷ c) {r} o h = elim (Option-cases (chain_remove key c)) [
    | inl e ↦ ground (
      arith,
      e,
      chain_find-eq-none q c,
      is_key_congr type q key he.0,
      is_key_join type q key he.0,
    )
    | inr (x, e) ↦ ground (
      arith,
      e,
      chain_find-eq-none q c,
      chain_find-chain_remove key q c {r = x},
      is_key_congr type q key he.0,
      is_key_join type q key he.0,
    )
  ]
