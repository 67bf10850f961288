-- ===== src/Dict/Entries.antt =====
-- The entries of one bucket, and the callbacks of `dictType` (src/vr_dict.h).
pub mod Laws
use myownproject.Base.{
  ℕ, ◌+◌, ◌≡◌, Bool, true, ◌||◌, Option, none, some, List, [], ◌∷◌, if◌then◌else◌,
}

-- A callback that is NULL is the identity, or equality. Comparing and hashing are the caller's: the
-- table relies on an equivalence that the hash respects, and on a copied key being the same key.
pub record DictType {ℓ} (K V : Type ℓ) : Type ℓ where
  pub hash : K → ℕ
  pub key_compare : K → K → Bool
  pub same_pointer : K → K → Bool
  pub key_dup : K → K
  pub val_dup : V → V
  pub compare_refl : (a : K) → key_compare a a ≡ true
  pub compare_symm : (a b : K) → key_compare a b ≡ true → key_compare b a ≡ true
  pub compare_trans :
      (a b c : K) → key_compare a b ≡ true → key_compare b c ≡ true → key_compare a c ≡ true
  pub compare_pointer : (a b : K) → same_pointer a b ≡ true → key_compare a b ≡ true
  pub compare_dup : (a : K) → key_compare a (key_dup a) ≡ true
  pub hash-compare : (a b : K) → key_compare a b ≡ true → hash a ≡ hash b

abbrev pub Chain {ℓ} : Type ℓ → Type ℓ → Type ℓ
Chain K V = List (K × V)

-- `key==he->key || dictCompareKeys(d, key, he->key)`
unfoldable pub is_key {ℓ} : {K V : Type ℓ} → DictType K V → K → K → Bool
is_key type key k = type.same_pointer key k || type.key_compare key k

module _ {ℓ} {K V : Type ℓ} ⦃type : DictType K V⦄ where
  unfoldable pub chain_find : K → Chain K V → Option (K × V)
  chain_find key [] = none
  chain_find key (he ∷ next) = if is_key type key he.0 then some he else chain_find key next

  unfoldable pub chain_assign : K → V → Chain K V → Chain K V
  chain_assign key val [] = []
  chain_assign key val (he ∷ next) =
      if is_key type key he.0 then (he.0, val) ∷ next else he ∷ chain_assign key val next

  -- `none` where no entry has the key.
  unfoldable pub chain_remove : K → Chain K V → Option (Chain K V)
  chain_remove key [] = none
  chain_remove key (he ∷ next) =
      let rest : Option (Chain K V) = chain_remove key next in
      if is_key type key he.0
      then some next
      else (elim rest [ none ↦ none | some r ↦ some (he ∷ r) ])

  -- How many entries of the chain have this key.
  unfoldable pub occurs : K → Chain K V → ℕ
  occurs key [] = 0
  occurs key (he ∷ next) =
      let rest = occurs key next in if is_key type key he.0 then rest + 1 else rest
