-- ===== src/Multi/Linked.antt =====
-- The lists of watching clients in the databases and the lists of watched keys in the clients
-- (src/vr_multi.c) say the same.
pub mod Steps
use myownproject.Base.{
  ℕ, suc, ◌-◌, ◌≤◌, ◌<◌, ◌≡◌, refl, sym, ap, ◌∙◌, inl, inr, Bool, true, false, ◌&&◌, Option, none,
  some, List, [], ◌∷◌, ◌++◌, ◌==◌, ltb, if◌then◌else◌, arith, Bool-cases, is_empty,
}
use myownproject.Multi.State.{
  Key, key_eq, Client, Server, fetch, remove, assign, or_created, update_client, set_watchers,
}
use myownproject.Multi.Watch.{
  is_watched, add_watched, watch_for_key, delete, keep_watchers, set_watched, unwatch_key,
}
use myownproject.Multi.Keys.{
  key_eq→eq, fetch-remove, fetch-assign, count, same_key, watch_count, count-append,
  watch_count-append, is_watched-count, delete-count,
}

abbrev pub fetched : ℕ → Key → Server → Option (List ℕ)
fetched d key s = fetch key (s.db d).watched_keys

abbrev pub watchers : ℕ → Key → Server → List ℕ
watchers d key s = or_created (fetched d key s)

abbrev pub watched : ℕ → Server → List (ℕ × Key)
watched c s = (s.client c).watched_keys

pub record IsLinked (s : Server) : Type 0 where
  pub agree : (c d : ℕ) (key : Key) → count c (watchers d key s) ≡ watch_count d key (watched c s)
  pub once : (c d : ℕ) (key : Key) → watch_count d key (watched c s) ≤ 1
  pub kept : (d : ℕ) (key : Key) (l : List ℕ) → fetched d key s ≡ some l → is_empty l ≡ false

pub same_key→eq : (d e : ℕ) (key q : Key) → same_key e q (d, key) ≡ true → (e ≡ d) × (q ≡ key)
same_key→eq d e key q h =
    (let t : key_eq q key ≡ true = ground arith in
      let z : e ≡ d = ground arith in (z, key_eq→eq q key t))

-- What a new list under one key changes of the lists that are found.
fetched-set :
    (s : Server) (d e : ℕ) (key q : Key) (m : List (Key × List ℕ)) (o : Option (List ℕ))
    → ((p : Key) → fetch p m ≡ (if key_eq p key then o else fetch p (s.db d).watched_keys))
    → fetched e q (set_watchers d m s) ≡ (if same_key e q (d, key) then o else fetched e q s)
fetched-set s d e key q m o f = elim (Bool-cases (e == d)) [
  | inl h ↦ (let z : e ≡ d = ground arith in rw (h, z) (ground (arith, f q)))
  | inr h ↦ rw h (ground arith)
]

pub fetched-assign :
    (s : Server) (d e : ℕ) (key q : Key) (l : List ℕ)
    → fetched e q (set_watchers d (assign key l (s.db d).watched_keys) s)
      ≡ (if same_key e q (d, key) then some l else fetched e q s)
fetched-assign s d e key q l =
    fetched-set s d e key q (assign key l (s.db d).watched_keys) (some l)
      (λ p. fetch-assign key p l (s.db d).watched_keys)

pub fetched-keep :
    (s : Server) (d e : ℕ) (key q : Key) (l : List ℕ)
    → fetched e q (keep_watchers d key l s)
      ≡ (if same_key e q (d, key) then (if is_empty l then none else some l) else fetched e q s)
unfolding keep_watchers
fetched-keep s d e key q [] =
    fetched-set s d e key q (remove key (s.db d).watched_keys) none
      (λ p. fetch-remove key p (s.db d).watched_keys)
fetched-keep s d e key q (i ∷ l) = fetched-assign s d e key q (i ∷ l)

watched_if :
    (b : Bool) (x y : Client)
    → (if b then x else y).watched_keys ≡ (if b then x.watched_keys else y.watched_keys)
watched_if true x y = refl
watched_if false x y = refl

pub watched-update :
    (s : Server) (c i : ℕ) (f : Client → Client)
    → watched i (update_client c f s)
      ≡ (if i == c then (f (s.client i)).watched_keys else watched i s)
watched-update s c i f = watched_if (i == c) (f (s.client i)) (s.client i)

abbrev pub here : ℕ → ℕ → Key → ℕ → ℕ → Key → Bool
here c d key i e q = i == c && same_key e q (d, key)

pub here→eq :
    (c d i e : ℕ) (key q : Key) → here c d key i e q ≡ true → (i ≡ c) × (e ≡ d) × (q ≡ key)
here→eq c d i e key q h =
    (let z : i ≡ c = ground arith in
      let g : same_key e q (d, key) ≡ true = ground arith in
      let (x, y) = same_key→eq d e key q g in (z, x, y))

-- A step that moves both counts of one client under one key alike, and no other.
pub record IsMoved (s t : Server) (c d : ℕ) (key : Key) (f : ℕ → ℕ) : Type 0 where
  pub listed :
      (i e : ℕ) (q : Key)
      → count i (watchers e q t)
        ≡ (if here c d key i e q then f (count i (watchers e q s)) else count i (watchers e q s))
  pub stored :
      (i e : ℕ) (q : Key)
      → watch_count e q (watched i t) ≡ (
          if here c d key i e q
          then f (watch_count e q (watched i s))
          else watch_count e q (watched i s))
  pub bound :
      (i e : ℕ) (q : Key) → here c d key i e q ≡ true → f (watch_count e q (watched i s)) ≤ 1
  pub filled : (e : ℕ) (q : Key) (l : List ℕ) → fetched e q t ≡ some l → is_empty l ≡ false

pub IsMoved-IsLinked :
    (s t : Server) (c d : ℕ) (key : Key) (f : ℕ → ℕ)
    → IsMoved s t c d key f
    → IsLinked s
    → IsLinked t
IsMoved-IsLinked s t c d key f m h = record {
  agree = λ i e q. rw (m.listed i e q, m.stored i e q, h.agree i e q) refl;
  once = λ i e q. rw (m.stored i e q) (elim (Bool-cases (here c d key i e q)) [
    | inl g ↦ rw g (m.bound i e q g)
    | inr g ↦ rw g (h.once i e q)
  ]);
  kept = m.filled;
}
