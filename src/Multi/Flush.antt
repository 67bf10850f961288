-- ===== src/Multi/Flush.antt =====
-- `touchWatchedKeysOnFlush` (src/vr_multi.c) marks the clients that lose a key they watch.
use mathlib.Core.Path.{ap₂}
use myownproject.Base.{
  ℕ, none, some, suc, ◌≡◌, refl, ap, ◌∙◌, inl, inr, Bool, true, false, ◌&&◌, ◌||◌, Option, List, [],
  ◌∷◌, ◌==◌, ltb, if◌then◌else◌, arith, Bool-cases,
}
use myownproject.Multi.State.{Key, key_eq, Client, Db, Server, exists, update_client}
use myownproject.Multi.Watch.{
  mark, is_flushed, flush_keys, flush_clients, touch_watched_keys_on_flush,
}
use myownproject.Multi.Keys.{count}
use myownproject.Multi.Linked.{watched, IsLinked}
use myownproject.Multi.Marks.{marked_if, update_client-IsLinked}

ltb-count : (b : Bool) (n : ℕ) → (b || ltb 0 n) ≡ ltb 0 (if b then suc n else n)
ltb-count true n = ground arith
ltb-count false n = refl

-- How often a key stands among some keys.
unfoldable pub key_count : Key → List Key → ℕ
key_count key [] = 0
key_count key (k ∷ ks) = let rest = key_count key ks in if key_eq key k then suc rest else rest

-- Whether a flush of the database `dbid`, of every database where that is `none`, empties `d`.
abbrev pub empties : Option ℕ → ℕ → Bool
empties none d = true
empties (some dbid) d = dbid == d

-- How many of some keys, each with its database, are there and go with a flush.
unfoldable pub lost : Option ℕ → (ℕ → Db) → List (ℕ × Key) → ℕ
lost dbid db [] = 0
lost dbid db (wk ∷ wks) =
    let rest = lost dbid db wks in
    if empties dbid wk.0 && ltb 0 (key_count wk.1 (db wk.0).keys) then suc rest else rest

exists-key_count : (key : Key) (ks : List Key) → exists key ks ≡ ltb 0 (key_count key ks)
unfolding exists key_count
exists-key_count key [] = refl
exists-key_count key (k ∷ ks) =
    ap (λ b. key_eq key k || b) (exists-key_count key ks)
    ∙ ltb-count (key_eq key k) (key_count key ks)

is_flushed-empties : (dbid : Option ℕ) (d : ℕ) → is_flushed dbid d ≡ empties dbid d
is_flushed-empties none d = refl
is_flushed-empties (some dbid) d = ground arith

-- The test of the loop over the watched keys.
unfoldable has_flushed : Option ℕ → (ℕ → Db) → List (ℕ × Key) → Bool
has_flushed dbid db [] = false
has_flushed dbid db (wk ∷ wks) =
    is_flushed dbid wk.0 && exists wk.1 (db wk.0).keys || has_flushed dbid db wks

mark_again :
    (b r : Bool) (x : Client)
    → marked_if (b && r) (if b then mark x else x) ≡ marked_if (b && true) x
mark_again true true x = refl
mark_again true false x = refl
mark_again false r x = refl

-- One more key in front of those that `next` looks at.
one_more :
    (b : Bool) (next : Server → Server) (c : ℕ) (r : Bool) (s : Server) (i : ℕ)
    → (next (update_client c mark s)).client i
      ≡ marked_if (i == c && r) ((update_client c mark s).client i)
    → (next s).client i ≡ marked_if (i == c && r) (s.client i)
    → (next (if b then update_client c mark s else s)).client i
      ≡ marked_if (i == c && (b || r)) (s.client i)
one_more true next c r s i f g = f ∙ mark_again (i == c) r (s.client i)
one_more false next c r s i f g = g

flush_keys-client :
    (dbid : Option ℕ) (c : ℕ) (wks : List (ℕ × Key)) (s : Server) (i : ℕ)
    → (flush_keys dbid c wks s).client i
      ≡ marked_if (i == c && has_flushed dbid s.db wks) (s.client i)
unfolding flush_keys has_flushed
flush_keys-client dbid c [] s i = (let e : (i == c && false) ≡ false = ground arith in rw e refl)
flush_keys-client dbid c (wk ∷ wks) s i =
    one_more (is_flushed dbid wk.0 && exists wk.1 (s.db wk.0).keys) (λ t. flush_keys dbid c wks t) c
      (has_flushed dbid s.db wks) s i (flush_keys-client dbid c wks (update_client c mark s) i)
      (flush_keys-client dbid c wks s i)

flush_keys-db :
    (dbid : Option ℕ) (c : ℕ) (wks : List (ℕ × Key)) (s : Server)
    → (flush_keys dbid c wks s).db ≡ s.db
unfolding flush_keys
flush_keys-db dbid c [] s = refl
flush_keys-db dbid c (wk ∷ wks) s =
    elim (Bool-cases (is_flushed dbid wk.0 && exists wk.1 (s.db wk.0).keys)) [
      | inl e ↦ rw (flush_keys, e) (flush_keys-db dbid c wks (update_client c mark s))
      | inr e ↦ rw (flush_keys, e) (flush_keys-db dbid c wks s)
    ]

watched-marked_if : (b : Bool) (x : Client) → (marked_if b x).watched_keys ≡ x.watched_keys
watched-marked_if true x = refl
watched-marked_if false x = refl

-- Two marks for the same reason are one.
marks_join :
    (p q f g : Bool) (x : Client)
    → (q ≡ true → g ≡ f)
    → marked_if (p && f) (marked_if (q && g) x) ≡ marked_if ((q || p) && f) x
marks_join true true true g x e = rw (e refl) refl
marks_join false true true g x e = rw (e refl) refl
marks_join true true false g x e = rw (e refl) refl
marks_join false true false g x e = rw (e refl) refl
marks_join p false f g x e = refl

flush_clients-client :
    (dbid : Option ℕ) (cs : List ℕ) (s : Server) (i : ℕ)
    → (flush_clients dbid cs s).client i
      ≡ marked_if (ltb 0 (count i cs) && has_flushed dbid s.db (watched i s)) (s.client i)
unfolding flush_clients count
flush_clients-client dbid [] s i = refl
flush_clients-client dbid (c ∷ cs) s i =
    (let t = flush_keys dbid c (watched c s) s in
      let n = ltb 0 (count i cs) in
      let f = has_flushed dbid s.db (watched i s) in
      let g = has_flushed dbid s.db (watched c s) in
      let e : t.client i ≡ marked_if (i == c && g) (s.client i) =
        flush_keys-client dbid c (watched c s) s i in
      let w : watched i t ≡ watched i s =
        ap (λ x. x.watched_keys) e ∙ watched-marked_if (i == c && g) (s.client i) in
      let same : (i == c) ≡ true → g ≡ f =
        λ z. (let y : c ≡ i = ground arith in ap (λ j. has_flushed dbid s.db (watched j s)) y) in
      flush_clients-client dbid cs t i
      ∙ ap (λ d. marked_if (n && has_flushed dbid d (watched i t)) (t.client i))
          (flush_keys-db dbid c (watched c s) s)
      ∙ ap (λ l. marked_if (n && has_flushed dbid s.db l) (t.client i)) w
      ∙ ap (marked_if (n && f)) e
      ∙ marks_join n (i == c) f g (s.client i) same
      ∙ ap (λ b. marked_if (b && f) (s.client i)) (ltb-count (i == c) (count i cs)))

has_flushed-lost :
    (dbid : Option ℕ) (db : ℕ → Db) (wks : List (ℕ × Key))
    → has_flushed dbid db wks ≡ ltb 0 (lost dbid db wks)
unfolding has_flushed lost
has_flushed-lost dbid db [] = refl
has_flushed-lost dbid db (wk ∷ wks) =
    let goes = empties dbid wk.0 && ltb 0 (key_count wk.1 (db wk.0).keys) in
    ap₂ (λ a b. a && b || has_flushed dbid db wks) (is_flushed-empties dbid wk.0)
      (exists-key_count wk.1 (db wk.0).keys)
    ∙ ap (λ b. goes || b) (has_flushed-lost dbid db wks)
    ∙ ltb-count goes (lost dbid db wks)

-- `touchWatchedKeysOnFlush` sets the dirty flag of exactly the clients of the server that watch a key
-- which is there and which the flush takes away: one in the flushed database, or in any where all are
-- flushed. It changes nothing else of any client.
pub touch_watched_keys_on_flush-client :
    (dbid : Option ℕ) (s : Server) (i : ℕ)
    → (touch_watched_keys_on_flush dbid s).client i
      ≡ marked_if (ltb 0 (count i s.clients) && ltb 0 (lost dbid s.db (watched i s))) (s.client i)
unfolding touch_watched_keys_on_flush
touch_watched_keys_on_flush-client dbid s i =
    flush_clients-client dbid s.clients s i
    ∙ ap (λ b. marked_if (ltb 0 (count i s.clients) && b) (s.client i))
        (has_flushed-lost dbid s.db (watched i s))

flush_keys-IsLinked :
    (dbid : Option ℕ) (c : ℕ) (wks : List (ℕ × Key)) (s : Server)
    → IsLinked s
    → IsLinked (flush_keys dbid c wks s)
unfolding flush_keys
flush_keys-IsLinked dbid c [] s h = h
flush_keys-IsLinked dbid c (wk ∷ wks) s h =
    elim (Bool-cases (is_flushed dbid wk.0 && exists wk.1 (s.db wk.0).keys)) [
      | inl e ↦ rw e (
          flush_keys-IsLinked dbid c wks (update_client c mark s)
            (update_client-IsLinked c mark s (λ x. refl) h))
      | inr e ↦ rw e (flush_keys-IsLinked dbid c wks s h)
    ]

flush_clients-IsLinked :
    (dbid : Option ℕ) (cs : List ℕ) (s : Server) → IsLinked s → IsLinked (flush_clients dbid cs s)
unfolding flush_clients
flush_clients-IsLinked dbid [] s h = h
flush_clients-IsLinked dbid (c ∷ cs) s h =
    flush_clients-IsLinked dbid cs (flush_keys dbid c (watched c s) s)
      (flush_keys-IsLinked dbid c (watched c s) s h)

pub touch_watched_keys_on_flush-IsLinked :
    (dbid : Option ℕ) (s : Server) → IsLinked s → IsLinked (touch_watched_keys_on_flush dbid s)
unfolding touch_watched_keys_on_flush
touch_watched_keys_on_flush-IsLinked dbid s h = flush_clients-IsLinked dbid s.clients s h
