-- ===== src/Multi/Linked/Steps.antt =====
-- `watchForKey` and one round of `unwatchAllKeys` (src/vr_multi.c) keep the lists alike.
use myownproject.Base.{
  ℕ, suc, ◌-◌, ◌<◌, ◌≡◌, refl, ap, ◌∙◌, inl, inr, false, Option, none, some, List, [], ◌∷◌, ◌++◌,
  ◌==◌, if◌then◌else◌, arith, Bool-cases, Option-cases, is_empty,
}
use myownproject.Multi.State.{Key, Server, assign, or_created, update_client, set_watchers}
use myownproject.Multi.Watch.{
  is_watched, add_watched, watch_for_key, delete, keep_watchers, set_watched, unwatch_key,
}
use myownproject.Multi.Keys.{
  key_eq_refl, count, same_key, watch_count, count-append, watch_count-append, is_watched-count,
  delete-count,
}
use myownproject.Multi.Linked.{
  fetched, watchers, watched, IsLinked, same_key→eq, fetched-assign, fetched-keep, IsMoved,
  IsMoved-IsLinked, watched-update, here→eq,
}

is_empty-snoc : (l m : List ℕ) (c : ℕ) → some (l ++ (c ∷ [])) ≡ some m → is_empty m ≡ false
is_empty-snoc [] m c e = ground arith
is_empty-snoc (i ∷ l) m c e = ground arith

abbrev unless_empty : List ℕ → Option (List ℕ)
unless_empty l = if is_empty l then none else some l

or_created-unless_empty : (l : List ℕ) → or_created (unless_empty l) ≡ l
or_created-unless_empty [] = refl
or_created-unless_empty (i ∷ l) = refl

unless_empty-some : (l m : List ℕ) → unless_empty l ≡ some m → is_empty m ≡ false
unless_empty-some [] m e = ground arith
unless_empty-some (i ∷ l) m e = ground arith

-- The new watcher of a key, and the key new in its client.
abbrev watching : ℕ → ℕ → Key → Server → Server
watching c d key s =
    update_client c (add_watched d key)
      (set_watchers d (assign key (watchers d key s ++ (c ∷ [])) (s.db d).watched_keys) s)

watching-IsMoved :
    (s : Server) (c d : ℕ) (key : Key)
    → watch_count d key (watched c s) ≡ 0
    → IsLinked s
    → IsMoved s (watching c d key s) c d key suc
watching-IsMoved s c d key new h = record {
  listed = λ i e q.
      rw (fetched-assign s d e key q (watchers d key s ++ (c ∷ [])))
        (elim (Bool-cases (same_key e q (d, key))) [
          | inl g ↦
              let (x, y) = same_key→eq d e key q g in
              rw g (rw (x, y) (ground (arith, count-append i (watchers d key s) c)))
          | inr g ↦ rw g (ground arith)
        ]);
  stored = λ i e q.
      ap (watch_count e q) (watched-update s c i (add_watched d key)) ∙ elim (Bool-cases (i == c)) [
        | inl g ↦ rw (g, watch_count-append e q (watched i s) (d, key)) refl
        | inr g ↦ rw g refl
      ];
  bound = λ i e q g. (let (x, y, z) = here→eq c d i e key q g in rw (x, y, z, new) (omega arith));
  filled = λ e q l.
      rw (fetched-assign s d e key q (watchers d key s ++ (c ∷ [])))
        (elim (Bool-cases (same_key e q (d, key))) [
          | inl g ↦ rw g (is_empty-snoc (watchers d key s) l c)
          | inr g ↦ rw g (h.kept e q l)
        ]);
}

-- The same for the release of a key.
released-IsMoved :
    (s : Server) (c d : ℕ) (key : Key) (l : List ℕ) (rest : List (ℕ × Key))
    → ((i : ℕ)
        → count i l
          ≡ (if i == c then count i (watchers d key s) - 1 else count i (watchers d key s)))
    → watched c s ≡ (d, key) ∷ rest
    → IsLinked s
    → IsMoved s (update_client c (set_watched rest) (keep_watchers d key l s)) c d key (λ n. n - 1)
unfolding watch_count keep_watchers
released-IsMoved s c d key l rest fewer first h = record {
  listed = λ i e q. rw (fetched-keep s d e key q l) (elim (Bool-cases (same_key e q (d, key))) [
    | inl g ↦
        let (x, y) = same_key→eq d e key q g in
        rw g (rw (x, y, or_created-unless_empty l, fewer i) (ground arith))
    | inr g ↦ rw g (ground arith)
  ]);
  stored = λ i e q.
      ap (watch_count e q) (watched-update (keep_watchers d key l s) c i (set_watched rest))
      ∙ elim (Bool-cases (i == c)) [
        | inl g ↦ (let z : i ≡ c = ground arith in rw (z, first) (ground arith))
        | inr g ↦ rw g refl
      ];
  bound = λ i e q g. omega (arith, h.once i e q);
  filled = λ e q m. rw (fetched-keep s d e key q l) (elim (Bool-cases (same_key e q (d, key))) [
    | inl g ↦ rw g (unless_empty-some l m)
    | inr g ↦ rw g (h.kept e q m)
  ]);
}

pub watch_for_key-IsLinked :
    (c : ℕ) (key : Key) (s : Server) → IsLinked s → IsLinked (watch_for_key c key s)
unfolding watch_for_key
watch_for_key-IsLinked c key s h =
    elim (Bool-cases (is_watched (s.client c).db key (watched c s))) [
      | inl g ↦ rw g h
      | inr g ↦
          let n = is_watched-count (s.client c).db key (watched c s) in
          let new : watch_count (s.client c).db key (watched c s) ≡ 0 = ground arith in
          rw g (
            IsMoved-IsLinked s (watching c (s.client c).db key s) c (s.client c).db key suc
              (watching-IsMoved s c (s.client c).db key new h) h)
    ]

-- What a release leaves of every client.
abbrev pub Releases : ℕ → List (ℕ × Key) → Server → Server → Type 0
Releases c rest s t =
    (i : ℕ) → t.client i ≡ (if i == c then set_watched rest (s.client i) else s.client i)

released-Releases :
    (c d : ℕ) (key : Key) (l : List ℕ) (rest : List (ℕ × Key)) (s : Server)
    → Releases c rest s (update_client c (set_watched rest) (keep_watchers d key l s))
unfolding keep_watchers
released-Releases c d key l rest s i = refl

unwatch_key_found :
    (c d : ℕ) (key : Key) (rest : List (ℕ × Key)) (s : Server) (l r : List ℕ)
    → fetched d key s ≡ some l
    → delete c l ≡ some r
    → ((i : ℕ) → count i r ≡ (if i == c then count i l - 1 else count i l))
    → IsLinked s
    → watched c s ≡ (d, key) ∷ rest
    → (t : Server) × (unwatch_key c (d, key) rest s ≡ some t) × IsLinked t × Releases c rest s t
unfolding unwatch_key
unwatch_key_found c d key rest s l r e g f h first = (
  update_client c (set_watched rest) (keep_watchers d key r s),
  rw (unwatch_key, e, g) refl,
  IsMoved-IsLinked s (update_client c (set_watched rest) (keep_watchers d key r s)) c d key
      (λ m. m - 1) (released-IsMoved s c d key r rest (λ i. rw (ap or_created e) (f i)) first h) h,
  released-Releases c d key r rest s,
)

pub unwatch_key-IsLinked :
    (c d : ℕ) (key : Key) (rest : List (ℕ × Key)) (s : Server)
    → IsLinked s
    → watched c s ≡ (d, key) ∷ rest
    → (t : Server) × (unwatch_key c (d, key) rest s ≡ some t) × IsLinked t × Releases c rest s t
unfolding count watch_count
unwatch_key-IsLinked c d key rest s h first =
    (let n : count c (watchers d key s) ≡ watch_count d key ((d, key) ∷ rest) =
        h.agree c d key ∙ ap (watch_count d key) first in
      let there : 0 < count c (watchers d key s) = rw (n, key_eq_refl key) (ground arith) in
      elim (Option-cases (fetched d key s)) [
        | inl e ↦
            (let z : count c (watchers d key s) ≡ 0 = ap (λ o. count c (or_created o)) e in
              absurd (omega (arith, z, there)))
        | inr (l, e) ↦
            (let z : count c (watchers d key s) ≡ count c l = ap (λ o. count c (or_created o)) e in
              let (r, g, f) = delete-count c l (omega (arith, z, there)) in
              unwatch_key_found c d key rest s l r e g f h first)
      ])
