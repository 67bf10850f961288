-- ===== src/Multi/Marks.antt =====
-- `touchWatchedKey` and `touchWatchedKeysOnFlush` (src/vr_multi.c) mark the clients that watch.
use myownproject.Base.{
  ℕ, zero, suc, ◌≡◌, refl, sym, ap, ◌∙◌, Bool, true, false, Option, none, some, List, [], ◌∷◌, ◌==◌,
  ltb, if◌then◌else◌, arith, is_empty,
}
use myownproject.Multi.State.{Key, Client, Server, fetch, or_created, update_client}
use myownproject.Multi.Watch.{is_watched, mark, mark_all, touch_watched_key}
use myownproject.Multi.Keys.{count, watch_count, is_watched-count}
use myownproject.Multi.Linked.{watchers, watched, IsLinked}

-- A change of a client that leaves its watched keys alone leaves the lists alike.
watched_kept :
    (c i : ℕ) (f : Client → Client) (s : Server)
    → ((x : Client) → (f x).watched_keys ≡ x.watched_keys)
    → watched i (update_client c f s) ≡ watched i s
watched_kept c i f s k = go (i == c) (s.client i)
  where
    go : (b : Bool) (x : Client) → (if b then f x else x).watched_keys ≡ x.watched_keys
    go true x = k x
    go false x = refl

pub update_client-IsLinked :
    (c : ℕ) (f : Client → Client) (s : Server)
    → ((x : Client) → (f x).watched_keys ≡ x.watched_keys)
    → IsLinked s
    → IsLinked (update_client c f s)
update_client-IsLinked c f s k h = record {
  agree = λ i d key. h.agree i d key ∙ ap (watch_count d key) (sym (watched_kept c i f s k));
  once = λ i d key. rw (watched_kept c i f s k) (h.once i d key);
  kept = h.kept;
}

pub mark_all-IsLinked : (l : List ℕ) (s : Server) → IsLinked s → IsLinked (mark_all l s)
unfolding mark_all
mark_all-IsLinked [] s h = h
mark_all-IsLinked (c ∷ l) s h =
    mark_all-IsLinked l (update_client c mark s) (update_client-IsLinked c mark s (λ x. refl) h)

-- What a client is after a mark that depends on a test.
abbrev pub marked_if : Bool → Client → Client
marked_if b c = if b then record c { dirty_cas = true } else c

mark_all-client :
    (l : List ℕ) (s : Server) (c : ℕ)
    → (mark_all l s).client c ≡ marked_if (ltb 0 (count c l)) (s.client c)
unfolding mark_all count
mark_all-client [] s c = refl
mark_all-client (i ∷ l) s c =
    mark_all-client l (update_client i mark s) c ∙ again (c == i) (count c l) (s.client c)
  where
    again :
        (b : Bool) (n : ℕ) (x : Client)
        → marked_if (ltb 0 n) (if b then mark x else x)
          ≡ marked_if (ltb 0 (if b then suc n else n)) x
    again true zero x = refl
    again true (suc n) x =
        (let e : ltb 0 (suc n) ≡ true = ground arith in
          let f : ltb 0 (suc (suc n)) ≡ true = ground arith in rw (e, f) refl)
    again false n x = refl

found :
    (o : Option (List ℕ)) (s : Server)
    → (elim o [ none ↦ s | some l ↦ mark_all l s ]) ≡ mark_all (or_created o) s
unfolding mark_all
found none s = refl
found (some l) s = refl

touch-cases :
    (d : ℕ) (key : Key) (s : Server) → touch_watched_key d key s ≡ mark_all (watchers d key s) s
unfolding touch_watched_key fetch mark_all
touch-cases d key s = go (s.db d).watched_keys
  where
    go :
        (m : List (Key × List ℕ))
        → (if is_empty m then s else (elim (fetch key m) [ none ↦ s | some l ↦ mark_all l s ]))
          ≡ mark_all (or_created (fetch key m)) s
    go [] = refl
    go (e ∷ m) = found (fetch key (e ∷ m)) s

-- Where the lists of the clients and of the databases say the same, `touchWatchedKey` marks exactly
-- the clients that watch the key in this database, and changes nothing else of any client.
pub touch_watched_key-client :
    (d : ℕ) (key : Key) (s : Server) (c : ℕ)
    → IsLinked s
    → (touch_watched_key d key s).client c ≡ marked_if (is_watched d key (watched c s)) (s.client c)
touch_watched_key-client d key s c h =
    ap (λ t. t.client c) (touch-cases d key s)
    ∙ mark_all-client (watchers d key s) s c
    ∙ ap (λ b. marked_if b (s.client c))
        (ap (ltb 0) (h.agree c d key) ∙ sym (is_watched-count d key (watched c s)))

pub touch_watched_key-IsLinked :
    (d : ℕ) (key : Key) (s : Server) → IsLinked s → IsLinked (touch_watched_key d key s)
touch_watched_key-IsLinked d key s h =
    rw (touch-cases d key s) (mark_all-IsLinked (watchers d key s) s h)
