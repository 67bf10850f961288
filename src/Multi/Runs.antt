-- ===== src/Multi/Runs.antt =====
-- Runs of commands and flushes (src/vr_multi.c): what they never break, and what a client that watches
-- a key can rely on.
use myownproject.Base.{
  ℕ, ◌≡◌, refl, inl, inr, Bool, true, false, not, ◌&&◌, Option, some, List, [], ◌∷◌, ◌==◌,
  if◌then◌else◌, arith, Bool-cases,
}
use myownproject.Multi.State.{
  Key, Proc, exec, discard, multi, watch, other, Reply, ok, queued, discard_without_multi,
  watch_inside_multi, Client, Server, update_client, reply,
}
use myownproject.Multi.Watch.{watch_for_key, touch_watched_key}
use myownproject.Multi.Linked.{IsLinked}
use myownproject.Multi.Linked.Steps.{watch_for_key-IsLinked}
use myownproject.Multi.Marks.{update_client-IsLinked, touch_watched_key-IsLinked}
use myownproject.Multi.Discard.{discarded, discard_command-discarded}
use myownproject.Multi.Keeps.{
  Keeps, Keeps-refl, Keeps-trans, watch_for_key-Keeps, touch-Keeps, IsAside, update_client-Keeps,
  multi_command-IsAside,
}
use myownproject.Multi.Transaction.{
  queue_command, discard_command, multi_command, exec_command, watch_loop, watch_command, touch_all,
  Event, receive, refuse, flush, call,
}

-- What a step gives: a state in which the lists still say the same, and in which the client `c`, whom
-- the step spared, still watches what it did at `x`, with its mark.
abbrev pub Stepped : ℕ → Client → Bool → Option Server → Type 0
Stepped c x spared o =
    (t : Server) × (o ≡ some t) × IsLinked t × (spared ≡ true → Keeps x (t.client c))

pub aside-Stepped :
    (c : ℕ) (b : Bool) (i : ℕ) (f : Client → Client) (s : Server)
    → IsAside f
    → IsLinked s
    → Stepped c (s.client c) b (some (update_client i f s))
aside-Stepped c b i f s a h = (
  update_client i f s,
  refl,
  update_client-IsLinked i f s a.watches h,
  (λ z. update_client-Keeps f i s c a),
)

pub Stepped-after :
    (c : ℕ) (x y : Client) (b : Bool) (o : Option Server)
    → Keeps x y
    → Stepped c y b o
    → Stepped c x b o
Stepped-after c x y b o k (t, e, h, f) = (t, e, h, (λ z. Keeps-trans x y (t.client c) k (f z)))

pub watch_loop-Stepped :
    (keys : List Key) (i : ℕ) (s : Server) (c : ℕ)
    → IsLinked s
    → IsLinked (watch_loop i keys s) × Keeps (s.client c) ((watch_loop i keys s).client c)
unfolding watch_loop
watch_loop-Stepped [] i s c h = (h, Keeps-refl (s.client c))
watch_loop-Stepped (key ∷ keys) i s c h =
    (let t = watch_for_key i key s in
      let (g, k) = watch_loop-Stepped keys i t c (watch_for_key-IsLinked i key s h) in
      (
        g,
        Keeps-trans (s.client c) (t.client c) ((watch_loop i keys t).client c)
            (watch_for_key-Keeps i key s c) k,
      ))

touch_all-Stepped :
    (wks : List (ℕ × Key)) (s : Server) (c : ℕ)
    → IsLinked s
    → IsLinked (touch_all wks s) × Keeps (s.client c) ((touch_all wks s).client c)
unfolding touch_all
touch_all-Stepped [] s c h = (h, Keeps-refl (s.client c))
touch_all-Stepped ((d, key) ∷ wks) s c h =
    (let t = touch_watched_key d key s in
      let (g, k) = touch_all-Stepped wks t c (touch_watched_key-IsLinked d key s h) in
      (
        g,
        Keeps-trans (s.client c) (t.client c) ((touch_all wks t).client c) (touch-Keeps d key s c h)
            k,
      ))

reply-IsAside : (r : Reply) → IsAside (reply r)
reply-IsAside r = record { watches = λ x. refl; dirty = λ x h. h }

watch_command-Stepped :
    (c i : ℕ) (b : Bool) (s : Server)
    → IsLinked s
    → Stepped c (s.client c) b (some (watch_command i s))
unfolding watch_command
watch_command-Stepped c i b s h = elim (Bool-cases (s.client i).in_multi) [
  | inl e ↦
      rw (watch_command, e)
        (aside-Stepped c b i (reply watch_inside_multi) s (reply-IsAside watch_inside_multi) h)
  | inr e ↦
      let t = watch_loop i (s.client i).argv s in
      let (g, k) = watch_loop-Stepped (s.client i).argv i s c h in
      rw (watch_command, e)
        (Stepped-after c (s.client c) (t.client c) b (some (update_client i (reply ok) t)) k
          (aside-Stepped c b i (reply ok) t (reply-IsAside ok) g))
]

discard_command-Stepped :
    (c i : ℕ) (s : Server)
    → IsLinked s
    → Stepped c (s.client c) (not (c == i)) (discard_command i s)
unfolding discard_command
discard_command-Stepped c i s h = elim (Bool-cases (s.client i).in_multi) [
  | inl e ↦
      let (t, f, g, r) = discard_command-discarded i s h e in
      (t, f, g, (λ z. other_client t (r c) z))
  | inr e ↦
      rw (discard_command, e)
        (aside-Stepped c (not (c == i)) i (reply discard_without_multi) s
          (reply-IsAside discard_without_multi) h)
]
  where
    other_client :
        (t : Server)
        → t.client c ≡ (if c == i then discarded (s.client c) else s.client c)
        → not (c == i) ≡ true
        → Keeps (s.client c) (t.client c)
    other_client t r z =
        (let n : (c == i) ≡ false = ground arith in rw (r, n) (Keeps-refl (s.client c)))

pub queue-Stepped :
    (c i : ℕ) (b : Bool) (s : Server)
    → IsLinked s
    → Stepped c
        (s.client c)
        b
        (some (update_client i (reply queued) (update_client i queue_command s)))
queue-Stepped c i b s h =
    (let a : IsAside queue_command = record { watches = λ x. refl; dirty = λ x h. h } in
      Stepped-after c (s.client c) ((update_client i queue_command s).client c) b
        (some (update_client i (reply queued) (update_client i queue_command s)))
        (update_client-Keeps queue_command i s c a)
        (aside-Stepped c b i (reply queued) (update_client i queue_command s) (reply-IsAside queued)
          (update_client-IsLinked i queue_command s (λ x. refl) h)))

-- Whether an event is not the DISCARD of a client.
unfoldable pub spares : ℕ → Event → Bool
spares c (receive i d discard args) = not (c == i)
spares c (receive i d exec args) = true
spares c (receive i d multi args) = true
spares c (receive i d watch args) = true
spares c (receive i d (other n) args) = true
spares c (refuse i) = true
spares c (flush dbid) = true

unfoldable pub all_spare : ℕ → List Event → Bool
all_spare c [] = true
all_spare c (e ∷ es) = spares c e && all_spare c es

module _ (modified : ℕ → Client → List (ℕ × Key)) where
  pub call-Stepped :
      (proc : Proc) (c i d : ℕ) (args : List Key) (s : Server)
      → IsLinked s
      → Stepped c (s.client c) (spares c (receive i d proc args)) (call modified i proc s)
  unfolding call spares exec_command
  call-Stepped exec c i d args s h = aside-Stepped c true i exec_command s (reply-IsAside ok) h
  call-Stepped multi c i d args s h = aside-Stepped c true i multi_command s multi_command-IsAside h
  call-Stepped watch c i d args s h = watch_command-Stepped c i true s h
  call-Stepped discard c i d args s h = discard_command-Stepped c i s h
  call-Stepped (other n) c i d args s h =
      (let (g, k) = touch_all-Stepped (modified n (s.client i)) s c h in
        (touch_all (modified n (s.client i)) s, refl, g, (λ z. k)))
