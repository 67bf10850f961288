-- ===== src/Multi/Promise.antt =====
-- What WATCH promises (src/vr_multi.c): a key that is modified later marks the client.
use myownproject.Base.{
  ℕ, ◌≡◌, refl, sym, ap, ◌∙◌, inl, inr, true, false, some, List, [], ◌∷◌, ◌++◌, arith, Bool-cases,
}
use myownproject.Multi.State.{Key, key_eq, watch, ok, Client, Server, exists, update_client, reply}
use myownproject.Multi.Watch.{is_watched, add_watched, watch_for_key, touch_watched_key}
use myownproject.Multi.Keys.{key_eq_refl, key_eq→eq}
use myownproject.Multi.Linked.{watched, IsLinked}
use myownproject.Multi.Linked.Steps.{watch_for_key-IsLinked}
use myownproject.Multi.Marks.{
  marked_if, update_client-IsLinked, touch_watched_key-client, touch_watched_key-IsLinked,
}
use myownproject.Multi.Reach.{received, update_client_self, run_step, run-Stepped}
use myownproject.Multi.Runs.{all_spare, watch_loop-Stepped}
use myownproject.Multi.Transaction.{
  watch_loop, watch_command, Event, receive, call, process_command, perform, run,
}

is_watched-snoc :
    (d : ℕ) (key : Key) (wks : List (ℕ × Key)) → is_watched d key (wks ++ ((d, key) ∷ [])) ≡ true
unfolding is_watched
is_watched-snoc d key [] = (let e = key_eq_refl key in ground arith)
is_watched-snoc d key (wk ∷ wks) = (let e = is_watched-snoc d key wks in ground arith)

-- After `watchForKey` the client watches the key in its database, which has not changed.
watch_for_key-is_watched :
    (c : ℕ) (key : Key) (s : Server)
    → is_watched (s.client c).db key (watched c (watch_for_key c key s)) ≡ true
unfolding watch_for_key
watch_for_key-is_watched c key s =
    elim (Bool-cases (is_watched (s.client c).db key (watched c s))) [
      | inl e ↦ rw (watch_for_key, e) e
      | inr e ↦
          rw (watch_for_key, e)
            (ap (λ x. is_watched (s.client c).db key x.watched_keys)
                (update_client_self c (add_watched (s.client c).db key) s)
              ∙ is_watched-snoc (s.client c).db key (watched c s))
    ]

watch_for_key-db :
    (c : ℕ) (key : Key) (s : Server) → ((watch_for_key c key s).client c).db ≡ (s.client c).db
unfolding watch_for_key
watch_for_key-db c key s = elim (Bool-cases (is_watched (s.client c).db key (watched c s))) [
  | inl e ↦ rw (watch_for_key, e) refl
  | inr e ↦
      rw (watch_for_key, e)
        (ap (λ x. x.db) (update_client_self c (add_watched (s.client c).db key) s))
]

watch_loop-is_watched :
    (keys : List Key) (c : ℕ) (key : Key) (s : Server)
    → IsLinked s
    → exists key keys ≡ true
    → is_watched (s.client c).db key (watched c (watch_loop c keys s)) ≡ true
unfolding watch_loop exists
watch_loop-is_watched [] c key s h e = ground arith
watch_loop-is_watched (k ∷ keys) c key s h e =
    (let t = watch_for_key c k s in
      let g = watch_for_key-IsLinked c k s h in
      elim (Bool-cases (key_eq key k)) [
        | inl z ↦
            let (m, n) = watch_loop-Stepped keys c t c g in
            n.keys (s.client c).db key (rw (key_eq→eq key k z) (watch_for_key-is_watched c k s))
        | inr z ↦
            let more : exists key keys ≡ true = ground arith in
            ap (λ d. is_watched d key (watched c (watch_loop c keys t)))
              (sym (watch_for_key-db c k s))
            ∙ watch_loop-is_watched keys c key t g more
      ])

touched-dirty :
    (d : ℕ) (key : Key) (s : Server) (c : ℕ)
    → IsLinked s
    → is_watched d key (watched c s) ≡ true
    → ((touch_watched_key d key s).client c).dirty_cas ≡ true
touched-dirty d key s c h e =
    ap (λ x. x.dirty_cas) (touch_watched_key-client d key s c h)
    ∙ ap (λ b. (marked_if b (s.client c)).dirty_cas) e

module _ (modified : ℕ → Client → List (ℕ × Key)) where
  abbrev watched_by : ℕ → ℕ → List Key → Server → Server
  watched_by c d keys s =
      update_client c (reply ok) (watch_loop c keys (update_client c (received d watch keys) s))

  watch_processed :
      (c : ℕ) (s : Server)
      → (s.client c).in_multi ≡ false
      → (s.client c).cmd ≡ watch
      → process_command modified c s
        ≡ some (update_client c (reply ok) (watch_loop c (s.client c).argv s))
  unfolding process_command call watch_command
  watch_processed c s m w = rw (process_command, m, w, watch_command, m) refl

  watch_performed :
      (c d : ℕ) (keys : List Key) (s : Server)
      → (s.client c).in_multi ≡ false
      → perform modified (receive c d watch keys) s ≡ some (watched_by c d keys s)
  unfolding perform
  watch_performed c d keys s e =
      (let t = update_client c (received d watch keys) s in
        let f = update_client_self c (received d watch keys) s in
        watch_processed c t (ap (λ x. x.in_multi) f ∙ e) (ap (λ x. x.cmd) f)
        ∙ ap (λ l. some (update_client c (reply ok) (watch_loop c l t))) (ap (λ x. x.argv) f))

  watched_by-IsLinked :
      (c d : ℕ) (keys : List Key) (s : Server) → IsLinked s → IsLinked (watched_by c d keys s)
  watched_by-IsLinked c d keys s h =
      (let t = update_client c (received d watch keys) s in
        let (g, k) =
          watch_loop-Stepped keys c t c
            (update_client-IsLinked c (received d watch keys) s (λ x. refl) h) in
        update_client-IsLinked c (reply ok) (watch_loop c keys t) (λ x. refl) g)

  watched_by-is_watched :
      (c d : ℕ) (keys : List Key) (key : Key) (s : Server)
      → IsLinked s
      → exists key keys ≡ true
      → is_watched d key (watched c (watched_by c d keys s)) ≡ true
  watched_by-is_watched c d keys key s h e =
      (let t = update_client c (received d watch keys) s in
        let f = update_client_self c (received d watch keys) s in
        ap (λ x. is_watched d key x.watched_keys)
          (update_client_self c (reply ok) (watch_loop c keys t))
        ∙ ap (λ i. is_watched i key (watched c (watch_loop c keys t))) (sym (ap (λ x. x.db) f))
        ∙ watch_loop-is_watched keys c key t
            (update_client-IsLinked c (received d watch keys) s (λ x. refl) h) e)

  -- A client that sends WATCH for some keys outside a transaction, in a state where the lists of the
  -- clients and of the databases say the same, is marked dirty at the end if one of these keys is
  -- touched later in the same database, whatever commands, refusals and flushes come before and after
  -- that, as long as it sends no DISCARD; and no assertion fails on the way.
  pub watch-dirty :
      (c d : ℕ) (keys : List Key) (key : Key) (es fs : List Event) (s : Server)
      → IsLinked s
      → (s.client c).in_multi ≡ false
      → exists key keys ≡ true
      → all_spare c es ≡ true
      → all_spare c fs ≡ true
      → (t : Server) × (run modified (receive c d watch keys ∷ es) s ≡ some t)
        × (u : Server) × (run modified fs (touch_watched_key d key t) ≡ some u)
        × ((u.client c).dirty_cas ≡ true)
  watch-dirty c d keys key es fs s h m e f g =
      (let w = watched_by c d keys s in
        let (t, p, l, n) = run-Stepped modified es c w (watched_by-IsLinked c d keys s h) in
        let there : is_watched d key (watched c t) ≡ true =
          (n f).keys d key (watched_by-is_watched c d keys key s h e) in
        let (u, q, r, k) =
          run-Stepped modified fs c (touch_watched_key d key t)
            (touch_watched_key-IsLinked d key t l) in
        (
          t,
          run_step modified (receive c d watch keys) es s w (watch_performed c d keys s m) ∙ p,
          u,
          q,
          (k g).dirty (touched-dirty d key t c l there),
        ))
