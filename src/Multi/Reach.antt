-- ===== src/Multi/Reach.antt =====
-- Whole runs of commands and flushes (src/vr_multi.c, and the end of `processCommand` in
-- src/vr_command.c): what they never break, and what a client that watches a key can rely on.
use myownproject.Base.{
  ℕ, ◌≡◌, refl, ap, ◌∙◌, inl, inr, true, ◌&&◌, some, List, [], ◌∷◌, ◌==◌, arith, Bool-cases,
}
use myownproject.Multi.State.{Key, Proc, Client, Server, update_client}
use myownproject.Multi.Linked.{IsLinked}
use myownproject.Multi.Marks.{update_client-IsLinked}
use myownproject.Multi.Flush.{touch_watched_keys_on_flush-IsLinked}
use myownproject.Multi.Keeps.{
  Keeps-refl, Keeps-trans, flush-Keeps, update_client-Keeps, flag_transaction-IsAside,
}
use myownproject.Multi.Runs.{
  Stepped, aside-Stepped, Stepped-after, call-Stepped, queue-Stepped, spares, all_spare,
}
use myownproject.Multi.Transaction.{
  flag_transaction, is_other, Event, receive, refuse, flush, process_command, perform, run,
}

abbrev pub received : ℕ → Proc → List Key → Client → Client
received d proc args c = record c { db = d; cmd = proc; argv = args }

pub update_client_self :
    (i : ℕ) (f : Client → Client) (s : Server) → (update_client i f s).client i ≡ f (s.client i)
update_client_self i f s = (let e : (i == i) ≡ true = ground arith in rw e refl)

module _ (modified : ℕ → Client → List (ℕ × Key)) where
  process-Stepped :
      (proc : Proc) (c i d : ℕ) (args : List Key) (s : Server)
      → (s.client i).cmd ≡ proc
      → IsLinked s
      → Stepped c (s.client c) (spares c (receive i d proc args)) (process_command modified i s)
  unfolding process_command
  process-Stepped proc c i d args s e h =
      elim (Bool-cases ((s.client i).in_multi && is_other (s.client i).cmd)) [
        | inl z ↦ rw (process_command, z) (queue-Stepped c i (spares c (receive i d proc args)) s h)
        | inr z ↦ rw (process_command, z, e) (call-Stepped modified proc c i d args s h)
      ]

  pub perform-Stepped :
      (e : Event) (c : ℕ) (s : Server)
      → IsLinked s
      → Stepped c (s.client c) (spares c e) (perform modified e s)
  unfolding perform spares
  perform-Stepped (receive i d proc args) c s h =
      (let f = received d proc args in
        let t = update_client i f s in
        Stepped-after c (s.client c) (t.client c) (spares c (receive i d proc args))
          (process_command modified i t)
          (update_client-Keeps f i s c (record { watches = λ x. refl; dirty = λ x g. g }))
          (process-Stepped proc c i d args t (ap (λ x. x.cmd) (update_client_self i f s))
            (update_client-IsLinked i f s (λ x. refl) h)))
  perform-Stepped (refuse i) c s h =
      aside-Stepped c true i flag_transaction s flag_transaction-IsAside h
  perform-Stepped (flush dbid) c s h =
      (_, refl, touch_watched_keys_on_flush-IsLinked dbid s h, (λ z. flush-Keeps dbid s c))

  pub run_step :
      (e : Event) (es : List Event) (s t : Server)
      → perform modified e s ≡ some t
      → run modified (e ∷ es) s ≡ run modified es t
  unfolding run
  run_step e es s t p = rw (run, p) refl

  pub run-Stepped :
      (es : List Event) (c : ℕ) (s : Server)
      → IsLinked s
      → Stepped c (s.client c) (all_spare c es) (run modified es s)
  unfolding run all_spare
  run-Stepped [] c s h = (s, refl, h, (λ z. Keeps-refl (s.client c)))
  run-Stepped (e ∷ es) c s h =
      (let (t, p, g, k) = perform-Stepped e c s h in
        let (u, q, m, n) = run-Stepped es c t g in
        (
          u,
          run_step e es s t p ∙ q,
          m,
          (λ z.
              Keeps-trans (s.client c) (t.client c) (u.client c) (k (ground arith))
                (n (ground arith))),
        ))

  -- Every run of commands, refusals and flushes from a state in which the lists of the clients and of
  -- the databases say the same ends in such a state, without a failed assertion.
  pub run-IsLinked :
      (es : List Event) (s : Server)
      → IsLinked s
      → (t : Server) × (run modified es s ≡ some t) × IsLinked t
  run-IsLinked es s h = (let (t, e, g, k) = run-Stepped es 0 s h in (t, e, g))
