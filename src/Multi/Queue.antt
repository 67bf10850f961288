-- ===== src/Multi/Queue.antt =====
-- The commands between MULTI and EXEC (src/vr_multi.c, and the end of `processCommand` in
-- src/vr_command.c).
use myownproject.Base.{
  ℕ, ◌≡◌, refl, sym, ap, ◌∙◌, true, false, some, List, [], ◌∷◌, ◌++◌, map, ◌==◌, ◌&&◌,
}
use mathlib.Core.List.{append_assoc, append-nil}
use myownproject.Multi.State.{Key, other, queued, MultiCmd, Client, Server, update_client, reply}
use myownproject.Multi.Transaction.{
  queue_command, is_other, Event, receive, process_command, perform, run,
}
use myownproject.Multi.Reach.{received, update_client_self, run_step}

-- A command as a client sends it, and as it stands in the queue.
abbrev pub request : ℕ → ℕ → ℕ × List Key → Event
request c d cmd = receive c d (other cmd.0) cmd.1

abbrev pub enqueued : ℕ × List Key → MultiCmd
enqueued cmd = record { cmd = other cmd.0; argv = cmd.1 }

abbrev queue_one : ℕ → ℕ → ℕ × List Key → Client → Client
queue_one c d cmd x = reply queued (queue_command (received d (other cmd.0) cmd.1 x))

update_other :
    (c i : ℕ) (f : Client → Client) (s : Server)
    → (i == c) ≡ false
    → (update_client c f s).client i ≡ s.client i
update_other c i f s e = rw e refl

module _ (modified : ℕ → Client → List (ℕ × Key)) where
  queue_performed :
      (c d : ℕ) (cmd : ℕ × List Key) (s : Server)
      → (s.client c).in_multi ≡ true
      → perform modified (request c d cmd) s
        ≡ some (
            update_client c
              (reply queued)
              (update_client c queue_command (update_client c (received d (other cmd.0) cmd.1) s)))
  unfolding perform process_command
  queue_performed c d cmd s m =
      (let t = update_client c (received d (other cmd.0) cmd.1) s in
        let f = update_client_self c (received d (other cmd.0) cmd.1) s in
        let both : ((t.client c).in_multi && is_other (t.client c).cmd) ≡ true =
          ap (λ x. x.in_multi && is_other x.cmd) f ∙ ap (λ b. b && true) m in
        rw (process_command, both) refl)

  queue_step :
      (c d other_c : ℕ) (cmd : ℕ × List Key) (s : Server)
      → (s.client c).in_multi ≡ true
      → (other_c == c) ≡ false
      → (t : Server) × (perform modified (request c d cmd) s ≡ some t)
        × (t.client c ≡ queue_one c d cmd (s.client c))
        × (t.client other_c ≡ s.client other_c)
  queue_step c d i cmd s m e =
      (let t = update_client c (received d (other cmd.0) cmd.1) s in
        let u = update_client c queue_command t in
        (
          update_client c (reply queued) u,
          queue_performed c d cmd s m,
          update_client_self c (reply queued) u
              ∙ ap (reply queued) (
                  update_client_self c queue_command t
                  ∙ ap queue_command (update_client_self c (received d (other cmd.0) cmd.1) s)),
          update_other c i (reply queued) u e
              ∙ update_other c i queue_command t e
              ∙ update_other c i (received d (other cmd.0) cmd.1) s e,
        ))

  -- Inside a transaction, the commands that are none of EXEC, DISCARD, MULTI and WATCH are put into
  -- the queue in the order in which they come, each with its arguments and each answered by one reply
  -- that says so; the client stays in the transaction, and no other client changes.
  pub run-enqueued :
      (cmds : List (ℕ × List Key)) (c d i : ℕ) (s : Server)
      → (s.client c).in_multi ≡ true
      → (i == c) ≡ false
      → (t : Server) × (run modified (map (request c d) cmds) s ≡ some t)
        × ((t.client c).commands ≡ (s.client c).commands ++ map enqueued cmds)
        × ((t.client c).replies ≡ (s.client c).replies ++ map (λ cmd. queued) cmds)
        × ((t.client c).in_multi ≡ true)
        × (t.client i ≡ s.client i)
  unfolding run
  run-enqueued [] c d i s m e = (
    s,
    refl,
    sym (append-nil (s.client c).commands),
    sym (append-nil (s.client c).replies),
    m,
    refl,
  )
  run-enqueued (cmd ∷ cmds) c d i s m e =
      (let (t, p, q, r) = queue_step c d i cmd s m e in
        let (u, f, g, h, k, l) = run-enqueued cmds c d i t (ap (λ x. x.in_multi) q ∙ m) e in
        (
          u,
          run_step modified (request c d cmd) (map (request c d) cmds) s t p ∙ f,
          g
              ∙ ap (λ x. x.commands ++ map enqueued cmds) q
              ∙ append_assoc (s.client c).commands (enqueued cmd ∷ []) (map enqueued cmds),
          h
              ∙ ap (λ x. x.replies ++ map (λ y. queued) cmds) q
              ∙ append_assoc (s.client c).replies (queued ∷ []) (map (λ y. queued) cmds),
          k,
          l ∙ r,
        ))
