-- ===== src/Multi/Discard.antt =====
-- DISCARD (src/vr_multi.c).
use myownproject.Base.{
  ℕ, ◌≡◌, refl, ap, inl, inr, true, false, some, [], ◌∷◌, ◌++◌, ◌==◌, if◌then◌else◌, Bool-cases,
}
use myownproject.Multi.State.{ok, Client, Server, update_client, reply}
use myownproject.Multi.Linked.{IsLinked}
use myownproject.Multi.Linked.Steps.{Releases}
use myownproject.Multi.Unwatch.{unwatch_all_keys-Unwatched}
use myownproject.Multi.Marks.{update_client-IsLinked}
use myownproject.Multi.Transaction.{reset_multi, discard_transaction, answer, discard_command}

-- The client after a DISCARD: no queued commands, none of the three flags of a transaction, no
-- watched keys, and `+OK` behind its replies.
abbrev pub discarded : Client → Client
discarded c = record c {
  commands = [];
  in_multi = false;
  dirty_cas = false;
  dirty_exec = false;
  watched_keys = [];
  replies = c.replies ++ (ok ∷ []);
}

-- A DISCARD inside a transaction succeeds where the lists of the clients and of the databases say the
-- same, and they still do: the client has no queued commands, is not in a transaction, its two
-- dirty flags are cleared, it watches no keys and has the reply +OK behind its others; nothing else
-- of it and no other client has changed.
pub discard_command-discarded :
    (c : ℕ) (s : Server)
    → IsLinked s
    → (s.client c).in_multi ≡ true
    → (t : Server) × (discard_command c s ≡ some t)
      × IsLinked t
      × ((i : ℕ) → t.client i ≡ (if i == c then discarded (s.client i) else s.client i))
unfolding discard_command discard_transaction
discard_command-discarded c s h e =
    (let u = update_client c reset_multi s in
      let (t, f, (g, r)) =
        unwatch_all_keys-Unwatched c u (update_client-IsLinked c reset_multi s (λ x. refl) h) in
      (
        update_client c (reply ok) t,
        rw (discard_command, e) (ap (answer c ok) f),
        update_client-IsLinked c (reply ok) t (λ x. refl) g,
        seen t r,
      ))
  where
    seen :
        (t : Server)
        → Releases c [] (update_client c reset_multi s) t
        → (i : ℕ)
        → (update_client c (reply ok) t).client i
          ≡ (if i == c then discarded (s.client i) else s.client i)
    seen t r i = elim (Bool-cases (i == c)) [
      | inl z ↦ rw (z, r i, z) refl
      | inr z ↦ rw (z, r i, z) refl
    ]
