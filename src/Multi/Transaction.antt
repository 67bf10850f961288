-- ===== src/Multi/Transaction.antt =====
-- src/vr_multi.c: MULTI, EXEC, DISCARD and WATCH, and where `processCommand` (src/vr_command.c) queues
-- a command instead of calling it.
use myownproject.Base.{
  ℕ, Bool, true, false, ◌&&◌, Option, none, some, List, [], ◌∷◌, ◌++◌, if◌then◌else◌,
}
use myownproject.Multi.State.{
  Key, Proc, exec, discard, multi, watch, other, Reply, ok, queued, nested, discard_without_multi,
  watch_inside_multi, Client, Server, update_client, reply,
}
use myownproject.Multi.Watch.{
  watch_for_key, unwatch_all_keys, touch_watched_key, touch_watched_keys_on_flush,
}

-- `queueMultiCommand`.
abbrev pub queue_command : Client → Client
queue_command c = record c { commands = c.commands ++ (record { cmd = c.cmd; argv = c.argv } ∷ []) }

-- `flagTransaction`.
unfoldable pub flag_transaction : Client → Client
flag_transaction c = if c.in_multi then record c { dirty_exec = true } else c

-- `freeClientMultiState`, `initClientMultiState`, and the flags that `discardTransaction` clears.
abbrev pub reset_multi : Client → Client
reset_multi c = record c { commands = []; in_multi = false; dirty_cas = false; dirty_exec = false }

-- `discardTransaction`.
unfoldable pub discard_transaction : ℕ → Server → Option Server
discard_transaction c s = unwatch_all_keys c (update_client c reset_multi s)

abbrev pub answer : ℕ → Reply → Option Server → Option Server
answer c r none = none
answer c r (some s) = some (update_client c (reply r) s)

unfoldable pub discard_command : ℕ → Server → Option Server
discard_command c s =
    if (s.client c).in_multi
    then answer c ok (discard_transaction c s)
    else some (update_client c (reply discard_without_multi) s)

unfoldable pub multi_command : Client → Client
multi_command c = if c.in_multi then reply nested c else reply ok (record c { in_multi = true })

-- `execCommand` does no more than this.
unfoldable pub exec_command : Client → Client
exec_command c = reply ok c

unfoldable pub watch_loop : ℕ → List Key → Server → Server
watch_loop c [] s = s
watch_loop c (key ∷ keys) s = watch_loop c keys (watch_for_key c key s)

unfoldable pub watch_command : ℕ → Server → Server
watch_command c s =
    if (s.client c).in_multi
    then update_client c (reply watch_inside_multi) s
    else update_client c (reply ok) (watch_loop c (s.client c).argv s)

-- `signalModifiedKey` for each of some keys.
unfoldable pub touch_all : List (ℕ × Key) → Server → Server
touch_all [] s = s
touch_all (wk ∷ wks) s = touch_all wks (touch_watched_key wk.0 wk.1 s)

abbrev pub is_other : Proc → Bool
is_other (other n) = true
is_other exec = false
is_other discard = false
is_other multi = false
is_other watch = false

-- What happens to a client from outside: a command that `processCommand` lets through, with the
-- database it is for; one that it refuses while it flags the transaction; a flush.
pub data Event : Type 0 where
  receive : ℕ → ℕ → Proc → List Key → Event
  refuse : ℕ → Event
  flush : Option ℕ → Event

-- The procedures of the other commands are not in src/vr_multi.c: `modified` says which keys such a
-- command signals as modified.
module _ (modified : ℕ → Client → List (ℕ × Key)) where
  unfoldable pub call : ℕ → Proc → Server → Option Server
  call c exec s = some (update_client c exec_command s)
  call c discard s = discard_command c s
  call c multi s = some (update_client c multi_command s)
  call c watch s = some (watch_command c s)
  call c (other n) s = some (touch_all (modified n (s.client c)) s)

  -- The end of `processCommand`.
  unfoldable pub process_command : ℕ → Server → Option Server
  process_command c s =
      if (s.client c).in_multi && is_other (s.client c).cmd
      then some (update_client c (reply queued) (update_client c queue_command s))
      else call c (s.client c).cmd s

  unfoldable pub perform : Event → Server → Option Server
  perform (receive c d proc args) s =
      process_command c (update_client c (λ x. record x { db = d; cmd = proc; argv = args }) s)
  perform (refuse c) s = some (update_client c flag_transaction s)
  perform (flush dbid) s = some (touch_watched_keys_on_flush dbid s)

  unfoldable pub run : List Event → Server → Option Server
  run [] s = some s
  run (e ∷ es) s = elim (perform e s) [ none ↦ none | some t ↦ run es t ]
