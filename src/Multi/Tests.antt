-- ===== src/Multi/Tests.antt =====
-- Runs of src/vr_multi.c at concrete states.
use myownproject.Base.{
  ℕ, ◌≡◌, refl, Bool, true, false, Option, none, some, List, [], ◌∷◌, ◌++◌, map, ◌==◌, ◌&&◌, ltb,
  if◌then◌else◌, arith,
}
use myownproject.Multi.State.{
  Key, discard, multi, watch, other, queued, key_eq, fetch, remove, assign, Client, Server, exists,
  update_client,
}
use myownproject.Multi.Watch.{
  delete, keep_watchers, unwatch_key, unwatch_loop, unwatch_all_keys, mark_all, flush_keys,
  flush_clients, is_watched, watch_for_key, touch_watched_key, touch_watched_keys_on_flush,
}
use myownproject.Multi.Keys.{count, watch_count}
use myownproject.Multi.Linked.{watched, IsLinked}
use myownproject.Multi.Linked.Steps.{watch_for_key-IsLinked}
use myownproject.Multi.Marks.{marked_if, update_client-IsLinked, touch_watched_key-client}
use myownproject.Multi.Flush.{lost, touch_watched_keys_on_flush-client}
use myownproject.Multi.Discard.{discarded, discard_command-discarded}
use myownproject.Multi.Transaction.{
  flag_transaction, discard_transaction, multi_command, exec_command, watch_loop, watch_command,
  touch_all, call, process_command, perform, discard_command, Event, receive, flush, run,
}
use myownproject.Multi.Reach.{run-IsLinked}
use myownproject.Multi.Promise.{watch-dirty}
use myownproject.Multi.Queue.{request, enqueued, run-enqueued}
use myownproject.Multi.Runs.{spares, all_spare}

abbrev idle : Client
idle = record {
  db = 0;
  cmd = other 0;
  argv = [];
  in_multi = false;
  dirty_cas = false;
  dirty_exec = false;
  commands = [];
  watched_keys = [];
  replies = [];
}

-- Two clients, and one key in each database.
abbrev started : Server
started = record {
  clients = 1 ∷ 2 ∷ [];
  client = λ i. idle;
  db = λ d. record { keys = (7 ∷ []) ∷ []; watched_keys = [] };
}

started-IsLinked : IsLinked started
unfolding count watch_count fetch
started-IsLinked = record {
  agree = λ c d key. refl;
  once = λ c d key. omega arith;
  kept = λ d key l e. ground arith;
}

abbrev one_watches : Server
one_watches = watch_for_key 1 (7 ∷ []) started

one_watches-IsLinked : IsLinked one_watches
one_watches-IsLinked = watch_for_key-IsLinked 1 (7 ∷ []) started started-IsLinked

abbrev enter : Client → Client
enter c = record c { in_multi = true }

abbrev in_transaction : Server
in_transaction = update_client 1 enter one_watches

in_transaction-IsLinked : IsLinked in_transaction
in_transaction-IsLinked =
    update_client-IsLinked 1 enter one_watches (λ x. refl) one_watches-IsLinked

-- Command 5 modifies the key 7 of database 0.
abbrev modified : ℕ → Client → List (ℕ × Key)
modified n c = if n == 5 then (0, 7 ∷ []) ∷ [] else []

abbrev events : List Event
events = receive 1 0 watch ((7 ∷ []) ∷ []) ∷ receive 1 0 multi [] ∷ receive 2 0 (other 5) [] ∷ []

-- The mark of client 1.
abbrev mark_of : Option Server → Option Bool
mark_of none = none
mark_of (some s) = some (s.client 1).dirty_cas

program : Unit {0}
unfolding key_eq fetch remove assign exists is_watched watch_for_key delete keep_watchers
    unwatch_key unwatch_loop unwatch_all_keys mark_all touch_watched_key flush_keys flush_clients
    touch_watched_keys_on_flush flag_transaction discard_transaction discard_command multi_command
    exec_command watch_loop watch_command touch_all call process_command perform run count
    watch_count spares all_spare
program = tt

-- A key that the other client modifies marks the client that watches it, and DISCARD clears the mark.
marks_watcher : mark_of (run modified events started) ≡ some true
unfolding program
marks_watcher = refl

clears_mark : mark_of (run modified (events ++ (receive 1 0 discard [] ∷ [])) started) ≡ some false
unfolding program
clears_mark = refl

flush_marks :
    mark_of (run modified (receive 1 3 watch ((7 ∷ []) ∷ []) ∷ flush (some 3) ∷ []) started)
    ≡ some true
unfolding program
flush_marks = refl

flush_spares :
    mark_of (run modified (receive 1 3 watch ((7 ∷ []) ∷ []) ∷ flush (some 2) ∷ []) started)
    ≡ some false
unfolding program
flush_spares = refl

watch-dirty_example :
    (t : Server) × (run modified
        (receive 1 0 watch ((7 ∷ []) ∷ []) ∷ receive 1 0 multi [] ∷ [])
        started
      ≡ some t)
    × (u : Server) × (run modified (receive 1 0 (other 4) [] ∷ []) (touch_watched_key 0 (7 ∷ []) t)
        ≡ some u)
    × ((u.client 1).dirty_cas ≡ true)
unfolding program
watch-dirty_example =
    watch-dirty modified 1 0 ((7 ∷ []) ∷ []) (7 ∷ []) (receive 1 0 multi [] ∷ [])
      (receive 1 0 (other 4) [] ∷ []) started started-IsLinked refl refl refl refl

run-IsLinked_example : (t : Server) × (run modified events one_watches ≡ some t) × IsLinked t
run-IsLinked_example = run-IsLinked modified events one_watches one_watches-IsLinked

touch_watched_key-client_example :
    (touch_watched_key 0 (7 ∷ []) one_watches).client 1
    ≡ marked_if (is_watched 0 (7 ∷ []) (watched 1 one_watches)) (one_watches.client 1)
touch_watched_key-client_example =
    touch_watched_key-client 0 (7 ∷ []) one_watches 1 one_watches-IsLinked

touch_watched_keys_on_flush-client_example :
    (touch_watched_keys_on_flush (some 0) one_watches).client 1
    ≡ marked_if
        (ltb 0 (count 1 one_watches.clients)
          && ltb 0 (lost (some 0) one_watches.db (watched 1 one_watches)))
        (one_watches.client 1)
touch_watched_keys_on_flush-client_example =
    touch_watched_keys_on_flush-client (some 0) one_watches 1

discard_command-discarded_example :
    (t : Server) × (discard_command 1 in_transaction ≡ some t)
    × IsLinked t
    × ((i : ℕ)
        → t.client i
          ≡ (if i == 1 then discarded (in_transaction.client i) else in_transaction.client i))
discard_command-discarded_example =
    discard_command-discarded 1 in_transaction in_transaction-IsLinked refl

abbrev two_commands : List (ℕ × List Key)
two_commands = (5, []) ∷ (6, (8 ∷ []) ∷ []) ∷ []

run-enqueued_example :
    (t : Server) × (run modified (map (request 1 0) two_commands) in_transaction ≡ some t)
    × ((t.client 1).commands ≡ (in_transaction.client 1).commands ++ map enqueued two_commands)
    × ((t.client 1).replies ≡ (in_transaction.client 1).replies ++ map (λ cmd. queued) two_commands)
    × ((t.client 1).in_multi ≡ true)
    × (t.client 2 ≡ in_transaction.client 2)
run-enqueued_example = run-enqueued modified two_commands 1 0 2 in_transaction refl refl
