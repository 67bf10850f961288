-- ===== src/Multi/Watch.antt =====
-- src/vr_multi.c: WATCH, the release of watched keys, and the marks on the clients that watch.
use myownproject.Base.{
  ℕ, Bool, true, false, ◌&&◌, ◌||◌, Option, none, some, List, [], ◌∷◌, ◌++◌, ◌==◌, if◌then◌else◌,
  is_empty,
}
use myownproject.Multi.State.{
  Key, key_eq, Client, Server, fetch, remove, assign, exists, or_created, update_client,
  set_watchers,
}

-- The search of `watchForKey` through the keys that a client watches.
unfoldable pub is_watched : ℕ → Key → List (ℕ × Key) → Bool
is_watched d key [] = false
is_watched d key (wk ∷ wks) = wk.0 == d && key_eq key wk.1 || is_watched d key wks

abbrev pub add_watched : ℕ → Key → Client → Client
add_watched d key c = record c { watched_keys = c.watched_keys ++ ((d, key) ∷ []) }

-- `watchForKey`.
unfoldable pub watch_for_key : ℕ → Key → Server → Server
watch_for_key c key s =
    let d = (s.client c).db in
    let m = (s.db d).watched_keys in
    if is_watched d key (s.client c).watched_keys
    then s
    else update_client c (add_watched d key)
        (set_watchers d (assign key (or_created (fetch key m) ++ (c ∷ [])) m) s)

-- `dlistDelNode(clients,dlistSearchKey(clients,c))`; `none` where the client is not in the list.
unfoldable pub delete : ℕ → List ℕ → Option (List ℕ)
delete c [] = none
delete c (i ∷ is) =
    let rest : Option (List ℕ) = delete c is in
    if i == c then some is else (elim rest [ none ↦ none | some r ↦ some (i ∷ r) ])

-- "Kill the entry at all if this was the only client".
unfoldable pub keep_watchers : ℕ → Key → List ℕ → Server → Server
keep_watchers d key l s =
    let m = (s.db d).watched_keys in
    set_watchers d (if is_empty l then remove key m else assign key l m) s

abbrev pub set_watched : List (ℕ × Key) → Client → Client
set_watched wks c = record c { watched_keys = wks }

-- One round of `unwatchAllKeys`, for the first of the watched keys; `none` is a failed assertion.
unfoldable pub unwatch_key : ℕ → ℕ × Key → List (ℕ × Key) → Server → Option Server
unwatch_key c wk rest s = elim (fetch wk.1 (s.db wk.0).watched_keys) [
  | none ↦ none
  | some clients ↦ elim (delete c clients) [
    | none ↦ none
    | some l ↦ some (update_client c (set_watched rest) (keep_watchers wk.0 wk.1 l s))
  ]
]

unfoldable pub unwatch_loop : ℕ → List (ℕ × Key) → Server → Option Server
unwatch_loop c [] s = some s
unwatch_loop c (wk ∷ wks) s = elim (unwatch_key c wk wks s) [
  | none ↦ none
  | some t ↦ unwatch_loop c wks t
]

-- `unwatchAllKeys`.
unfoldable pub unwatch_all_keys : ℕ → Server → Option Server
unwatch_all_keys c s =
    let wks = (s.client c).watched_keys in if is_empty wks then some s else unwatch_loop c wks s

abbrev pub mark : Client → Client
mark c = record c { dirty_cas = true }

unfoldable pub mark_all : List ℕ → Server → Server
mark_all [] s = s
mark_all (c ∷ cs) s = mark_all cs (update_client c mark s)

-- `touchWatchedKey`.
unfoldable pub touch_watched_key : ℕ → Key → Server → Server
touch_watched_key d key s =
    if is_empty (s.db d).watched_keys
    then s
    else elim (fetch key (s.db d).watched_keys) [ none ↦ s | some clients ↦ mark_all clients s ]

-- `dbid == -1 || wk->db->id == dbid`, with `none` for -1.
abbrev pub is_flushed : Option ℕ → ℕ → Bool
is_flushed none d = true
is_flushed (some dbid) d = d == dbid

unfoldable pub flush_keys : Option ℕ → ℕ → List (ℕ × Key) → Server → Server
flush_keys dbid c [] s = s
flush_keys dbid c (wk ∷ wks) s =
    flush_keys dbid c wks
      (if is_flushed dbid wk.0 && exists wk.1 (s.db wk.0).keys then update_client c mark s else s)

unfoldable pub flush_clients : Option ℕ → List ℕ → Server → Server
flush_clients dbid [] s = s
flush_clients dbid (c ∷ cs) s =
    flush_clients dbid cs (flush_keys dbid c (s.client c).watched_keys s)

-- `touchWatchedKeysOnFlush`.
unfoldable pub touch_watched_keys_on_flush : Option ℕ → Server → Server
touch_watched_keys_on_flush dbid s = flush_clients dbid s.clients s
