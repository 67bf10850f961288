-- ===== src/Multi/State.antt =====
-- src/vr_multi.c: the clients and the databases, as far as transactions and watched keys use them.
use myownproject.Base.{
  ℕ, Bool, true, false, ◌&&◌, ◌||◌, Option, none, some, List, [], ◌∷◌, ◌++◌, ◌==◌, if◌then◌else◌,
}

-- The content of a string object.
abbrev pub Key : Type 0
Key = List ℕ

-- `equalStringObjects`, and the comparison of the keys of `keylistDictType`.
unfoldable pub key_eq : Key → Key → Bool
key_eq [] [] = true
key_eq [] (y ∷ ys) = false
key_eq (x ∷ xs) [] = false
key_eq (x ∷ xs) (y ∷ ys) = x == y && key_eq xs ys

-- The command procedures that `processCommand` tells apart; the others go by a number.
pub data Proc : Type 0 where
  exec : Proc
  discard : Proc
  multi : Proc
  watch : Proc
  other : ℕ → Proc

pub data Reply : Type 0 where
  ok : Reply
  queued : Reply
  nested : Reply
  discard_without_multi : Reply
  watch_inside_multi : Reply

pub record MultiCmd : Type 0 where
  pub cmd : Proc
  pub argv : List Key

-- A database goes by its number. `argv` is without the name of the command, and `commands` is as
-- long as `mstate.count` says.
pub record Client : Type 0 where
  pub db : ℕ
  pub cmd : Proc
  pub argv : List Key
  pub in_multi : Bool
  pub dirty_cas : Bool
  pub dirty_exec : Bool
  pub commands : List MultiCmd
  pub watched_keys : List (ℕ × Key)
  pub replies : List Reply

-- `keys` are those of `dict`; a client goes by its number in the lists of `watched_keys`.
pub record Db : Type 0 where
  pub keys : List Key
  pub watched_keys : List (Key × List ℕ)

pub record Server : Type 0 where
  pub clients : List ℕ
  pub client : ℕ → Client
  pub db : ℕ → Db

-- `dictFetchValue`, `dictDelete`, and `dictAdd` with the change of the value in place.
unfoldable pub fetch : Key → List (Key × List ℕ) → Option (List ℕ)
fetch key [] = none
fetch key (e ∷ es) = if key_eq key e.0 then some e.1 else fetch key es

unfoldable pub remove : Key → List (Key × List ℕ) → List (Key × List ℕ)
remove key [] = []
remove key (e ∷ es) = if key_eq key e.0 then remove key es else e ∷ remove key es

unfoldable pub assign : Key → List ℕ → List (Key × List ℕ) → List (Key × List ℕ)
assign key l es = (key, l) ∷ remove key es

-- `dictFind(...) != NULL` on the keys of a database.
unfoldable pub exists : Key → List Key → Bool
exists key [] = false
exists key (k ∷ ks) = key_eq key k || exists key ks

-- A list that is not there yet is created empty.
abbrev pub or_created : Option (List ℕ) → List ℕ
or_created none = []
or_created (some l) = l

abbrev pub update_client : ℕ → (Client → Client) → Server → Server
update_client c f s = record s { client = λ i. if i == c then f (s.client i) else s.client i }

abbrev pub set_watchers : ℕ → List (Key × List ℕ) → Server → Server
set_watchers d m s = record s {
  db = λ i. if i == d then record (s.db i) { watched_keys = m } else s.db i;
}

abbrev pub reply : Reply → Client → Client
reply r c = record c { replies = c.replies ++ (r ∷ []) }
