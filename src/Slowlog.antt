-- ===== src/Slowlog.antt =====
-- src/vr_slowlog.c: the log of slow commands, newest first. What sdscatprintf (dep/sds) writes for
-- left out arguments and bytes is a parameter. The lock makes each operation one step.
mod Order
mod Tests
use myownproject.Base.{
  ℕ, zero, suc, ◌+◌, ◌-◌, Bool, true, ◌&&◌, not, List, [], ◌∷◌, ltb, leb, ◌==◌, if◌then◌else◌,
  length, take,
}
use myownproject.Base.Int.{ℤ, pos, negsuc, ltb_ℤ, eqb_ℤ}

-- An argument of a command: whether it is a string in the encoding of sds, and its bytes.
pub record Argument : Type 0 where
  is_text : Bool
  bytes : List ℕ

pub record SlowlogEntry : Type 0 where
  argv : List Argument
  id : ℕ
  duration : ℤ
  time : ℕ

-- The static variables of the file.
pub record Slowlog : Type 0 where
  entries : List SlowlogEntry
  next_id : ℕ

abbrev pub max_argc : ℕ
max_argc = 32

abbrev pub max_string : ℕ
max_string = 128

-- `dlistDelNode(slowlog,dlistLast(slowlog))`.
unfoldable pub delete_last : List SlowlogEntry → List SlowlogEntry
delete_last [] = []
delete_last (e ∷ es) = if length es == 0 then [] else e ∷ delete_last es

-- The `while` that trims; each round takes one entry, so as many rounds as entries suffice.
unfoldable pub trim_loop : ℕ → ℕ → List SlowlogEntry → List SlowlogEntry
trim_loop zero max_len es = es
trim_loop (suc fuel) max_len es =
    let rest = trim_loop fuel max_len (delete_last es) in
    if ltb max_len (length es) then rest else es

-- `slowlogReset`.
unfoldable pub reset : Slowlog → Slowlog
reset log = record log { entries = trim_loop (length log.entries) 0 log.entries }

abbrev pub decrement : ℤ → ℤ
decrement (pos zero) = negsuc 0
decrement (pos (suc n)) = pos n
decrement (negsuc n) = negsuc (suc n)

-- The `while` of SLOWLOG GET: the entries that it sends; a count below 0 never gets to 0.
unfoldable pub sent : ℤ → List SlowlogEntry → List SlowlogEntry
sent count [] = []
sent count (e ∷ es) = if eqb_ℤ count (pos 0) then [] else e ∷ sent (decrement count) es

module _ (more_arguments : ℕ → List ℕ) (more_bytes : List ℕ → ℕ → List ℕ) where
  -- A text that is too long is cut.
  abbrev pub trim_argument : Argument → Argument
  trim_argument a =
      if a.is_text && ltb max_string (length a.bytes)
      then record a { bytes = more_bytes (take max_string a.bytes) (length a.bytes - max_string) }
      else a

  -- The `for` over `slargc` arguments, of which `slots` are left; the last slot counts those left
  -- out.
  unfoldable pub copy_arguments : ℕ → ℕ → ℕ → List Argument → List Argument
  copy_arguments argc slargc zero argv = []
  copy_arguments argc slargc (suc slots) [] = []
  copy_arguments argc slargc (suc slots) (a ∷ argv) =
      let rest = copy_arguments argc slargc slots argv in
      if not (slargc == argc) && slots == 0
      then record { is_text = true; bytes = more_arguments (argc - slargc + 1) } ∷ []
      else trim_argument a ∷ rest

  -- `slowlogCreateEntry`; the id is set later.
  unfoldable pub create_entry : List Argument → ℤ → ℕ → ℕ → SlowlogEntry
  create_entry argv duration time id =
      let argc = length argv in
      let slargc = if ltb max_argc argc then max_argc else argc in
      record {
        argv = copy_arguments argc slargc slargc argv;
        id = id;
        duration = duration;
        time = time;
      }

  unfoldable pub record_entry : ℤ → Slowlog → List Argument → ℤ → ℕ → Slowlog
  record_entry slower_than log argv duration time =
      if ltb_ℤ duration slower_than then log else record {
        entries = create_entry argv duration time log.next_id ∷ log.entries;
        next_id = log.next_id + 1;
      }

  -- `slowlogPushEntryIfNeeded`; `max_len` is the configured length as `unsigned long`.
  unfoldable pub push : ℤ → ℕ → Slowlog → List Argument → ℤ → ℕ → Slowlog
  push slower_than max_len log argv duration time =
      let logged = record_entry slower_than log argv duration time in
      if ltb_ℤ slower_than (pos 0)
      then log
      else record logged { entries = trim_loop (length logged.entries) max_len logged.entries }
