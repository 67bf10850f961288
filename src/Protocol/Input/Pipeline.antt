-- ===== src/Protocol/Input/Pipeline.antt =====
-- `processInputBuffer` (src/vr_client.c) on a buffer of whole requests.
use myownproject.Base.{
  ◌≡◌, ◌⊎◌, Bool, not, ◌&&◌, ◌||◌, true, false, Option, none, List, [], ◌∷◌, ◌++◌, if◌then◌else◌,
}
use myownproject.Protocol.State.{Bytes, Client, undetermined, reset_client}
use myownproject.Protocol.Input.Requests.{encode_all}
use myownproject.Protocol.Input.{Executed, determine}

-- Something keeps the loop from parsing: a pause, a block, a client that is to be closed or jumps.
abbrev pub is_stopped : Client → Bool
is_stopped c = (not c.slave && c.paused) || (c.blocked || (c.close_after_reply || c.jump))

-- A client between two requests.
pub record IsReady (c : Client) : Type 0 where
  pub no_type : c.reqtype ≡ undetermined
  pub no_args : c.argv ≡ []
  pub no_count : c.multibulklen ≡ 0
  pub no_bulk : c.bulklen ≡ none

-- A dispatcher that leaves the buffer alone unless it frees the client, and that frees the client or
-- marks it for closing when it does not return VR_OK.
pub record Dispatches (process_command : Client → Executed) : Type 0 where
  pub keeps_buffer :
      (c : Client)
      → (process_command c).freed ≡ false
      → (process_command c).client.querybuf ≡ c.querybuf
  pub ends_client :
      (c : Client)
      → (process_command c).executed ≡ false
      → ((process_command c).freed || (process_command c).client.close_after_reply) ≡ true

module _ (split : Bytes → Option (List Bytes)) (process_command : Client → Executed) where
  -- The dispatcher freed the client at the last of the commands.
  abbrev pub Freed : List (List Bytes) → Type 0
  Freed trace =
      (c : Client) × (before : List (List Bytes)) × ((process_command c).freed ≡ true)
      × (trace ≡ before ++ (c.argv ∷ []))

  -- The buffer holds the requests `rest`, and there are none or something stops the client.
  abbrev pub Waits : List (List Bytes) → Client → Type 0
  Waits rest c = (c.querybuf ≡ encode_all rest) × ((rest ≡ []) ⊎ (is_stopped c ≡ true))

  -- The commands that were handed over are the first of the requests `rs`.
  abbrev pub Handled : List (List Bytes) → List (List Bytes) × Client → Type 0
  Handled rs t = (rest : List (List Bytes)) × (rs ≡ t.0 ++ rest) × (Freed t.0 ⊎ Waits rest t.1)

  -- The client that the dispatcher gets.
  abbrev parsed : Client → List Bytes → Bytes → Client
  parsed c r rest = record (determine c) { argv = r; querybuf = rest }

  -- The client behind a command.
  abbrev resumed : Executed → Client
  unfolding reset_client
  resumed x = if x.executed then reset_client x.client else x.client
