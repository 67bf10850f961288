-- ===== src/Protocol/Input.antt =====
-- src/vr_client.c: `processInputBuffer`, the loop over the requests of the buffer.
pub mod Requests
pub mod Pipeline
pub mod Dispatch
pub mod Rounds
use myownproject.Base.{
  is_empty, ℕ, zero, suc, Bool, not, ◌&&◌, ◌||◌, Option, List, [], ◌∷◌, ◌==◌, if◌then◌else◌, length,
  get_or,
}
use myownproject.Protocol.State.{
  Bytes, RequestType, undetermined, inline, multibulk, Client, Verdict, ok, error, panic,
  reset_client,
}
use myownproject.Protocol.Inline.{process_inline}
use myownproject.Protocol.Multibulk.{process_multibulk}

abbrev pub choose : RequestType → ℕ → RequestType
choose undetermined b = if b == b'*' then multibulk else inline
choose inline b = inline
choose multibulk b = multibulk

-- `Determine request type when unknown.`
unfoldable pub determine : Client → Client
determine c = record c { reqtype = choose c.reqtype (get_or c.querybuf 0 0) }

-- What the dispatcher does with a command: the client behind it, whether it returned VR_OK, and
-- whether it freed the client.
pub record Executed : Type 0 where
  pub client : Client
  pub executed : Bool
  pub freed : Bool

module _ (split : Bytes → Option (List Bytes)) (process_command : Client → Executed) where
  -- The parser of a request's type; an unknown type is a panic.
  abbrev pub parse_by : RequestType → Client → Verdict × Client
  unfolding process_inline process_multibulk
  parse_by undetermined c = (panic, c)
  parse_by inline c = process_inline split c
  parse_by multibulk c = process_multibulk c

  abbrev pub parse : Client → Verdict × Client
  unfolding process_inline process_multibulk
  parse c = parse_by c.reqtype c

  -- The tests at the start of a round of `processInputBuffer`.
  abbrev pub may_parse : Client → Bool
  may_parse c =
      not (is_empty c.querybuf)
      && (not (not c.slave && c.paused) && (not c.blocked && not c.close_after_reply))

  -- A command is executed; `next` are the rounds that follow.
  abbrev pub after_command :
      Executed → (Client → List (List Bytes) × Client) → List (List Bytes) × Client
  unfolding reset_client
  after_command r next =
      let c = if r.executed then reset_client r.client else r.client in
      if r.freed || c.jump then ([], c) else next c

  abbrev pub note : List Bytes → List (List Bytes) × Client → List (List Bytes) × Client
  note argv (trace, c) = (argv ∷ trace, c)

  unfoldable pub after_parse :
      Verdict × Client → (Client → List (List Bytes) × Client) → List (List Bytes) × Client
  unfolding reset_client
  after_parse (error, c) next = ([], c)
  after_parse (panic, c) next = ([], c)
  after_parse (ok, c) next =
      if is_empty c.argv
      then next (reset_client c)
      else note c.argv (after_command (process_command c) next)

  -- The `while` of `processInputBuffer`: the commands handed to the dispatcher, in order, and the
  -- client. The fuel bounds the rounds.
  unfoldable pub input_loop : ℕ → Client → List (List Bytes) × Client
  unfolding determine parse after_parse
  input_loop zero c = ([], c)
  input_loop (suc fuel) c =
      let round = after_parse (parse (determine c)) (input_loop fuel) in
      if may_parse c then round else ([], c)

  -- `processInputBuffer`: each round takes a byte from the buffer.
  unfoldable pub process_input : Client → List (List Bytes) × Client
  unfolding input_loop
  process_input c = input_loop (length c.querybuf) c
