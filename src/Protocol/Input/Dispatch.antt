-- ===== src/Protocol/Input/Dispatch.antt =====
-- src/vr_command.c: the start of `processCommand`, which answers QUIT itself.
use myownproject.Base.{◌≡◌, refl, Bool, true, false, ◌||◌, map, get_or, [], if◌then◌else◌, arith}
use myownproject.Util.{codes}
use myownproject.Util.Memory.{same_text}
use myownproject.Glob.Class.{lower}
use myownproject.Protocol.State.{Client}
use myownproject.Protocol.Input.{Executed}
use myownproject.Protocol.Input.Pipeline.{Dispatches}

-- `!strcasecmp(c->argv[0]->ptr,"quit")`
unfoldable pub is_quit : Client → Bool
unfolding same_text
is_quit c = same_text (map lower (get_or c.argv 0 [])) (codes "quit")

-- What `processCommand` does with a QUIT: the reply, the mark for closing, and VR_ERROR.
abbrev pub quit_client : Client → Executed
quit_client c = record {
  client = record c { close_after_reply = true };
  executed = false;
  freed = false;
}

-- `processCommand`; `others` is the rest of it, for every other command.
unfoldable pub dispatch : (Client → Executed) → Client → Executed
dispatch others c = if is_quit c then quit_client c else others c

-- The rest leaves the buffer alone unless it frees the client, and its only VR_ERROR is that of a
-- client that was freed to get memory.
pub record Serves (others : Client → Executed) : Type 0 where
  pub keeps_buffer :
      (c : Client) → (others c).freed ≡ false → (others c).client.querybuf ≡ c.querybuf
  pub frees_client : (c : Client) → (others c).executed ≡ false → (others c).freed ≡ true

module _ (others : Client → Executed) (serves : Serves others) where
  -- The client and the flags that `dispatch` gives, by its test for QUIT.
  abbrev chosen : Bool → Client → Executed
  chosen b c = if b then quit_client c else others c

  querybuf-chosen :
      (b : Bool) (c : Client)
      → (chosen b c).freed ≡ false
      → (chosen b c).client.querybuf ≡ c.querybuf
  querybuf-chosen true c stays = refl
  querybuf-chosen false c stays = serves.keeps_buffer c stays

  ends-chosen :
      (b : Bool) (c : Client)
      → (chosen b c).executed ≡ false
      → ((chosen b c).freed || (chosen b c).client.close_after_reply) ≡ true
  ends-chosen true c failed = refl
  ends-chosen false c failed = let gone = serves.frees_client c failed in ground arith

  pub dispatch-Dispatches : Dispatches (dispatch others)
  unfolding dispatch
  dispatch-Dispatches = record {
    keeps_buffer = λ c. querybuf-chosen (is_quit c) c;
    ends_client = λ c. ends-chosen (is_quit c) c;
  }
