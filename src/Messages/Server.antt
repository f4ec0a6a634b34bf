-- ===== src/Messages/Server.antt =====
-- include/partition_server.hpp: what `server_loop` keeps for one client, and the parts of its body. The
-- context that `create_context_func` makes, with the requests that were handed to the fiber, is a type `W`.
use tri_cache.Base.{ℕ, ◌+◌, Bool, false, not, set}
use tri_cache.Messages.{Request, Message, no_message}

-- How far the turn of the loop has come.
pub data ServerPc : Type 0 where
  watching : ServerPc
  serving : (i : ℕ) → ServerPc
  answering : (part : ℕ) → ServerPc

pub record Server (W : Type 0) : Type 0 where
  pub pc : ServerPc
  pub toggle : Bool  -- `toggles[cid]`
  pub resp_message : Message ℕ  -- `resp_messages[cid]`
  pub context : W

module _ {W : Type 0} where
  unfoldable pub new_server : W → Server W
  new_server context = record {
    pc = watching;
    toggle = false;
    resp_message = no_message 0;
    context = context;
  }

  -- A message has come.
  unfoldable pub begin_serve : Message Request → Server W → Server W
  begin_serve message s = record s {
    pc = serving 0;
    resp_message = record s.resp_message { toggle = message.toggle; num_comm = message.num_comm };
  }

  -- The round of the loop over the requests, where `first_process_func` gave `pointer` and `context`.
  unfoldable pub serve : ℕ → ℕ → W → Server W → Server W
  serve i pointer context s = record s {
    pc = serving (i + 1);
    resp_message = record s.resp_message { body = set s.resp_message.body i pointer };
    context = context;
  }

  -- `send_response` up to the copy.
  unfoldable pub begin_answer : Server W → Server W
  begin_answer s = record s {
    pc = answering 0;
    toggle = not s.toggle;
    resp_message = record s.resp_message { toggle = not s.toggle };
  }
