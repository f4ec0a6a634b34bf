-- ===== src/Messages/Client.antt =====
-- include/partition_client.hpp: what class `PartitionClient` keeps for one server, and the parts of its
-- methods. Timers and the choice of the client's number are left out.
use tri_cache.Base.{
  ℕ, ◌+◌, ◌==◌, if◌then◌else◌, Bool, true, false, not, ◌&&◌, Option, none, List, set, replicate,
}
use tri_cache.Messages.{Request, Message, no_request, no_message, max_comms}

-- How far a method has come: in between, in the copy of a message, or in the loop of
-- `process_message` over the responses.
pub data ClientPc : Type 0 where
  running : ClientPc
  sending : (part : ℕ) → ClientPc
  collecting : (i : ℕ) → ClientPc

pub record Client : Type 0 where
  pub pc : ClientPc
  pub message : Message Request  -- `local_message_pool[sid]`
  pub num_requests : ℕ
  pub responses : List (Option ℕ)
  pub processing : Bool  -- `local_message_processing[sid]`
  pub toggle : Bool
  pub epoch : ℕ

-- The constructor, with the toggle that the last client of this number has left.
unfoldable pub new_client : Bool → Client
new_client toggle = record {
  pc = running;
  message = no_message no_request;
  num_requests = 0;
  responses = replicate max_comms none;
  processing = false;
  toggle = toggle;
  epoch = 1;
}

-- `submit_message` up to the copy.
unfoldable pub begin_send : Client → Client
begin_send c = record c {
  pc = sending 0;
  toggle = not c.toggle;
  message = record c.message { toggle = not c.toggle; num_comm = c.num_requests };
  processing = true;
}

unfoldable pub end_send : Client → Client
end_send c = record c { pc = running; epoch = c.epoch + 1 }

-- `request`, once no message is under way.
unfoldable pub put : Request → Option ℕ → Client → Client
unfolding begin_send
put req resp c =
    let message = record c.message { body = set c.message.body c.num_requests req } in
    let responses = set c.responses c.num_requests resp in
    let d = record c {
      message = message;
      responses = responses;
      num_requests = c.num_requests + 1;
    } in
    if d.num_requests == max_comms then begin_send d else d

-- A new `message_status_type`.
unfoldable pub end_collect : Client → Client
end_collect c = record c {
  pc = running;
  num_requests = 0;
  responses = replicate max_comms none;
  processing = false;
}

-- A response is stored if there is a place for it and it has a pointer.
unfoldable pub store_response : Option ℕ → ℕ → (ℕ → ℕ) → ℕ → ℕ
store_response none pointer cells = cells
store_response (Option.some place) pointer cells =
    λ a. if place == a && not (pointer == 0) then pointer else cells a
