-- ===== src/Messages.antt =====
-- include/partition_type.hpp: the messages between the clients and the servers of partitions, and the two
-- mailboxes of one client at one server, `requests[sid][cid]` and `responses[sid][cid]`. Pointers are
-- addresses, and `nullptr` is 0; what a request has for `resp` is the place of its answer.
pub mod Client
pub mod Server
pub mod Ids
pub mod Link
use tri_cache.Base.{ℕ, ◌+◌, ◌-◌, ◌*◌, ◌/◌, Bool, false, Option, none, List, get_or, set, replicate}

-- `request_type::Type`
pub data RequestType : Type 0 where
  no_type : RequestType
  pin : RequestType
  unpin : RequestType
  dirty_unpin : RequestType
  notify_direct_pin : RequestType
  notify_direct_unpin : RequestType

-- `page_id` has 52 bits, which hold the number of every page of at least 4096 bytes of a space of 2^64 bytes.
pub record Request : Type 0 where
  pub type : RequestType
  pub page_id : ℕ
  pub resp : Option ℕ

-- `MESSAGE_SIZE`, under `PURE_THREADING`
abbrev pub message_size : ℕ
message_size = 64 * 1

-- `MAX_COMMS`, with 16 bytes for each request
abbrev pub max_comms : ℕ
max_comms = message_size / 16 - 1

-- `message_type`: the header, and the part of the union that is in use.
pub record Message (A : Type 0) : Type 0 where
  pub toggle : Bool
  pub num_comm : ℕ
  pub body : List A

abbrev pub no_request : Request
no_request = record { type = no_type; page_id = 0; resp = none }

module _ {A : Type 0} where
  -- A message of zeros.
  abbrev pub no_message : A → Message A
  no_message zeros = record { toggle = false; num_comm = 0; body = replicate max_comms zeros }

  -- `operator=` copies a message part by part, the header last. Here: part `i`.
  abbrev pub copy_part : A → ℕ → Message A → Message A → Message A
  copy_part zeros i from m = record m { body = set m.body i (get_or from.body i zeros) }

  abbrev pub copy_header : Message A → Message A → Message A
  copy_header from m = record m { toggle = from.toggle; num_comm = from.num_comm }
