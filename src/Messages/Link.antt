-- ===== src/Messages/Link.antt =====
-- One client and one server at their mailboxes: each part that a copy writes, each request that is read and
-- each response that is read is a step of its own, and the two take steps in any order.
mod Batch
pub mod Invariant
mod Kept
pub mod Safety
mod Places
pub mod Progress
mod Steps
use tri_cache.Base.{
  ℕ, ◌+◌, ◌==◌, ◌<◌, ◌≤◌, if◌then◌else◌, Bool, true, false, not, Option, none, some, List, [], ◌∷◌,
  ◌++◌, get_or, set, ◌≡◌, ◌≢◌,
}
use tri_cache.Messages.{Request, Message, no_request, no_message, max_comms, copy_part, copy_header}
use tri_cache.Messages.Client.{
  ClientPc, running, sending, collecting, Client, new_client, begin_send, end_send, put,
  end_collect, store_response,
}
use tri_cache.Messages.Server.{
  ServerPc, watching, serving, answering, Server, new_server, begin_serve, serve, begin_answer,
}

-- A request, and the place for its response.
abbrev pub Call : Type 0
Call = Request × Option ℕ

-- The place for a response, and the response.
abbrev pub Reply : Type 0
Reply = Option ℕ × ℕ

-- What the fiber of `server_loop` does to the context in one turn: `process_func` for the requests that wait, with
-- the response that it stores, if any, and its place. The requests that wait are part of the context.
abbrev pub Fiber : Type 0 → Type 0
Fiber W = W → Option (ℕ × ℕ) × W

pub record System (W : Type 0) : Type 0 where
  pub client : Client
  pub requests : Message Request
  pub responses : Message ℕ
  pub server : Server W
  pub cells : ℕ → ℕ
  pub asked : List Call  -- what `request` was called with, for the statements
  pub received : List Reply  -- what was read of the responses, for the statements

module _ {W : Type 0} where
  -- The round of the loop of `process_message`.
  abbrev pub collect_one : ℕ → System W → System W
  collect_one i s =
      let place = get_or s.client.responses i none in
      let pointer = get_or s.responses.body i 0 in
      record s {
        client = record s.client { pc = collecting (i + 1) };
        cells = store_response place pointer s.cells;
        received = s.received ++ (place, pointer) ∷ [];
      }

module _ {W : Type 0} (first_process : Request → W → ℕ × W) (fiber : Fiber W) where
  -- The round of the loop of `server_loop` over the requests.
  abbrev pub process_one : ℕ → System W → System W
  process_one i s =
      let (pointer, context) =
        first_process (get_or s.requests.body i no_request) s.server.context in
      record s { server = serve i pointer context s.server }

  abbrev pub fiber_turn : System W → System W
  fiber_turn s =
      let (stored, context) = fiber s.server.context in
      record s {
        server = record s.server { context = context };
        cells = elim stored [
          | none ↦ s.cells
          | some (place, pointer) ↦ store_response (some place) pointer s.cells
        ];
      }

  pub data Step (s : System W) : System W → Type 0 where
    ask :
        (req : Request) (resp : Option ℕ)
        → s.client.pc ≡ running
        → s.client.processing ≡ false
        → Step s (record s { client = put req resp s.client; asked = s.asked ++ (req, resp) ∷ [] })
    submit :
        s.client.pc ≡ running
        → s.client.processing ≡ false
        → s.client.num_requests ≢ 0
        → Step s (record s { client = begin_send s.client })
    send_part :
        (i : ℕ)
        → s.client.pc ≡ sending i
        → i < max_comms
        → Step s (record s {
          client = record s.client { pc = sending (i + 1) };
          requests = copy_part no_request i s.client.message s.requests;
        })
    send_header :
        (i : ℕ)
        → s.client.pc ≡ sending i
        → max_comms ≤ i
        → Step s (record s {
          client = end_send s.client;
          requests = copy_header s.client.message s.requests;
        })
    look :
        s.client.pc ≡ running
        → s.client.processing ≡ true
        → s.responses.toggle ≡ s.client.toggle
        → Step s (record s { client = record s.client { pc = collecting 0 } })
    collect :
        (i : ℕ) → s.client.pc ≡ collecting i → i < s.responses.num_comm → Step s (collect_one i s)
    collected :
        (i : ℕ)
        → s.client.pc ≡ collecting i
        → s.responses.num_comm ≤ i
        → Step s (record s { client = end_collect s.client })
    notice :
        s.server.pc ≡ watching
        → s.requests.toggle ≢ s.server.toggle
        → Step s (record s { server = begin_serve s.requests s.server })
    process : (i : ℕ) → s.server.pc ≡ serving i → i < s.requests.num_comm → Step s (process_one i s)
    processed :
        (i : ℕ)
        → s.server.pc ≡ serving i
        → s.requests.num_comm ≤ i
        → Step s (record s { server = begin_answer s.server })
    answer_part :
        (i : ℕ)
        → s.server.pc ≡ answering i
        → i < max_comms
        → Step s (record s {
          server = record s.server { pc = answering (i + 1) };
          responses = copy_part 0 i s.server.resp_message s.responses;
        })
    answer_header :
        (i : ℕ)
        → s.server.pc ≡ answering i
        → max_comms ≤ i
        → Step s (record s {
          server = record s.server { pc = watching };
          responses = copy_header s.server.resp_message s.responses;
        })
    late : Step s (fiber_turn s)

  abbrev pub init : W → System W
  init context = record {
    client = new_client false;
    requests = no_message no_request;
    responses = no_message 0;
    server = new_server context;
    cells = λ a. 0;
    asked = [];
    received = [];
  }

  pub data Reach (context : W) : System W → Type 0 where
    start : Reach context (init context)
    later : {s t : System W} → Reach context s → Step s t → Reach context t

  -- Calls handled one after the other with no mailbox between, the fiber taking any number of turns before and
  -- after each: the calls, the responses with their places, and the context.
  pub data Handled (context : W) : List Call → List Reply → W → Type 0 where
    none_yet : Handled context [] [] context
    call :
        {cs : List Call} {rs : List Reply} {w : W}
        → Handled context cs rs w
        → (req : Request) (resp : Option ℕ)
        → Handled context
            (cs ++ (req, resp) ∷ [])
            (rs ++ (resp, (first_process req w).0) ∷ [])
            (first_process req w).1
    turn :
        {cs : List Call} {rs : List Reply} {w : W}
        → Handled context cs rs w
        → Handled context cs rs (fiber w).1
