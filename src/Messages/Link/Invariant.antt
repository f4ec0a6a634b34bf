-- ===== src/Messages/Link/Invariant.antt =====
-- What holds of a client and a server of include/partition_client.hpp and include/partition_server.hpp in
-- every state of their mailboxes.
use tri_cache.Base.{ℕ, ◌<◌, ◌≤◌, Bool, true, false, not, List, ◌++◌, get_or, ◌≡◌, length}
use tri_cache.Messages.{Request, no_request, max_comms}
use tri_cache.Messages.Client.{running, sending, collecting}
use tri_cache.Messages.Server.{watching, serving, answering}
use tri_cache.Messages.Link.{System, Call, Reply, Fiber, Handled}
use tri_cache.Messages.Link.Batch.{batch, results}

-- Where a message is.
pub data View : Type 0 where
  idle : View
  going : (part : ℕ) → View
  sent : View
  served : (i : ℕ) → View
  returning : (part : ℕ) → View
  answered : View
  read : (i : ℕ) → View

-- Each message has its slots.
abbrev pub Sized : {W : Type 0} → System W → Type 0
Sized s =
    (length s.client.message.body ≡ max_comms)
    × (length s.client.responses ≡ max_comms)
    × (length s.requests.body ≡ max_comms)
    × (length s.server.resp_message.body ≡ max_comms)
    × (length s.responses.body ≡ max_comms)

module _ {W : Type 0} (first_process : Request → W → ℕ × W) (fiber : Fiber W) (start : W)
    (done : List Call) (past : List Reply) where
  -- The responses before the message and the first `k` of the message.
  abbrev pub replies : System W → ℕ → List Reply
  replies s k = past ++ results s.client.responses s.server.resp_message.body k

  -- The calls before the message and the first `k` of the message have been handled.
  abbrev pub Done : System W → ℕ → W → Type 0
  Done s k v =
      Handled first_process fiber start (done ++ batch s.client.message.body s.client.responses k)
        (replies s k) v

  abbrev pub Prefixes : System W → ℕ → Type 0
  Prefixes s k = (j : ℕ) → j ≤ k → (v : W) × Done s j v

  -- The toggles of the mailboxes and of the server.
  abbrev pub Toggles : Bool → Bool → Bool → System W → Type 0
  Toggles asks serves answers s =
      (s.requests.toggle ≡ asks) × (s.server.toggle ≡ serves) × (s.responses.toggle ≡ answers)

  -- The message has arrived.
  abbrev pub Arrived : System W → Type 0
  Arrived s =
      (s.requests.num_comm ≡ s.client.num_requests)
      × ((j : ℕ)
          → j < max_comms
          → get_or s.requests.body j no_request ≡ get_or s.client.message.body j no_request)

  -- The server has the first `k` responses.
  abbrev pub Answers : ℕ → System W → Type 0
  Answers k s = (s.server.resp_message.num_comm ≡ s.client.num_requests) × Prefixes s k

  -- The responses have arrived.
  abbrev pub Returned : System W → Type 0
  Returned s =
      (s.responses.num_comm ≡ s.client.num_requests)
      × ((j : ℕ)
          → j < s.client.num_requests
          → get_or s.responses.body j 0 ≡ get_or s.server.resp_message.body j 0)
      × Prefixes s s.client.num_requests

  abbrev pub Shows : View → System W → Type 0
  Shows idle s =
      (s.client.pc ≡ running)
      × (s.client.processing ≡ false)
      × (s.server.pc ≡ watching)
      × Toggles s.client.toggle s.client.toggle s.client.toggle s
      × Done s 0 s.server.context
      × (s.received ≡ replies s 0)
      × (s.client.num_requests < max_comms)
  Shows (going i) s =
      (s.client.pc ≡ sending i)
      × (s.client.processing ≡ true)
      × (s.server.pc ≡ watching)
      × Toggles (not s.client.toggle) (not s.client.toggle) (not s.client.toggle) s
      × Done s 0 s.server.context
      × (s.received ≡ replies s 0)
      × (s.client.message.toggle ≡ s.client.toggle)
      × (s.client.message.num_comm ≡ s.client.num_requests)
      × (i ≤ max_comms)
      × ((j : ℕ)
          → j < i
          → get_or s.requests.body j no_request ≡ get_or s.client.message.body j no_request)
  Shows sent s =
      (s.client.pc ≡ running)
      × (s.client.processing ≡ true)
      × (s.server.pc ≡ watching)
      × Toggles s.client.toggle (not s.client.toggle) (not s.client.toggle) s
      × Done s 0 s.server.context
      × (s.received ≡ replies s 0)
      × Arrived s
  Shows (served k) s =
      (s.client.pc ≡ running)
      × (s.client.processing ≡ true)
      × (s.server.pc ≡ serving k)
      × Toggles s.client.toggle (not s.client.toggle) (not s.client.toggle) s
      × Done s k s.server.context
      × (s.received ≡ replies s 0)
      × Arrived s
      × Answers k s
      × (k ≤ s.client.num_requests)
  Shows (returning i) s =
      (s.client.pc ≡ running)
      × (s.client.processing ≡ true)
      × (s.server.pc ≡ answering i)
      × Toggles s.client.toggle s.client.toggle (not s.client.toggle) s
      × Done s s.client.num_requests s.server.context
      × (s.received ≡ replies s 0)
      × Answers s.client.num_requests s
      × (s.server.resp_message.toggle ≡ s.client.toggle)
      × (i ≤ max_comms)
      × ((j : ℕ) → j < i → get_or s.responses.body j 0 ≡ get_or s.server.resp_message.body j 0)
  Shows answered s =
      (s.client.pc ≡ running)
      × (s.client.processing ≡ true)
      × (s.server.pc ≡ watching)
      × Toggles s.client.toggle s.client.toggle s.client.toggle s
      × Done s s.client.num_requests s.server.context
      × (s.received ≡ replies s 0)
      × Returned s
  Shows (read k) s =
      (s.client.pc ≡ collecting k)
      × (s.client.processing ≡ true)
      × (s.server.pc ≡ watching)
      × Toggles s.client.toggle s.client.toggle s.client.toggle s
      × Done s s.client.num_requests s.server.context
      × (s.received ≡ replies s k)
      × Returned s
      × (k ≤ s.client.num_requests)

  -- What holds at all times.
  pub record Inv (s : System W) : Type 0 where
    pub view : View
    pub shows : Shows view s
    pub few : s.client.num_requests ≤ max_comms
    pub asks :
        s.asked ≡ done ++ batch s.client.message.body s.client.responses s.client.num_requests
    pub sized : Sized s
