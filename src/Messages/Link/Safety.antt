-- ===== src/Messages/Link/Safety.antt =====
-- What clients and servers of include/partition_client.hpp and include/partition_server.hpp can rely on.
use mathlib.Core.List.{append_assoc, append-nil}
use mathlib.Core.Path.{subst}
use tri_cache.Base.{
  ℕ, suc, zero, ◌+◌, ◌-◌, ◌<◌, ◌≤◌, true, false, none, List, [], ◌∷◌, ◌++◌, get_or, ◌≡◌, length,
  arith, refl, ◌∙◌, sym, ap, length-append, Option,
}
use tri_cache.Messages.{Request, no_request, max_comms}
use tri_cache.Messages.Client.{running}
use tri_cache.Messages.Server.{serving}
use tri_cache.Messages.Link.{System, Call, Reply, Fiber, Reach, Handled}
use tri_cache.Messages.Link.Batch.{batch}
use tri_cache.Messages.Link.Invariant.{
  View, idle, served, returning, answered, read, Shows, replies, Done,
}
use tri_cache.Messages.Link.Steps.{is_idle}
use tri_cache.Messages.Link.Places.{at_server}
use tri_cache.Messages.Link.Kept.{Reach-Holds}

-- The slots after the first `k`.
batch_split :
    (reqs : List Request) (places : List (Option ℕ)) (k d : ℕ)
    → (more : List Call) × (batch reqs places (d + k) ≡ batch reqs places k ++ more)
      × (length more ≡ d)
batch_split reqs places k zero =
    let none_more : 0 + k ≡ k = omega arith in
    ([], rw none_more (sym (append-nil (batch reqs places k))), refl)
batch_split reqs places k (suc d) =
    let (more, same, long) = batch_split reqs places k d in
    let slot : Call = (get_or reqs (d + k) no_request, get_or places (d + k) none) in
    let next : suc d + k ≡ suc (d + k) = omega arith in
    (
      more ++ slot ∷ [],
      rw (next, same) (append_assoc (batch reqs places k) more (slot ∷ [])),
      omega (arith, length-append {0} more (slot ∷ []), long),
    )

module _ {W : Type 0} (first_process : Request → W → ℕ × W) (fiber : Fiber W) (w : W) where
  -- In a state that client and server can reach, in which the client waits for nothing and has no
  -- request to send: its calls and the responses that it has read, each with its place, are those
  -- of a run in which the calls are handled one after the other with no mailbox between, the fiber
  -- of the server taking turns in between, and the server is in the state that this run ends in.
  pub quiet_calls :
      (s : System W)
      → Reach first_process fiber w s
      → s.client.pc ≡ running
      → s.client.processing ≡ false
      → s.client.num_requests ≡ 0
      → Handled first_process fiber w s.asked s.received s.server.context
  quiet_calls s r e f none_left =
      let (done, past, inv) = Reach-Holds first_process fiber w s r in
      let h = is_idle first_process fiber w done past inv.view s inv.shows e f in
      let whole : s.asked ≡ done ++ [] =
        subst (λ (n : ℕ). s.asked ≡ done ++ batch s.client.message.body s.client.responses n)
          none_left inv.asks in
      rw (whole, h.5) h.4

  -- How many responses of the message have been read.
  seen :
      (done : List Call) (past : List Reply) (v : View) (s : System W)
      → Shows first_process fiber w done past v s
      → (k : ℕ) × (k ≤ s.client.num_requests)
        × (s.received ≡ replies first_process fiber w done past s k)
        × (u : W) × Done first_process fiber w done past s k u
  seen done past (read k) s h = let (u, d) = h.6.2 k h.7 in (k, h.7, h.5, u, d)
  seen done past (served k) s h = let (u, d) = h.7.1 0 (omega arith) in (0, omega arith, h.5, u, d)
  seen done past (returning k) s h =
      let (u, d) = h.6.1 0 (omega arith) in (0, omega arith, h.5, u, d)
  seen done past answered s h = let (u, d) = h.6.2 0 (omega arith) in (0, omega arith, h.5, u, d)
  seen done past idle s h = (0, omega arith, h.5, s.server.context, h.4)
  seen done past _ s h = (0, omega arith, h.5, s.server.context, h.4)

  -- In every state that can be reached, the responses that the client has read, each with its
  -- place, are those of its first calls, handled one after the other with turns of the fiber in
  -- between, and at most MAX_COMMS calls are left.
  pub received_in_order :
      (s : System W)
      → Reach first_process fiber w s
      → (answered_calls missing : List Call) × (s.asked ≡ answered_calls ++ missing)
        × (length missing ≤ max_comms)
        × (u : W) × Handled first_process fiber w answered_calls s.received u
  received_in_order s r =
      let (done, past, inv) = Reach-Holds first_process fiber w s r in
      let n = s.client.num_requests in
      let reqs = s.client.message.body in
      let places = s.client.responses in
      let (k, le, so_far, u, handled) = seen done past inv.view s inv.shows in
      let (more, same, long) = batch_split reqs places k (n - k) in
      let sum : n - k + k ≡ n = omega (arith, le) in
      let whole : s.asked ≡ (done ++ batch reqs places k) ++ more =
        inv.asks
        ∙ ap (λ (m : ℕ). done ++ batch reqs places m) (sym sum)
        ∙ ap (λ (b : List Call). done ++ b) same
        ∙ sym (append_assoc done (batch reqs places k) more) in
      (done ++ batch reqs places k, more, whole, omega (arith, long, inv.few), u, rw so_far handled)

  -- In a state that can be reached, while the server works on the requests of a message: the client
  -- waits and sends nothing, the message has as many requests as the client has put in, at most
  -- MAX_COMMS, and each is the one that the client has put in.
  pub message_whole :
      (s : System W) (i : ℕ)
      → Reach first_process fiber w s
      → s.server.pc ≡ serving i
      → (s.client.pc ≡ running)
        × (s.client.processing ≡ true)
        × (s.requests.num_comm ≡ s.client.num_requests)
        × (s.client.num_requests ≤ max_comms)
        × ((j : ℕ)
            → j < max_comms
            → get_or s.requests.body j no_request ≡ get_or s.client.message.body j no_request)
  message_whole s i r e =
      let (done, past, inv) = Reach-Holds first_process fiber w s r in
      let h = at_server first_process fiber w done past inv.view s i inv.shows e in
      (h.0, h.1, h.6.0, inv.few, h.6.1)
