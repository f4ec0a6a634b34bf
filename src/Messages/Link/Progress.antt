-- ===== src/Messages/Link/Progress.antt =====
-- A message of include/partition_client.hpp is answered: client and server never wait for each other at once,
-- and each step of theirs brings the answer nearer.
use tri_cache.Messages.Link.Kept.{Reach-Holds}
use tri_cache.Base.{
  refl, inr, inl, ◌⊎◌, ℕ, ◌+◌, ◌-◌, ◌<◌, ◌≤◌, true, List, ◌≡◌, arith, if◌then◌else◌, bool_eq,
  dec_lt,
}
use tri_cache.Messages.{Request, max_comms}
use tri_cache.Messages.Client.{ClientPc, running, sending, collecting, end_send, end_collect}
use tri_cache.Messages.Server.{
  ServerPc, watching, serving, answering, begin_serve, serve, begin_answer,
}
use tri_cache.Messages.Link.{
  late, submit, ask, Reach, System, Call, Reply, Fiber, Step, send_part, send_header, look, collect,
  collected, notice, process, processed, answer_part, answer_header,
}
use tri_cache.Messages.Link.Invariant.{
  Inv, View, idle, going, sent, served, returning, answered, read, Shows,
}
use tri_cache.Messages.Link.Places.{at_answering, at_server, at_sent, at_answered, at_sending}

module _ {W : Type 0} where
  -- How many steps there are at most until the message is answered.
  abbrev ahead : ClientPc → ServerPc → System W → ℕ
  ahead (sending i) _ s = 15 + (max_comms - i)
  ahead (collecting i) _ s = 1 + (s.responses.num_comm - i)
  ahead running watching s = if bool_eq s.responses.toggle s.client.toggle then 5 else 14
  ahead running (serving i) s = 10 + (s.requests.num_comm - i)
  ahead running (answering i) s = 6 + (max_comms - i)

  abbrev pub distance : System W → ℕ
  distance s = if s.client.processing then ahead s.client.pc s.server.pc s else 0

module _ {W : Type 0} (first_process : Request → W → ℕ × W) (fiber : Fiber W) (w : W) where
  abbrev Nearer : System W → Type 0
  Nearer s = (t : System W) × Step first_process fiber s t × (distance t < distance s)

  can_step :
      (done : List Call) (past : List Reply) (v : View) (s : System W)
      → Shows first_process fiber w done past v s
      → s.client.num_requests ≤ max_comms
      → s.client.processing ≡ true
      → Nearer s
  unfolding end_send end_collect begin_serve serve begin_answer
  can_step done past idle s h few e = absurd (cc)
  can_step done past (going i) s h few e = elim (dec_lt i max_comms) [
    | yes lt ↦ (_, send_part i h.0 lt, ground (arith, h.3, h.6))
    | no all ↦ (_, send_header i h.0 (omega (arith, all)), ground (arith, h.3, h.6))
  ]
  can_step done past sent s h few e =
      (_, notice h.2 (ground (arith, h.3)), ground (arith, h.3, h.6))
  can_step done past (served i) s h few e = elim (dec_lt i s.requests.num_comm) [
    | yes lt ↦ (_, process i h.2 lt, ground (arith, h.3, h.6))
    | no all ↦ (_, processed i h.2 (omega (arith, all)), ground (arith, h.3, h.6))
  ]
  can_step done past (returning i) s h few e = elim (dec_lt i max_comms) [
    | yes lt ↦ (_, answer_part i h.2 lt, ground (arith, h.3, h.6))
    | no all ↦ (_, answer_header i h.2 (omega (arith, all)), ground (arith, h.3, h.6))
  ]
  can_step done past answered s h few e = (_, look h.0 h.1 h.3.2, ground (arith, h.3, h.6))
  can_step done past (read i) s h few e = elim (dec_lt i s.responses.num_comm) [
    | yes lt ↦ (_, collect i h.0 lt, ground (arith, h.3, h.6))
    | no all ↦ (_, collected i h.0 (omega (arith, all)), ground (arith, h.3, h.6))
  ]

  far :
      (done : List Call) (past : List Reply) (v : View) (s : System W)
      → Shows first_process fiber w done past v s
      → s.client.num_requests ≤ max_comms
      → distance s ≤ 18
  far done past idle s h few = ground (arith, h.3)
  far done past (served i) s h few = ground (arith, h.3, h.6)
  far done past (read i) s h few = ground (arith, h.3, h.6)
  far done past _ s h few = ground (arith, h.3)

  nearer :
      (done : List Call) (past : List Reply) (s t : System W)
      → Inv first_process fiber w done past s
      → s.client.processing ≡ true
      → Step first_process fiber s t
      → (distance t < distance s)
        ⊎ (t
            ≡ record s { cells = t.cells; server = record s.server { context = t.server.context } })
  unfolding end_send end_collect begin_serve serve begin_answer
  nearer done past s _ inv on (ask req resp e f) = absurd (cc)
  nearer done past s _ inv on (submit e f some_requests) = absurd (cc)
  nearer done past s _ inv on (send_part i e lt) = inl (ground arith)
  nearer done past s _ inv on (send_header i e le) =
      let h = at_sending first_process fiber w done past inv.view s i inv.shows e in
      inl (ground (arith, h.3))
  nearer done past s _ inv on (look e f same) =
      let h = at_answered first_process fiber w done past inv.view s inv.shows e f same in
      inl (ground (arith, h.3, h.6, inv.few))
  nearer done past s _ inv on (collect i e lt) = inl (ground arith)
  nearer done past s _ inv on (collected i e le) = inl (ground arith)
  nearer done past s _ inv on (notice e f) =
      let h = at_sent first_process fiber w done past inv.view s inv.shows e f in
      inl (ground (arith, h.3, h.6, inv.few))
  nearer done past s _ inv on (process i e lt) =
      let h = at_server first_process fiber w done past inv.view s i inv.shows e in
      inl (ground (arith, h.3))
  nearer done past s _ inv on (processed i e le) =
      let h = at_server first_process fiber w done past inv.view s i inv.shows e in
      inl (ground (arith, h.3))
  nearer done past s _ inv on (answer_part i e lt) =
      let h = at_answering first_process fiber w done past inv.view s i inv.shows e in
      inl (ground (arith, h.3))
  nearer done past s _ inv on (answer_header i e le) =
      let h = at_answering first_process fiber w done past inv.view s i inv.shows e in
      inl (ground (arith, h.3, h.6, inv.few))
  nearer done past s _ inv on late = inr refl

  -- In a state that can be reached, while the client waits for an answer: its number of steps ahead
  -- is at most 18, some step makes it less, and every step makes it less but those of the fiber,
  -- which only change the context of the server and the places of responses; where it is 0 the
  -- client no longer waits.
  pub message_answered :
      (s : System W)
      → Reach first_process fiber w s
      → s.client.processing ≡ true
      → (distance s ≤ 18)
        × ((t : System W) × Step first_process fiber s t × (distance t < distance s))
        × ((t : System W)
            → Step first_process fiber s t
            → (distance t < distance s)
              ⊎ (t ≡ record s {
                cells = t.cells;
                server = record s.server { context = t.server.context };
              }))
  message_answered s r on =
      let (done, past, inv) = Reach-Holds first_process fiber w s r in
      (
        far done past inv.view s inv.shows inv.few,
        can_step done past inv.view s inv.shows inv.few on,
        λ t step. nearer done past s t inv on step,
      )
