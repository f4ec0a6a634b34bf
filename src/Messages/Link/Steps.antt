-- ===== src/Messages/Link/Steps.antt =====
-- Each step of the mailboxes keeps what holds of them.
use tri_cache.Base.{
  ℕ, ◌+◌, ◌<◌, ◌≤◌, true, false, List, get_or, ◌≡◌, length, arith, refl, get_or-set, ◌≢◌, dec_lt,
  none,
}
use tri_cache.Messages.{Request, no_request, max_comms, copy_part, copy_header}
use tri_cache.Messages.Client.{running, sending, collecting, begin_send, end_send}
use tri_cache.Messages.Server.{watching, serving, answering, begin_serve, serve, begin_answer}
use mathlib.Core.Path.{subst}
use tri_cache.Messages.Link.{
  System, Call, Reply, Fiber, collect_one, process_one, fiber_turn, turn, call,
}
use tri_cache.Messages.Link.Batch.{batch-next, results-set, results-next, results-served}
use tri_cache.Messages.Link.Places.{
  at_sending, at_server, at_answering, at_collecting, at_answered, at_sent,
}
use tri_cache.Messages.Link.Invariant.{
  View, idle, going, sent, served, returning, answered, read, Shows, Done,
}

module _ {W : Type 0} (first_process : Request → W → ℕ × W) (fiber : Fiber W) (start : W)
    (done : List Call) (past : List Reply) where
  abbrev pub At : View → System W → Type 0
  At = Shows first_process fiber start done past

  pub is_idle :
      (v : View) (s : System W)
      → At v s
      → s.client.pc ≡ running
      → s.client.processing ≡ false
      → At idle s
  is_idle idle s h e f = h
  is_idle _ s h e f = absurd (cc)

  pub sent_part :
      (v : View) (s : System W) (i : ℕ)
      → length s.requests.body ≡ max_comms
      → At v s
      → s.client.pc ≡ sending i
      → i < max_comms
      → At (going (i + 1)) (record s {
        client = record s.client { pc = sending (i + 1) };
        requests = copy_part no_request i s.client.message s.requests;
      })
  sent_part v s i sized h e lt =
      let h = at_sending first_process fiber start done past v s i h e in
      let part = get_or s.client.message.body i no_request in
      (
        refl,
        h.1,
        h.2,
        h.3,
        h.4,
        h.5,
        h.6,
        h.7,
        omega (arith, lt),
        λ j below.
            ground (arith, get_or-set s.requests.body i j part no_request (rw sized lt), h.9 j),
      )

  pub sent_header :
      (v : View) (s : System W) (i : ℕ)
      → At v s
      → s.client.pc ≡ sending i
      → max_comms ≤ i
      → At sent (record s {
        client = end_send s.client;
        requests = copy_header s.client.message s.requests;
      })
  unfolding end_send
  sent_header v s i h e le =
      let h = at_sending first_process fiber start done past v s i h e in
      (
        refl,
        h.1,
        h.2,
        (h.6, h.3.1, h.3.2),
        h.4,
        h.5,
        (h.7, λ j below. h.9 j (omega (arith, below, le))),
      )

  pub begun :
      (v : View) (s : System W)
      → At v s
      → s.client.pc ≡ running
      → s.client.processing ≡ false
      → At (going 0) (record s { client = begin_send s.client })
  unfolding begin_send
  begun idle s h e f = (
    refl,
    refl,
    h.2,
    ground (arith, h.3),
    h.4,
    h.5,
    refl,
    refl,
    omega arith,
    λ j below. absurd (omega (arith, below)),
  )
  begun _ s h e f = absurd (cc)

  pub looked :
      (v : View) (s : System W)
      → At v s
      → s.client.pc ≡ running
      → s.client.processing ≡ true
      → s.responses.toggle ≡ s.client.toggle
      → At (read 0) (record s { client = record s.client { pc = collecting 0 } })
  looked v s h e f same =
      let h = at_answered first_process fiber start done past v s h e f same in
      (refl, h.1, h.2, h.3, h.4, h.5, h.6, omega arith)

  pub noticed :
      (v : View) (s : System W)
      → At v s
      → s.server.pc ≡ watching
      → s.requests.toggle ≢ s.server.toggle
      → At (served 0) (record s { server = begin_serve s.requests s.server })
  unfolding begin_serve
  noticed v s h e f =
      let h = at_sent first_process fiber start done past v s h e f in
      (
        h.0,
        h.1,
        refl,
        h.3,
        h.4,
        h.5,
        h.6,
        (
          h.6.0,
          λ j below. let first : j ≡ 0 = omega (arith, below) in rw first (s.server.context, h.4),
        ),
        omega arith,
      )

  pub processed_one :
      (v : View) (s : System W) (i : ℕ)
      → length s.server.resp_message.body ≡ max_comms
      → s.client.num_requests ≤ max_comms
      → At v s
      → s.server.pc ≡ serving i
      → i < s.requests.num_comm
      → At (served (i + 1)) (process_one first_process fiber i s)
  unfolding serve
  processed_one v s i sized few h e lt =
      let h = at_server first_process fiber start done past v s i h e in
      let small : i < max_comms = omega (arith, lt, few, h.6.0) in
      let req = get_or s.requests.body i no_request in
      let (pointer, context) = first_process req s.server.context in
      let places = s.client.responses in
      let body = s.server.resp_message.body in
      let one_more : Done first_process fiber start done past (process_one first_process fiber i s)
          (i + 1) context =
        rw
          (
            batch-next done s.client.message.body places i,
            results-served past places body i pointer (rw sized small),
            ← h.6.1 i small,
          )
          (call h.4 req (get_or places i none)) in
      (
        h.0,
        h.1,
        refl,
        h.3,
        one_more,
        h.5,
        h.6,
        (
          h.7.0,
          λ j below. elim (dec_lt i j) [
            | yes last ↦
                let same : j ≡ i + 1 = omega (arith, last, below) in rw same (context, one_more)
            | no before ↦
                rw (results-set places body i j pointer (rw sized small) (omega (arith, before)))
                  (h.7.1 j (omega (arith, before)))
          ],
        ),
        omega (arith, lt, h.6.0),
      )

  pub processed_all :
      (v : View) (s : System W) (i : ℕ)
      → At v s
      → s.server.pc ≡ serving i
      → s.requests.num_comm ≤ i
      → At (returning 0) (record s { server = begin_answer s.server })
  unfolding begin_answer
  processed_all v s i h e le =
      let h = at_server first_process fiber start done past v s i h e in
      let all : i ≡ s.client.num_requests = ground (arith, h.6.0) in
      (
        h.0,
        h.1,
        refl,
        ground (arith, h.3),
        rw (← all) h.4,
        h.5,
        (h.7.0, λ j below. h.7.1 j (omega (arith, below, all))),
        ground (arith, h.3),
        omega arith,
        λ j below. absurd (omega (arith, below)),
      )

  pub answered_part :
      (v : View) (s : System W) (i : ℕ)
      → length s.responses.body ≡ max_comms
      → At v s
      → s.server.pc ≡ answering i
      → i < max_comms
      → At (returning (i + 1)) (record s {
        server = record s.server { pc = answering (i + 1) };
        responses = copy_part 0 i s.server.resp_message s.responses;
      })
  answered_part v s i sized h e lt =
      let h = at_answering first_process fiber start done past v s i h e in
      let part = get_or s.server.resp_message.body i 0 in
      (
        h.0,
        h.1,
        refl,
        h.3,
        h.4,
        h.5,
        h.6,
        h.7,
        omega (arith, lt),
        λ j below. ground (arith, get_or-set s.responses.body i j part 0 (rw sized lt), h.9 j),
      )

  pub answered_header :
      (v : View) (s : System W) (i : ℕ)
      → s.client.num_requests ≤ max_comms
      → At v s
      → s.server.pc ≡ answering i
      → max_comms ≤ i
      → At answered (record s {
        server = record s.server { pc = watching };
        responses = copy_header s.server.resp_message s.responses;
      })
  answered_header v s i few h e le =
      let h = at_answering first_process fiber start done past v s i h e in
      (
        h.0,
        h.1,
        refl,
        (h.3.0, h.3.1, h.7),
        h.4,
        h.5,
        (h.6.0, λ j below. h.9 j (omega (arith, below, few, le)), h.6.1),
      )

  pub collected_one :
      (v : View) (s : System W) (i : ℕ)
      → At v s
      → s.client.pc ≡ collecting i
      → i < s.responses.num_comm
      → At (read (i + 1)) (collect_one i s)
  collected_one v s i h e lt =
      let h = at_collecting first_process fiber start done past v s i h e in
      let next = results-next past s.client.responses s.server.resp_message.body i in
      (
        refl,
        h.1,
        h.2,
        h.3,
        h.4,
        rw next (ground (arith, h.6.0, h.6.1 i)),
        h.6,
        omega (arith, lt, h.6.0),
      )

  pub collected_all :
      (v : View) (s : System W) (i : ℕ)
      → At v s
      → s.client.pc ≡ collecting i
      → s.responses.num_comm ≤ i
      → At (read s.client.num_requests) s
  collected_all v s i h e le =
      let h = at_collecting first_process fiber start done past v s i h e in
      let all : i ≡ s.client.num_requests = ground (arith, h.6.0) in
      subst (λ (m : ℕ). At (read m) s) all h

  -- A turn of the fiber changes the context, and nothing else that the view speaks of.
  pub stored : (v : View) (s : System W) → At v s → At v (fiber_turn first_process fiber s)
  stored idle s h = (h.0, h.1, h.2, h.3, turn h.4, h.5, h.6)
  stored (served i) s h = (h.0, h.1, h.2, h.3, turn h.4, h.5, h.6, h.7, h.8)
  stored sent s h = (h.0, h.1, h.2, h.3, turn h.4, h.5, h.6)
  stored answered s h = (h.0, h.1, h.2, h.3, turn h.4, h.5, h.6)
  stored (going i) s h = (h.0, h.1, h.2, h.3, turn h.4, h.5, h.6, h.7, h.8, h.9)
  stored (returning i) s h = (h.0, h.1, h.2, h.3, turn h.4, h.5, h.6, h.7, h.8, h.9)
  stored (read i) s h = (h.0, h.1, h.2, h.3, turn h.4, h.5, h.6, h.7)
