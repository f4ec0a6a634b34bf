-- ===== src/Tests/MessagesTests.antt =====
-- One request from a client to a server of include/partition_server.hpp that answers with the page's number
-- and 100, and counts the requests.
use tri_cache.Base.{
  ℕ, ◌+◌, ◌<◌, ◌≤◌, ◌≡◌, ◌⊎◌, true, none, some, List, [], ◌∷◌, ◌++◌, get_or, set, replicate, refl,
  arith, length,
}
use tri_cache.Messages.{Request, no_request, max_comms, pin}
use tri_cache.Messages.Client.{
  running, begin_send, end_send, put, end_collect, new_client, store_response,
}
use tri_cache.Messages.Server.{begin_serve, serve, begin_answer, new_server}
use tri_cache.Messages.Link.{
  System, Call, Fiber, Handled, late, Step, ask, submit, send_part, send_header, look, collect,
  collected, notice, process, processed, answer_part, answer_header, Reach, start, later,
}
use tri_cache.Messages.Link.Safety.{quiet_calls, received_in_order, message_whole}
use tri_cache.Messages.Link.Progress.{message_answered, distance}

abbrev count_requests : Request → ℕ → ℕ × ℕ
count_requests req n = (req.page_id + 100, n + 1)

-- A turn of the fiber counts too, and stores nothing.
abbrev count_turns : Fiber ℕ
count_turns n = (none, n + 10)

abbrev Run : Type 0
Run = (s : System ℕ) × Reach count_requests count_turns 0 s

abbrev page_seven : Request
page_seven = record { type = pin; page_id = 7; resp = some 40 }

abbrev requested : Run
unfolding put begin_send new_client new_server end_send set replicate
requested =
    let r1 : Run = (_, later start (ask page_seven (some 40) refl refl)) in
    let r2 : Run = (_, later r1.1 (submit refl refl (omega arith))) in
    let r3 : Run = (_, later r2.1 (send_part 0 refl (omega arith))) in
    let r4 : Run = (_, later r3.1 (send_part 1 refl (omega arith))) in
    let r5 : Run = (_, later r4.1 (send_part 2 refl (omega arith))) in
    (_, later r5.1 (send_header 3 refl (omega arith)))

abbrev served : Run
unfolding requested put begin_send new_client new_server end_send set replicate get_or begin_serve
    serve
served =
    let r1 : Run = (_, later requested.1 (notice refl (λ e. cc))) in
    let r2 : Run = (_, later r1.1 late) in (_, later r2.1 (process 0 refl (omega arith)))

abbrev answered : Run
unfolding served requested put begin_send new_client new_server end_send set replicate get_or
    begin_serve serve begin_answer end_collect store_response
answered =
    let r1 : Run = (_, later served.1 (processed 1 refl (omega arith))) in
    let r2 : Run = (_, later r1.1 (answer_part 0 refl (omega arith))) in
    let r3 : Run = (_, later r2.1 (answer_part 1 refl (omega arith))) in
    let r4 : Run = (_, later r3.1 (answer_part 2 refl (omega arith))) in
    let r5 : Run = (_, later r4.1 (answer_header 3 refl (omega arith))) in
    let r6 : Run = (_, later r5.1 (look refl refl refl)) in
    let r7 : Run = (_, later r6.1 (collect 0 refl (omega arith))) in
    (_, later r7.1 (collected 1 refl (omega arith)))

quiet_calls_example :
    Handled count_requests count_turns 0 ((page_seven, some 40) ∷ []) ((some 40, 107) ∷ []) 11
unfolding answered served requested put begin_send new_client new_server end_send set replicate
    get_or begin_serve serve begin_answer end_collect
quiet_calls_example = quiet_calls count_requests count_turns 0 answered.0 answered.1 refl refl refl

received_in_order_example :
    (answered_calls missing : List Call) × (served.0.asked ≡ answered_calls ++ missing)
    × (length missing ≤ max_comms)
    × (u : ℕ) × Handled count_requests count_turns 0 answered_calls served.0.received u
received_in_order_example = received_in_order count_requests count_turns 0 served.0 served.1

message_whole_example :
    (served.0.client.pc ≡ running)
    × (served.0.client.processing ≡ true)
    × (served.0.requests.num_comm ≡ served.0.client.num_requests)
    × (served.0.client.num_requests ≤ max_comms)
    × ((j : ℕ)
        → j < max_comms
        → get_or served.0.requests.body j no_request
          ≡ get_or served.0.client.message.body j no_request)
unfolding served requested put begin_send new_client new_server end_send set replicate get_or
    begin_serve serve
message_whole_example = message_whole count_requests count_turns 0 served.0 1 served.1 refl

message_answered_example :
    (distance requested.0 ≤ 18)
    × ((t : System ℕ) × Step count_requests count_turns requested.0 t
        × (distance t < distance requested.0))
    × ((t : System ℕ)
        → Step count_requests count_turns requested.0 t
        → (distance t < distance requested.0)
          ⊎ (t ≡ record requested.0 {
            cells = t.cells;
            server = record requested.0.server { context = t.server.context };
          }))
unfolding requested put begin_send new_client new_server end_send set replicate
message_answered_example =
    message_answered count_requests count_turns 0 requested.0 requested.1 refl

-- What the client has got.
answered_run : answered.0.received ≡ (some 40, 107) ∷ []
unfolding answered served requested put begin_send new_client new_server end_send set replicate
    get_or begin_serve serve begin_answer end_collect
answered_run = refl
