-- ===== src/Messages/Link/Kept.antt =====
-- What holds of the mailboxes holds in every state that client and server can reach.
use mathlib.Core.List.{append_assoc, append-nil}
use tri_cache.Base.{
  ℕ, ◌+◌, ◌<◌, ◌≤◌, ◌==◌, false, Option, none, List, [], ◌∷◌, ◌++◌, get_or, set, ◌≡◌, arith, refl,
  sym, length-set, length-replicate, ◌∙◌, Bool-cases, inl, inr,
}
use tri_cache.Messages.{Request, no_request, max_comms}
use tri_cache.Messages.Client.{
  running, collecting, begin_send, end_send, put, end_collect, new_client,
}
use tri_cache.Messages.Server.{begin_serve, serve, begin_answer, new_server}
use tri_cache.Messages.Link.{
  System, Call, Reply, Fiber, Step, ask, submit, send_part, send_header, look, collect, collected,
  notice, process, processed, answer_part, answer_header, late, Reach, none_yet, start, later, init,
}
use tri_cache.Messages.Link.Batch.{batch, batch-put}
use tri_cache.Messages.Link.Invariant.{
  idle, going, sent, served, returning, answered, read, Sized, Inv,
}
use tri_cache.Messages.Link.Steps.{
  sent_part, sent_header, begun, looked, noticed, processed_one, processed_all, answered_part,
  answered_header, collected_one, collected_all, is_idle, stored,
}

module _ {W : Type 0} (first_process : Request → W → ℕ × W) (fiber : Fiber W) (w : W) where
  abbrev Holds : List Call → List Reply → System W → Type 0
  Holds = Inv first_process fiber w

  -- A request is put in the next slot.
  slotted :
      (done : List Call) (past : List Reply) (s : System W) (req : Request) (resp : Option ℕ)
      → Holds done past s
      → s.client.num_requests < max_comms
      → s.asked ++ (req, resp) ∷ []
        ≡ done
          ++ batch
              (set s.client.message.body s.client.num_requests req)
              (set s.client.responses s.client.num_requests resp)
              (s.client.num_requests + 1)
  slotted done past s req resp inv lt =
      let n = s.client.num_requests in
      rw
        (
          batch-put s.client.message.body s.client.responses n req resp (rw inv.sized.0 lt)
              (rw inv.sized.1 lt),
          inv.asks,
        )
        (append_assoc done (batch s.client.message.body s.client.responses n) ((req, resp) ∷ []))

  put-Holds :
      (done : List Call) (past : List Reply) (s : System W) (req : Request) (resp : Option ℕ)
      → Holds done past s
      → s.client.pc ≡ running
      → s.client.processing ≡ false
      → Holds done past
          (record s { client = put req resp s.client; asked = s.asked ++ (req, resp) ∷ [] })
  unfolding put begin_send
  put-Holds done past s req resp inv e f =
      let h = is_idle first_process fiber w done past inv.view s inv.shows e f in
      let n = s.client.num_requests in
      let asks = slotted done past s req resp inv h.6 in
      let sized : Sized (record s {
        client = record s.client {
          message = record s.client.message { body = set s.client.message.body n req };
          responses = set s.client.responses n resp;
        };
      }) =
        (
          length-set s.client.message.body n req ∙ inv.sized.0,
          length-set s.client.responses n resp ∙ inv.sized.1,
          inv.sized.2,
          inv.sized.3,
          inv.sized.4,
        ) in
      let few : n + 1 ≤ max_comms = omega (arith, h.6) in
      elim (Bool-cases (n + 1 == max_comms)) [
        | inl full ↦ rw full (record {
          view = going 0;
          shows = (
            refl,
            refl,
            h.2,
            ground (arith, h.3),
            h.4,
            h.5,
            refl,
            refl,
            omega arith,
            λ j below. absurd (omega (arith, below)),
          );
          few = few;
          asks = asks;
          sized = sized;
        })
        | inr more ↦ rw more (record {
          view = idle;
          shows = (h.0, h.1, h.2, h.3, h.4, h.5, ground (arith, more, few));
          few = few;
          asks = asks;
          sized = sized;
        })
      ]

  collected-Holds :
      (done : List Call) (past : List Reply) (s : System W) (i : ℕ)
      → Holds done past s
      → s.client.pc ≡ collecting i
      → s.responses.num_comm ≤ i
      → Holds s.asked s.received (record s { client = end_collect s.client })
  unfolding end_collect
  collected-Holds done past s i inv e le =
      let h = collected_all first_process fiber w done past inv.view s i inv.shows e le in
      let whole = append-nil s.asked in
      let told = append-nil s.received in
      record {
        view = idle;
        shows = (refl, refl, h.2, h.3, rw (whole, told, inv.asks, h.5) h.4, sym told, omega arith);
        few = omega arith;
        asks = sym whole;
        sized =
            (inv.sized.0, length-replicate max_comms none, inv.sized.2, inv.sized.3, inv.sized.4);
      }

  pub Step-Holds :
      (done : List Call) (past : List Reply) (s t : System W)
      → Step first_process fiber s t
      → Holds done past s
      → (known : List Call) × (told : List Reply) × Holds known told t
  unfolding begin_send end_send begin_serve serve begin_answer
  Step-Holds done past s _ (ask req resp e f) inv =
      (done, past, put-Holds done past s req resp inv e f)
  Step-Holds done past s _ (submit e f some_requests) inv = (
    done,
    past,
    record {
      view = going 0;
      shows = begun first_process fiber w done past inv.view s inv.shows e f;
      few = inv.few;
      asks = inv.asks;
      sized = inv.sized;
    },
  )
  Step-Holds done past s _ (send_part i e lt) inv =
      let part = get_or s.client.message.body i no_request in
      (
        done,
        past,
        record {
          view = going (i + 1);
          shows = sent_part first_process fiber w done past inv.view s i inv.sized.2 inv.shows e lt;
          few = inv.few;
          asks = inv.asks;
          sized = (
            inv.sized.0,
            inv.sized.1,
            length-set s.requests.body i part ∙ inv.sized.2,
            inv.sized.3,
            inv.sized.4,
          );
        },
      )
  Step-Holds done past s _ (send_header i e le) inv = (
    done,
    past,
    record {
      view = sent;
      shows = sent_header first_process fiber w done past inv.view s i inv.shows e le;
      few = inv.few;
      asks = inv.asks;
      sized = inv.sized;
    },
  )
  Step-Holds done past s _ (look e f same) inv = (
    done,
    past,
    record {
      view = read 0;
      shows = looked first_process fiber w done past inv.view s inv.shows e f same;
      few = inv.few;
      asks = inv.asks;
      sized = inv.sized;
    },
  )
  Step-Holds done past s _ (collect i e lt) inv = (
    done,
    past,
    record {
      view = read (i + 1);
      shows = collected_one first_process fiber w done past inv.view s i inv.shows e lt;
      few = inv.few;
      asks = inv.asks;
      sized = inv.sized;
    },
  )
  Step-Holds done past s _ (collected i e le) inv =
      (s.asked, s.received, collected-Holds done past s i inv e le)
  Step-Holds done past s _ (notice e f) inv = (
    done,
    past,
    record {
      view = served 0;
      shows = noticed first_process fiber w done past inv.view s inv.shows e f;
      few = inv.few;
      asks = inv.asks;
      sized = inv.sized;
    },
  )
  Step-Holds done past s _ (process i e lt) inv =
      let (pointer, context) =
        first_process (get_or s.requests.body i no_request) s.server.context in
      (
        done,
        past,
        record {
          view = served (i + 1);
          shows =
              processed_one first_process fiber w done past inv.view s i inv.sized.3 inv.few
                inv.shows e lt;
          few = inv.few;
          asks = inv.asks;
          sized = (
            inv.sized.0,
            inv.sized.1,
            inv.sized.2,
            length-set s.server.resp_message.body i pointer ∙ inv.sized.3,
            inv.sized.4,
          );
        },
      )
  Step-Holds done past s _ (processed i e le) inv = (
    done,
    past,
    record {
      view = returning 0;
      shows = processed_all first_process fiber w done past inv.view s i inv.shows e le;
      few = inv.few;
      asks = inv.asks;
      sized = inv.sized;
    },
  )
  Step-Holds done past s _ (answer_part i e lt) inv =
      let part = get_or s.server.resp_message.body i 0 in
      (
        done,
        past,
        record {
          view = returning (i + 1);
          shows =
              answered_part first_process fiber w done past inv.view s i inv.sized.4 inv.shows e lt;
          few = inv.few;
          asks = inv.asks;
          sized = (
            inv.sized.0,
            inv.sized.1,
            inv.sized.2,
            inv.sized.3,
            length-set s.responses.body i part ∙ inv.sized.4,
          );
        },
      )
  Step-Holds done past s _ (answer_header i e le) inv = (
    done,
    past,
    record {
      view = answered;
      shows = answered_header first_process fiber w done past inv.view s i inv.few inv.shows e le;
      few = inv.few;
      asks = inv.asks;
      sized = inv.sized;
    },
  )
  Step-Holds done past s _ late inv = (
    done,
    past,
    record {
      view = inv.view;
      shows = stored first_process fiber w done past inv.view s inv.shows;
      few = inv.few;
      asks = inv.asks;
      sized = inv.sized;
    },
  )

  init-Holds : Holds [] [] (init first_process fiber w)
  unfolding new_client new_server
  init-Holds = record {
    view = idle;
    shows = (refl, refl, refl, (refl, refl, refl), none_yet, refl, omega arith);
    few = omega arith;
    asks = refl;
    sized = (
      length-replicate max_comms no_request,
      length-replicate max_comms none,
      length-replicate max_comms no_request,
      length-replicate max_comms 0,
      length-replicate max_comms 0,
    );
  }

  pub Reach-Holds :
      (s : System W)
      → Reach first_process fiber w s
      → (done : List Call) × (past : List Reply) × Holds done past s
  Reach-Holds _ start = ([], [], init-Holds)
  Reach-Holds _ (later {s} {t} r step) =
      let (done, past, inv) = Reach-Holds s r in Step-Holds done past s t step inv
