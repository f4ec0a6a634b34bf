-- ===== src/Messages/Link/Places.antt =====
-- Where client and server stand says where the message is.
use mathlib.Core.Path.{subst}
use tri_cache.Base.{ℕ, true, List, ◌≡◌, ◌≢◌, arith}
use tri_cache.Messages.{Request}
use tri_cache.Messages.Client.{running, sending, collecting}
use tri_cache.Messages.Server.{watching, serving, answering}
use tri_cache.Messages.Link.{System, Call, Reply, Fiber}
use tri_cache.Messages.Link.Invariant.{View, going, sent, served, returning, answered, read, Shows}

module _ {W : Type 0} (first_process : Request → W → ℕ × W) (fiber : Fiber W) (w : W)
    (done : List Call) (past : List Reply) where
  abbrev At : View → System W → Type 0
  At = Shows first_process fiber w done past

  pub at_sending :
      (v : View) (s : System W) (i : ℕ)
      → Shows first_process fiber w done past v s
      → s.client.pc ≡ sending i
      → Shows first_process fiber w done past (going i) s
  at_sending (going k) s i h e = let same : k ≡ i = cc in subst (λ (m : ℕ). At (going m) s) same h
  at_sending _ s i h e = absurd (cc)

  pub at_server :
      (v : View) (s : System W) (i : ℕ)
      → Shows first_process fiber w done past v s
      → s.server.pc ≡ serving i
      → Shows first_process fiber w done past (served i) s
  at_server (served k) s i h e = let same : k ≡ i = cc in subst (λ (m : ℕ). At (served m) s) same h
  at_server _ s i h e = absurd (cc)

  pub at_answering :
      (v : View) (s : System W) (i : ℕ)
      → Shows first_process fiber w done past v s
      → s.server.pc ≡ answering i
      → Shows first_process fiber w done past (returning i) s
  at_answering (returning k) s i h e =
      let same : k ≡ i = cc in subst (λ (m : ℕ). At (returning m) s) same h
  at_answering _ s i h e = absurd (cc)

  pub at_collecting :
      (v : View) (s : System W) (i : ℕ)
      → Shows first_process fiber w done past v s
      → s.client.pc ≡ collecting i
      → Shows first_process fiber w done past (read i) s
  at_collecting (read k) s i h e = let same : k ≡ i = cc in subst (λ (m : ℕ). At (read m) s) same h
  at_collecting _ s i h e = absurd (cc)

  pub at_answered :
      (v : View) (s : System W)
      → Shows first_process fiber w done past v s
      → s.client.pc ≡ running
      → s.client.processing ≡ true
      → s.responses.toggle ≡ s.client.toggle
      → Shows first_process fiber w done past answered s
  at_answered answered s h e f same = h
  at_answered sent s h e f same = absurd (ground (arith, h.3))
  at_answered (served k) s h e f same = absurd (ground (arith, h.3))
  at_answered (returning k) s h e f same = absurd (ground (arith, h.3))
  at_answered _ s h e f same = absurd (cc)

  pub at_sent :
      (v : View) (s : System W)
      → Shows first_process fiber w done past v s
      → s.server.pc ≡ watching
      → s.requests.toggle ≢ s.server.toggle
      → Shows first_process fiber w done past sent s
  at_sent sent s h e f = h
  at_sent (served k) s h e f = absurd (cc)
  at_sent (returning k) s h e f = absurd (cc)
  at_sent _ s h e f = absurd (ground (arith, h.3))
