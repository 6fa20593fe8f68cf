-- ===== src/Stratum/Session/Requests.antt =====
-- What the requests of the client write, and how they are numbered.
use ohmy_miner_etc.Common.{
  ℕ, ◌<◌, ◌≤◌, ◌≡◌, refl, sym, ap, ◌∙◌, ◌⊎◌, inl, inr, List, [], ◌∷◌, Bool, true, false, not, arith,
  if◌then◌else◌, if-elim,
}
use ohmy_miner_etc.Stratum.{
  disconnect, Client, Received, bytes, would_block, failed, closed, next_answer, Request,
  request_id,
}
use ohmy_miner_etc.Stratum.Session.{
  next_delivery, send_message, received_text, receive_message, exchange,
}

-- Requests, the latest first, with ids below a bound and each below the one that is sent after it.
abbrev pub IsBelow : ℕ → List Request → Type 0
IsBelow bound [] = Unit
IsBelow bound (request ∷ requests) =
    (request_id request < bound) × IsBelow (request_id request) requests

abbrev pub IsNumbered : Client → Type 0
IsNumbered c = IsBelow c.message_id c.sent

pub IsBelow-mono :
    (m n : ℕ) (requests : List Request) → m ≤ n → IsBelow m requests → IsBelow n requests
IsBelow-mono m n [] le h = tt
IsBelow-mono m n (request ∷ requests) le h = (omega (arith, h.0), h.1)

-- What sending changes: the script, and the log when it succeeds.
pub record IsSent (c : Client) (request : Request) (r : Client × Bool) : Type 0 where
  pub frame : r.0 ≡ record c { deliveries = r.0.deliveries; sent = r.0.sent }
  pub log : ((r.1 ≡ false) × (r.0.sent ≡ c.sent)) ⊎ ((r.1 ≡ true) × (r.0.sent ≡ request ∷ c.sent))

pub send_message-IsSent :
    (c : Client) (request : Request) → IsSent c request (send_message c request)
unfolding send_message
send_message-IsSent c request =
    if-elim (IsSent c request) (not c.open_socket) record { frame = refl; log = inl (refl, refl) }
      (if-elim (IsSent c request) (next_delivery c.deliveries).0
        record { frame = refl; log = inr (refl, refl) }
        record { frame = refl; log = inl (refl, refl) })

-- What receiving changes: the script, and both flags when the pool has closed the connection.
abbrev Listened : Client → Client → Type 0
Listened c d =
    d ≡ record c { answers = d.answers; connected = d.connected; open_socket = d.open_socket }

received_text-Listened :
    (c : Client) (rest : List Received) (answer : Received)
    → Listened c (received_text (record c { answers = rest }) answer).0
unfolding received_text disconnect
received_text-Listened c rest (bytes message) = refl
received_text-Listened c rest would_block = refl
received_text-Listened c rest failed = refl
received_text-Listened c rest closed =
    if-elim (Listened c) c.open_socket
      {x = record c { answers = rest; open_socket = false; connected = false }}
      {y = record c { answers = rest }} refl refl

receive_message-Listened : (c : Client) → Listened c (receive_message c).0
unfolding receive_message
receive_message-Listened c =
    if-elim {A = Client × List ℕ} (λ r. Listened c r.0) c.open_socket
      (received_text-Listened c (next_answer c.answers).1 (next_answer c.answers).0) refl

-- A request and its answer: there is an answer only when the request went out.
pub record IsExchanged (c : Client) (request : Request) (r : Client × List ℕ) : Type 0 where
  pub frame : r.0 ≡ record c {
    deliveries = r.0.deliveries;
    sent = r.0.sent;
    answers = r.0.answers;
    connected = r.0.connected;
    open_socket = r.0.open_socket;
  }
  pub log : ((r.1 ≡ []) × (r.0.sent ≡ c.sent)) ⊎ (r.0.sent ≡ request ∷ c.sent)

answer-IsExchanged :
    (c : Client) (request : Request) (s : Client × Bool)
    → IsSent c request s
    → IsExchanged c request (if s.1 then receive_message s.0 else (s.0, []))
answer-IsExchanged c request (d, false) h = record {
  frame = h.frame ∙ ap set (sym h.frame);
  log = elim h.log [ inl l ↦ inl (refl, l.1) | inr l ↦ inr l.1 ];
}
  where
    set : Client → Client
    set x = record c {
      deliveries = d.deliveries;
      sent = d.sent;
      answers = x.answers;
      connected = x.connected;
      open_socket = x.open_socket;
    }
answer-IsExchanged c request (d, true) h = record {
  frame = listened ∙ ap set h.frame ∙ ap reset (sym listened);
  log = inr (
      ap (λ x. x.sent) listened
      ∙ elim h.log [ inl l ↦ absurd (ground (arith, l.0)) | inr l ↦ l.1 ]);
}
  where
    e : Client
    e = (receive_message d).0

    listened : Listened d e
    listened = receive_message-Listened d

    set : Client → Client
    set x = record x { answers = e.answers; connected = e.connected; open_socket = e.open_socket }

    reset : Client → Client
    reset x = record c {
      deliveries = x.deliveries;
      sent = x.sent;
      answers = e.answers;
      connected = e.connected;
      open_socket = e.open_socket;
    }

pub exchange-IsExchanged :
    (c : Client) (request : Request) → IsExchanged c request (exchange c request)
unfolding exchange
exchange-IsExchanged c request =
    answer-IsExchanged c request (send_message c request) (send_message-IsSent c request)
