-- ===== src/Stratum/Session/Numbered.antt =====
-- The ids of the requests over a whole session.
use ohmy_miner_etc.Common.{
  ℕ, ◌+◌, ◌≤◌, ◌≡◌, refl, ap, ◌⊎◌, inl, inr, List, [], ◌∷◌, Bool, true, false, Option, none, some,
  arith, if-elim, ltb, leb, codes, ◌&&◌, list_eq, u64, max_u64, ◌>>=◌,
}
use ohmy_miner_etc.Types.{Solution}
use ohmy_miner_etc.Stratum.{
  Client, Event, Request, subscribe, authorize, suggest_difficulty, request_id,
}
use ohmy_miner_etc.Stratum.Json.{JsonLibrary}
use ohmy_miner_etc.Stratum.Notify.{process_messages, process_notification, notify_method}
use ohmy_miner_etc.Stratum.Notify.Jobs.{process_notification-IsNotified}
use ohmy_miner_etc.Stratum.Notify.Messages.{process_messages-IsProcessed}
use ohmy_miner_etc.Stratum.Session.{
  Dial, unresolved, no_socket, refused, accepted, settle, send_message, exchange, count_message,
  worker_of, suggest, submission, keep_subscription, take_subscription, subscribe_answer,
  subscribe_pool, result_of, method_of, authorize_notified, authorize_result, authorize_answer,
  authorize_worker, submit_solution,
}
use ohmy_miner_etc.Stratum.Session.Requests.{
  IsBelow-mono, IsNumbered, send_message-IsSent, exchange-IsExchanged,
}

-- `d` follows `c` with at most `k` more requests.
abbrev pub Numbers : ℕ → Client → Client → Type 0
Numbers k c d =
    c.message_id + k ≤ max_u64 → IsNumbered c → IsNumbered d × (d.message_id ≤ c.message_id + k)

pub same : (c d : Client) → d.sent ≡ c.sent → d.message_id ≡ c.message_id → Numbers 0 c d
same c d s m le h = (rw s (rw m h), omega arith)

pub more : (j k : ℕ) (c d : Client) → j ≤ k → Numbers j c d → Numbers k c d
more j k c d jk n le h = let r = n (omega arith) h in (r.0, omega (arith, r.1))

pub Numbers-trans : (j k : ℕ) (c d e : Client) → Numbers j c d → Numbers k d e → Numbers (j + k) c e
Numbers-trans j k c d e n m le h =
    let r = n (omega arith) h in
    let s = m (omega (arith, r.1)) r.0 in (s.0, omega (arith, r.1, s.1))

counted :
    (c d : Client) (request : Request)
    → request_id request ≡ c.message_id
    → d.message_id ≡ u64 (c.message_id + 1)
    → (d.sent ≡ c.sent) ⊎ (d.sent ≡ request ∷ c.sent)
    → Numbers 1 c d
counted c d request i m (inl s) le h =
    (rw s (IsBelow-mono c.message_id d.message_id c.sent (omega arith) h), omega arith)
counted c d request i m (inr s) le h = (rw s (omega arith, rw i h), omega arith)

exchange-Numbers :
    (c : Client) (request : Request)
    → request_id request ≡ c.message_id
    → Numbers 1 c (exchange (count_message c) request).0
unfolding count_message
exchange-Numbers c request i =
    let h = exchange-IsExchanged (count_message c) request in
    counted c (exchange (count_message c) request).0 request i (ap (λ x. x.message_id) h.frame)
      (elim h.log [ inl l ↦ inl l.1 | inr l ↦ inr l ])

suggest-Numbers : (env : Option ℕ) (c : Client) → Numbers 1 c (suggest env c)
unfolding suggest count_message request_id
suggest-Numbers none c = more 0 1 c c (omega arith) (same c c refl refl)
suggest-Numbers (some sug) c =
    let request = suggest_difficulty c.message_id sug in
    let h = send_message-IsSent (count_message c) request in
    if-elim (Numbers 1 c) (ltb 0 sug)
      (counted c (send_message (count_message c) request).0 request refl
        (ap (λ x. x.message_id) h.frame) (elim h.log [ inl l ↦ inl l.1 | inr l ↦ inr l.1 ]))
      (more 0 1 c c (omega arith) (same c c refl refl))

pub settle-Numbers : (c : Client) (dial : Dial) → Numbers 0 c (settle c dial).0
unfolding settle
settle-Numbers c unresolved = same c c refl refl
settle-Numbers c no_socket = same c (record c { open_socket = false }) refl refl
settle-Numbers c refused = same c (record c { open_socket = false }) refl refl
settle-Numbers c accepted = same c (record c { open_socket = true; connected = true }) refl refl

module _ (J : JsonLibrary) (stale : List ℕ) where
  open J use {Json, parse, contains, member, element, size, is_null, is_array, get_string}

  pub submit_solution-Numbers :
      (c : Client) (solution : Solution) → Numbers 1 c (submit_solution J stale c solution).0
  unfolding submit_solution submission request_id
  submit_solution-Numbers c solution =
      if-elim {A = Client × Bool} (λ r. Numbers 1 c r.0) c.connected
        (exchange-Numbers c (submission c solution) refl)
        (more 0 1 c c (omega arith) (same c c refl refl))

  pub process_messages-Numbers : (c : Client) → Numbers 0 c (process_messages J stale c).0
  process_messages-Numbers c =
      let h = process_messages-IsProcessed J stale c in
      same c (process_messages J stale c).0 (ap (λ x. x.sent) h.frame)
        (ap (λ x. x.message_id) h.frame)

  keep_subscription-Numbers :
      (c : Client) (id : Option (List ℕ)) → Numbers 0 c (keep_subscription J stale c id).0
  unfolding keep_subscription
  keep_subscription-Numbers c none = same c c refl refl
  keep_subscription-Numbers c (some id) = same c (record c { subscription_id = id }) refl refl

  take_subscription-Numbers :
      (c : Client) (result : Option Json) → Numbers 0 c (take_subscription J stale c result).0
  unfolding take_subscription
  take_subscription-Numbers c none = same c c refl refl
  take_subscription-Numbers c (some result) =
      let P : Client × Bool → Type 0 = λ r. Numbers 0 c r.0 in
      if-elim P (is_null result) (same c c refl refl) (
        if-elim P (is_array result && leb 2 (size result))
          (keep_subscription-Numbers c (element result 1 >>= get_string)) (same c c refl refl))

  subscribe_answer-Numbers :
      (c : Client) (resp : Option Json) → Numbers 0 c (subscribe_answer J stale c resp).0
  unfolding subscribe_answer
  subscribe_answer-Numbers c none = same c c refl refl
  subscribe_answer-Numbers c (some resp) =
      if-elim {A = Client × Bool} (λ r. Numbers 0 c r.0) (contains resp (codes "result"))
        (take_subscription-Numbers c (member resp (codes "result"))) (same c c refl refl)

  pub subscribe_pool-Numbers : (c : Client) → Numbers 1 c (subscribe_pool J stale c).0
  unfolding subscribe_pool request_id
  subscribe_pool-Numbers c =
      let P : Client × Bool → Type 0 = λ r. Numbers 1 c r.0 in
      let answer = exchange (count_message c) (subscribe c.message_id) in
      let sent : Numbers 1 c answer.0 = exchange-Numbers c (subscribe c.message_id) refl in
      if-elim P c.connected
        (if-elim P (list_eq answer.1 []) sent (
          Numbers-trans 1 0 c answer.0 (subscribe_answer J stale answer.0 (parse answer.1)).0 sent
            (subscribe_answer-Numbers answer.0 (parse answer.1))))
        (more 0 1 c c (omega arith) (same c c refl refl))

  process_notification-Numbers :
      (c : Client) (message : Json) → Numbers 0 c (process_notification J stale c message).0
  process_notification-Numbers c message =
      let h = process_notification-IsNotified J stale c message in
      same c (process_notification J stale c message).0 (ap (λ x. x.sent) h.frame)
        (ap (λ x. x.message_id) h.frame)

  authorize_notified-Numbers :
      (env : Option ℕ) (c : Client) (resp : Json) (method : Option (List ℕ))
      → Numbers 1 c (authorize_notified J stale env c resp method).0
  unfolding authorize_notified
  authorize_notified-Numbers env c resp none = more 0 1 c c (omega arith) (same c c refl refl)
  authorize_notified-Numbers env c resp (some method) =
      let r = process_notification J stale c resp in
      if-elim {A = Client × Bool × List Event} (λ r. Numbers 1 c r.0) (list_eq method notify_method)
        (Numbers-trans 0 1 c r.0 (suggest env r.0) (process_notification-Numbers c resp)
          (suggest-Numbers env r.0))
        (more 0 1 c c (omega arith) (same c c refl refl))

  authorize_result-Numbers :
      (env : Option ℕ) (c : Client) (resp : Json) (result : Option Bool)
      → Numbers 1 c (authorize_result J stale env c resp result).0
  unfolding authorize_result
  authorize_result-Numbers env c resp none = more 0 1 c c (omega arith) (same c c refl refl)
  authorize_result-Numbers env c resp (some true) = suggest-Numbers env c
  authorize_result-Numbers env c resp (some false) =
      authorize_notified-Numbers env c resp (method_of J stale resp)

  authorize_answer-Numbers :
      (env : Option ℕ) (c : Client) (resp : Option Json)
      → Numbers 1 c (authorize_answer J stale env c resp).0
  unfolding authorize_answer
  authorize_answer-Numbers env c none = more 0 1 c c (omega arith) (same c c refl refl)
  authorize_answer-Numbers env c (some resp) =
      authorize_result-Numbers env c resp (result_of J stale resp)

  pub authorize_worker-Numbers :
      (env : Option ℕ) (c : Client) (worker_name : List ℕ)
      → Numbers 2 c (authorize_worker J stale env c worker_name).0
  unfolding authorize_worker request_id
  authorize_worker-Numbers env c worker_name =
      let P : Client × Bool × List Event → Type 0 = λ r. Numbers 2 c r.0 in
      let worker = worker_of c worker_name in
      let named : Client = record c { current_worker = worker } in
      let answer = exchange (count_message named) (authorize c.message_id worker) in
      let sent : Numbers 1 c answer.0 =
        exchange-Numbers named (authorize c.message_id worker) refl in
      if-elim P c.connected
        (if-elim P (list_eq answer.1 []) (more 1 2 c answer.0 (omega arith) sent) (
          Numbers-trans 1 1 c answer.0 (authorize_answer J stale env answer.0 (parse answer.1)).0
            sent (authorize_answer-Numbers env answer.0 (parse answer.1))))
        (more 0 2 c c (omega arith) (same c c refl refl))
