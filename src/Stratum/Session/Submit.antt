-- ===== src/Stratum/Session/Submit.antt =====
-- How `submitSolution` ends.
use ohmy_miner_etc.Common.{
  ℕ, ◌+◌, ◌≡◌, ◌≢◌, refl, sym, ap, ◌∙◌, ◌⊎◌, inl, inr, List, [], ◌∷◌, Bool, true, false, not, ◌&&◌,
  Option, none, some, codes, arith, if◌then◌else◌, if-false, if-true, list_eq, list_eq_refl,
  eq-of-list_eq, u64, Bool-cases, subst,
}
use ohmy_miner_etc.Types.{Solution}
use ohmy_miner_etc.Stratum.{Client, Received, bytes, next_answer, Request}
use ohmy_miner_etc.Stratum.Json.{JsonLibrary}
use ohmy_miner_etc.Stratum.Session.{
  next_delivery, send_message, received_text, receive_message, exchange, count_message, submission,
  is_accepted, submit_solution,
}
use ohmy_miner_etc.Stratum.Session.Requests.{IsExchanged, exchange-IsExchanged}

sent_message :
    (c : Client) (request : Request) (later : List Bool)
    → c.open_socket ≡ true
    → c.deliveries ≡ true ∷ later
    → send_message c request ≡ (record c { deliveries = later; sent = request ∷ c.sent }, true)
unfolding send_message next_delivery
sent_message c request later o d =
    let try : Bool × List Bool → Client × Bool = λ d.
      if d.0
      then (record c { deliveries = d.1; sent = request ∷ c.sent }, true)
      else (record c { deliveries = d.1 }, false) in
    let ready : not c.open_socket ≡ false = ground arith in
    if-false (c, false) (try (next_delivery c.deliveries)) ready ∙ ap (λ x. try (next_delivery x)) d

received_message :
    (c : Client) (message : List ℕ) (rest : List Received)
    → c.open_socket ≡ true
    → c.answers ≡ bytes message ∷ rest
    → receive_message c ≡ (record c { answers = rest }, message)
unfolding receive_message received_text next_answer
received_message c message rest o a =
    let take : Received × List Received → Client × List ℕ =
      λ r. received_text (record c { answers = r.1 }) r.0 in
    if-true (take (next_answer c.answers)) (c, []) o ∙ ap (λ x. take (next_answer x)) a

pub exchange-answered :
    (c : Client) (request : Request) (message : List ℕ) (rest : List Received) (later : List Bool)
    → c.open_socket ≡ true
    → c.answers ≡ bytes message ∷ rest
    → c.deliveries ≡ true ∷ later
    → exchange c request
      ≡ (record c { deliveries = later; sent = request ∷ c.sent; answers = rest }, message)
unfolding exchange
exchange-answered c request message rest later o a d =
    let after : Client × Bool → Client × List ℕ =
      λ s. if s.1 then receive_message s.0 else (s.0, []) in
    ap after (sent_message c request later o d)
    ∙ received_message (record c { deliveries = later; sent = request ∷ c.sent }) message rest o a

module _ (J : JsonLibrary) (stale : List ℕ) where
  open J use {Json, parse, contains, member, is_boolean, get_bool}

  -- An answer that is JSON with the Boolean true as "result".
  pub record IsAcceptance (message : List ℕ) : Type 0 where
    pub answer : Json
    pub parsed : parse message ≡ some answer
    pub has_result : contains answer (codes "result") ≡ true
    pub result : Json
    pub member_is : member answer (codes "result") ≡ some result
    pub boolean : is_boolean result ≡ true
    pub is_true : get_bool result ≡ some true

  -- The test of the answer, from either side.
  IsAcceptance-is_accepted :
      (message : List ℕ) → IsAcceptance message → is_accepted J stale (parse message) ≡ true
  unfolding is_accepted
  IsAcceptance-is_accepted message h =
      rw (h.parsed, h.has_result, h.member_is, h.boolean, h.is_true) refl

  is_accepted-IsAcceptance :
      (message : List ℕ) (o : Option Json)
      → parse message ≡ o
      → is_accepted J stale o ≡ true
      → IsAcceptance message
  unfolding is_accepted
  is_accepted-IsAcceptance message none p h = absurd (ground (arith, h))
  is_accepted-IsAcceptance message (some answer) p h =
      with_member (member answer (codes "result")) refl (and-left _ _ h) (and-right _ _ h)
    where
      and-left : (a b : Bool) → (a && b) ≡ true → a ≡ true
      and-left a b e = ground (arith, e)

      and-right : (a b : Bool) → (a && b) ≡ true → b ≡ true
      and-right a b e = ground (arith, e)

      with_bool :
          (result : Json)
          → member answer (codes "result") ≡ some result
          → contains answer (codes "result") ≡ true
          → is_boolean result ≡ true
          → (b : Option Bool) → get_bool result ≡ b
          → (elim b [ none ↦ false | some c ↦ c ]) ≡ true
          → IsAcceptance message
      with_bool result m c i none g t = absurd (ground (arith, t))
      with_bool result m c i (some b) g t = record {
        answer = answer;
        parsed = p;
        has_result = c;
        result = result;
        member_is = m;
        boolean = i;
        is_true = g ∙ ap some t;
      }

      with_member :
          (r : Option Json)
          → member answer (codes "result") ≡ r
          → contains answer (codes "result") ≡ true
          → (elim r [
            | none ↦ false
            | some result ↦
                is_boolean result && elim (get_bool result) [ none ↦ false | some b ↦ b ]
          ])
            ≡ true
          → IsAcceptance message
      with_member none m c t = absurd (ground (arith, t))
      with_member (some result) m c t =
          with_bool result m c (and-left _ _ t) (get_bool result) refl (and-right _ _ t)

  -- The client and the result when the pool answers with some bytes.
  answered_lem :
      (c : Client) (solution : Solution) (message : List ℕ) (rest : List Received)
      (later : List Bool)
      → c.connected ≡ true
      → c.open_socket ≡ true
      → c.answers ≡ bytes message ∷ rest
      → c.deliveries ≡ true ∷ later
      → message ≢ []
      → submit_solution J stale c solution ≡ (
        record c {
          message_id = u64 (c.message_id + 1);
          deliveries = later;
          sent = submission c solution ∷ c.sent;
          answers = rest;
        },
        is_accepted J stale (parse message),
      )
  unfolding submit_solution count_message
  answered_lem c solution message rest later on o a d ne =
      let finish : Client × List ℕ → Client × Bool =
        λ answer. (answer.0, not (list_eq answer.1 []) && is_accepted J stale (parse answer.1)) in
      let some_text : list_eq message [] ≡ false = elim (Bool-cases (list_eq message [])) [
        | inl e ↦ absurd (ne (eq-of-list_eq message [] e))
        | inr e ↦ e
      ] in
      if-true (finish (exchange (count_message c) (submission c solution))) (c, false) on
      ∙ ap finish
          (exchange-answered (count_message c) (submission c solution) message rest later o a d)
      ∙ rw some_text

  -- When the share goes out and the pool answers with some bytes: it is accepted exactly when the
  -- bytes are JSON with the Boolean true as "result"; the request is logged, the counter goes on, and
  -- the rest of the client, its current job included, is as before.
  pub submit_solution-answered :
      (c : Client) (solution : Solution) (message : List ℕ) (rest : List Received)
      (later : List Bool)
      → c.connected ≡ true
      → c.open_socket ≡ true
      → c.answers ≡ bytes message ∷ rest
      → c.deliveries ≡ true ∷ later
      → message ≢ []
      → ((submit_solution J stale c solution).0 ≡ record c {
        message_id = u64 (c.message_id + 1);
        deliveries = later;
        sent = submission c solution ∷ c.sent;
        answers = rest;
      })
        × ((submit_solution J stale c solution).1 ≡ true → IsAcceptance message)
        × (IsAcceptance message → (submit_solution J stale c solution).1 ≡ true)
  submit_solution-answered c solution message rest later on o a d ne =
      let e = answered_lem c solution message rest later on o a d ne in
      let answer : (submit_solution J stale c solution).1 ≡ is_accepted J stale (parse message) =
        ap (λ (r : Client × Bool). r.1) e in
      (
        ap (λ (r : Client × Bool). r.0) e,
        (λ t. is_accepted-IsAcceptance message (parse message) refl (sym answer ∙ t)),
        λ h. answer ∙ IsAcceptance-is_accepted message h,
      )

  -- What a submission may do, whatever the socket gives.
  pub record IsSubmitted (c : Client) (solution : Solution) (r : Client × Bool) : Type 0 where
    pub offline : c.connected ≡ false → r ≡ (c, false)
    pub log : ((r.1 ≡ false) × (r.0.sent ≡ c.sent)) ⊎ (r.0.sent ≡ submission c solution ∷ c.sent)
    pub job : r.0.current_job ≡ c.current_job
    pub difficulty : r.0.current_difficulty ≡ c.current_difficulty
    pub worker : r.0.current_worker ≡ c.current_worker

  answered-IsSubmitted :
      (c : Client) (solution : Solution) (answer : Client × List ℕ)
      → c.connected ≡ true
      → IsExchanged (count_message c) (submission c solution) answer
      → IsSubmitted c solution
          (answer.0, not (list_eq answer.1 []) && is_accepted J stale (parse answer.1))
  unfolding count_message
  answered-IsSubmitted c solution (d, text) on h = record {
    offline = λ off. absurd (ground (arith, on, off));
    log = elim h.log [ inl l ↦ inl (unheard text l.0, l.1) | inr l ↦ inr l ];
    job = ap (λ x. x.current_job) h.frame;
    difficulty = ap (λ x. x.current_difficulty) h.frame;
    worker = ap (λ x. x.current_worker) h.frame;
  }
    where
      unheard :
          (t : List ℕ) → t ≡ [] → (not (list_eq t []) && is_accepted J stale (parse t)) ≡ false
      unheard t e = rw e (rw (list_eq_refl []))

  -- Submitting, whatever the socket gives: without a connection nothing happens and the answer is
  -- false; a share is logged at most once, and counts as accepted only if it was sent; and the job,
  -- the difficulty and the worker stay as they are.
  pub submit_solution-IsSubmitted :
      (c : Client) (solution : Solution)
      → IsSubmitted c solution (submit_solution J stale c solution)
  unfolding submit_solution count_message
  submit_solution-IsSubmitted c solution =
      let answer = exchange (count_message c) (submission c solution) in
      let r : Client × Bool =
        (answer.0, not (list_eq answer.1 []) && is_accepted J stale (parse answer.1)) in
      elim (Bool-cases c.connected) [
        | inl on ↦ subst (IsSubmitted c solution) (sym (if-true r (c, false) on)) (
            answered-IsSubmitted c solution answer on
              (exchange-IsExchanged (count_message c) (submission c solution)))
        | inr off ↦ subst (IsSubmitted c solution) (sym (if-false r (c, false) off)) record {
          offline = λ _. refl;
          log = inl (refl, refl);
          job = refl;
          difficulty = refl;
          worker = refl;
        }
      ]
