-- ===== src/Stratum/Notify/Messages.antt =====
-- What one call of `processMessages` does to the client.
use ohmy_miner_etc.Common.{
  ℕ, ◌≡◌, ◌≢◌, refl, sym, ap, ◌∙◌, List, [], ◌∷◌, ◌++◌, map, Bool, true, false, not, ◌||◌, Option,
  none, some, arith, if-elim, if-false, subst, codes, All, All-append,
}
use ohmy_miner_etc.Stratum.{
  disconnect, Client, Event, Received, bytes, would_block, failed, closed, next_answer,
}
use ohmy_miner_etc.Stratum.Json.{JsonLibrary}
use ohmy_miner_etc.Stratum.Frame.{objects_of}
use ohmy_miner_etc.Stratum.Frame.Objects.{Body, object, IsWellFormed}
use ohmy_miner_etc.Stratum.Frame.Delivery.{stream, objects_of-stream}
use ohmy_miner_etc.Stratum.Notify.{
  process_parsed, process_object, process_objects, process_answer, process_messages,
}
use ohmy_miner_etc.Stratum.Notify.Jobs.{
  IsJob, IsJobEvent, Notified, IsNotified, unchanged, process_notification-IsNotified,
}
use ohmy_miner_etc.Stratum.Notify.Order.{AreHandled, process_objects-AreHandled}

-- What handling the objects of a buffer may do, with whether one of them was a notification.
pub record IsHandled (c : Client) (r : Client × Bool × List Event) : Type 0 where
  pub outcome : IsNotified c (r.0, r.2)
  pub quiet : r.1 ≡ false → (r.0 ≡ c) × (r.2 ≡ [])

nothing : (c : Client) → IsHandled c (c, false, [])
nothing c = record { outcome = unchanged c; quiet = λ _. (refl, refl) }

Notified-trans : (c d e : Client) → Notified c d → Notified d e → Notified c e
Notified-trans c d e h k =
    let set : Client → Client =
      λ x. record x { current_job = e.current_job; current_difficulty = e.current_difficulty } in
    k ∙ ap set h

IsHandled-trans :
    (c d e : Client) (s t : Bool) (es fs : List Event)
    → IsHandled c (d, s, es)
    → IsHandled d (e, t, fs)
    → IsHandled c (e, s || t, es ++ fs)
IsHandled-trans c d e s t es fs h k = record {
  outcome = record {
    frame = Notified-trans c d e h.outcome.frame k.outcome.frame;
    job = λ j. k.outcome.job (h.outcome.job j);
    events = All-append IsJobEvent es fs h.outcome.events k.outcome.events;
  };
  quiet = λ q.
      let hs = h.quiet (ground arith) in
      let ks = k.quiet (ground arith) in (ks.0 ∙ hs.0, ground arith);
}

-- What the socket may change besides: the script of its answers is consumed, and an end of the
-- connection is recorded in both flags.
pub record IsProcessed (c : Client) (r : Client × Bool × List Event) : Type 0 where
  pub frame : r.0 ≡ record c {
    current_job = r.0.current_job;
    current_difficulty = r.0.current_difficulty;
    answers = r.0.answers;
    connected = r.0.connected;
    open_socket = r.0.open_socket;
  }
  pub job : IsJob c.current_job → IsJob r.0.current_job
  pub events : All IsJobEvent r.2
  pub quiet :
      r.1 ≡ false
      → (r.0.current_job ≡ c.current_job)
        × (r.0.current_difficulty ≡ c.current_difficulty)
        × (r.2 ≡ [])
  pub closing : r.0.connected ≢ c.connected → (r.0.connected ≡ false) × (r.0.open_socket ≡ false)

module _ (J : JsonLibrary) (stale : List ℕ) where
  open J use {Json, parse, contains}

  process_parsed-IsHandled :
      (c : Client) (o : Option Json) → IsHandled c (process_parsed J stale c o)
  unfolding process_parsed
  process_parsed-IsHandled c none = nothing c
  process_parsed-IsHandled c (some message) =
      if-elim (IsHandled c) (contains message (codes "method"))
        record {
          outcome = process_notification-IsNotified J stale c message;
          quiet = λ q. absurd (ground (arith, q));
        }
        (nothing c)

  process_objects-IsHandled :
      (c : Client) (texts : List (List ℕ)) → IsHandled c (process_objects J stale c texts)
  unfolding process_objects process_object
  process_objects-IsHandled c [] = nothing c
  process_objects-IsHandled c (text ∷ texts) =
      let first = process_parsed J stale c (parse text) in
      let rest = process_objects J stale first.0 texts in
      IsHandled-trans c first.0 rest.0 first.1 rest.1 first.2 rest.2
        (process_parsed-IsHandled c (parse text)) (process_objects-IsHandled first.0 texts)

  handled-IsProcessed :
      (c : Client) (rest : List Received) (r : Client × Bool × List Event)
      → IsHandled (record c { answers = rest }) r
      → IsProcessed c r
  handled-IsProcessed c rest r h =
      let e = h.outcome.frame in
      let set : Client → Client = λ x. record c {
        current_job = r.0.current_job;
        current_difficulty = r.0.current_difficulty;
        answers = x.answers;
        connected = x.connected;
        open_socket = x.open_socket;
      } in
      record {
        frame = e ∙ ap set (sym e);
        job = h.outcome.job;
        events = h.outcome.events;
        quiet = λ q. (
          ap (λ x. x.current_job) (h.quiet q).0,
          ap (λ x. x.current_difficulty) (h.quiet q).0,
          (h.quiet q).1,
        );
        closing = λ ne. absurd (ne (ap (λ x. x.connected) e));
      }

  closed-IsProcessed :
      (c : Client) (rest : List Received)
      → IsProcessed c (disconnect (record c { answers = rest }), false, [])
  unfolding disconnect
  closed-IsProcessed c rest =
      if-elim (λ d. IsProcessed c (d, false, [])) c.open_socket
        record {
          frame = refl;
          job = λ j. j;
          events = tt;
          quiet = λ _. (refl, refl, refl);
          closing = λ _. (refl, refl);
        }
        record {
          frame = refl;
          job = λ j. j;
          events = tt;
          quiet = λ _. (refl, refl, refl);
          closing = λ ne. absurd (ne refl);
        }

  process_answer-IsProcessed :
      (c : Client) (rest : List Received) (answer : Received)
      → IsProcessed c (process_answer J stale (record c { answers = rest }) answer)
  unfolding process_answer
  process_answer-IsProcessed c rest (bytes message) =
      handled-IsProcessed c rest _
        (process_objects-IsHandled (record c { answers = rest }) (objects_of message))
  process_answer-IsProcessed c rest would_block =
      handled-IsProcessed c rest _ (nothing (record c { answers = rest }))
  process_answer-IsProcessed c rest failed =
      handled-IsProcessed c rest _ (nothing (record c { answers = rest }))
  process_answer-IsProcessed c rest closed = closed-IsProcessed c rest

  -- One call of processMessages, whatever the socket gives, as long as no notification without
  -- "params" has ended the process: nothing but the job, the difficulty, the
  -- script of the answers and the two connection flags may change; a well-formed job stays
  -- well-formed, and every job handed to the callback is; when the call reports no notification,
  -- the job and the difficulty are as before and no callback ran; and the connected flag changes
  -- only to false, with the socket closed.
  pub process_messages-IsProcessed : (c : Client) → IsProcessed c (process_messages J stale c)
  unfolding process_messages
  process_messages-IsProcessed c =
      if-elim (IsProcessed c) (not c.connected || not c.open_socket)
        (handled-IsProcessed c c.answers (c, false, []) (nothing c))
        (process_answer-IsProcessed c (next_answer c.answers).1 (next_answer c.answers).0)

  -- A buffer of well-formed objects, each on a line, and behind them the beginning of one more:
  -- processMessages handles exactly the complete objects, in order, each by the client that the ones
  -- before it left, and the rest is lost; it reports whether one of them was a notification, and its
  -- events are theirs, in their order.
  pub process_messages-stream :
      (c : Client) (rest : List Received) (bodies : List Body) (b : Body) (text missing : List ℕ)
      → c.connected ≡ true
      → c.open_socket ≡ true
      → c.answers ≡ bytes (stream bodies text) ∷ rest
      → All IsWellFormed bodies
      → IsWellFormed b
      → text ++ missing ≡ object b
      → missing ≢ []
      → AreHandled J stale
          (record c { answers = rest })
          (map object bodies)
          (process_messages J stale c)
  unfolding process_messages process_answer next_answer
  process_messages-stream c rest bodies b text missing on opened e hs h k ne =
      let ready : (not c.connected || not c.open_socket) ≡ false = ground arith in
      let handle : Received × List Received → Client × Bool × List Event =
        λ r. process_answer J stale (record c { answers = r.1 }) r.0 in
      subst (AreHandled J stale (record c { answers = rest }) (map object bodies))
        (sym (
          if-false (c, false, []) (handle (next_answer c.answers)) ready
          ∙ ap (λ answers. handle (next_answer answers)) e
          ∙ ap (process_objects J stale (record c { answers = rest }))
              (objects_of-stream bodies b text missing hs h k ne)))
        (process_objects-AreHandled J stale (map object bodies) (record c { answers = rest }))
