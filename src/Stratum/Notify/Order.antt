-- ===== src/Stratum/Notify/Order.antt =====
-- In which order processMessages handles the objects of a buffer.
use ohmy_miner_etc.Common.{
  ℕ, ◌≡◌, refl, sym, List, [], ◌∷◌, ◌++◌, Bool, true, false, ◌||◌, Option, none, some, if-true,
  if-false, inl, inr, subst, Bool-cases, codes,
}
use ohmy_miner_etc.Stratum.{Client, Event}
use ohmy_miner_etc.Stratum.Json.{JsonLibrary}
use ohmy_miner_etc.Stratum.Notify.{
  process_notification, process_parsed, process_object, process_objects,
}

-- Handling texts one after the other, each by the client that the ones before it left: a text that is
-- no JSON, or has no method, is passed over; any other is a notification.
pub data AreHandled (J : JsonLibrary) (stale : List ℕ)
    : Client → List (List ℕ) → Client × Bool × List Event → Type 0 where
  done : (c : Client) → AreHandled J stale c [] (c, false, [])
  no_json :
      (c : Client) (text : List ℕ) (texts : List (List ℕ)) (r : Client × Bool × List Event)
      → J.parse text ≡ none
      → AreHandled J stale c texts r
      → AreHandled J stale c (text ∷ texts) r
  no_method :
      (c : Client) (text : List ℕ) (texts : List (List ℕ)) (r : Client × Bool × List Event)
      (message : J.Json)
      → J.parse text ≡ some message
      → J.contains message (codes "method") ≡ false
      → AreHandled J stale c texts r
      → AreHandled J stale c (text ∷ texts) r
  notified :
      (c : Client) (text : List ℕ) (texts : List (List ℕ)) (r : Client × Bool × List Event)
      (message : J.Json)
      → J.parse text ≡ some message
      → J.contains message (codes "method") ≡ true
      → AreHandled J stale (process_notification J stale c message).0 texts r
      → AreHandled J stale c
          (text ∷ texts)
          (r.0, true, (process_notification J stale c message).1 ++ r.2)

module _ (J : JsonLibrary) (stale : List ℕ) where
  open J use {Json, parse, contains}

  -- What the handling of a text comes to with that of the texts behind it.
  abbrev followed : List (List ℕ) → Client × Bool × List Event → Client × Bool × List Event
  followed texts first =
      let rest = process_objects J stale first.0 texts in
      (rest.0, first.1 || rest.1, first.2 ++ rest.2)

  -- One text more, parsed or not.
  handle_next :
      (c : Client) (text : List ℕ) (texts : List (List ℕ)) (o : Option Json)
      → parse text ≡ o
      → ((d : Client) → AreHandled J stale d texts (process_objects J stale d texts))
      → AreHandled J stale c (text ∷ texts) (followed texts (process_parsed J stale c o))
  unfolding process_parsed
  handle_next c text texts none p ih = no_json c text texts _ p (ih c)
  handle_next c text texts (some message) p ih =
      let r = process_notification J stale c message in
      elim (Bool-cases (contains message (codes "method"))) [
        | inl has ↦
            subst (λ x. AreHandled J stale c (text ∷ texts) (followed texts x))
              (sym (if-true (r.0, true, r.1) (c, false, []) has))
              (notified c text texts _ message p has (ih r.0))
        | inr has_not ↦
            subst (λ x. AreHandled J stale c (text ∷ texts) (followed texts x))
              (sym (if-false (r.0, true, r.1) (c, false, []) has_not))
              (no_method c text texts _ message p has_not (ih c))
      ]

  pub process_objects-AreHandled :
      (texts : List (List ℕ)) (c : Client)
      → AreHandled J stale c texts (process_objects J stale c texts)
  unfolding process_objects process_object
  process_objects-AreHandled [] c = done c
  process_objects-AreHandled (text ∷ texts) c =
      handle_next c text texts (parse text) refl (process_objects-AreHandled texts)
