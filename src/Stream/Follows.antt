-- ===== src/Stream/Follows.antt =====
-- One subscriber of internal/stream/hub.go against the stream it should see.
use mathlib.Core.Option.{map as option_map}
use mathlib.Core.Path.{subst}
use mathlib.Core.List.{append_assoc, append-nil}
use yalb_link.Prelude.{
  ℕ, zero, suc, ◌≡◌, ◌≤◌, Bool, true, false, not, Option, none, some, List, [], ◌∷◌, ◌++◌, ◌==◌,
  ==_iff, arith, ltb, map, length, get_elem?, length-append, if◌then◌else◌, refl, ap, sym, ◌∙◌, inl,
  inr, Bool-cases,
}
use yalb_link.Stream.Hub.{Event, Subscriber, at, dropped, send, taken_by}

-- A subscriber after a part `history` of the stream: what it took and what its channel holds are the
-- beginning of it, all of it while the subscriber is registered; the channel keeps within its capacity
-- and is closed exactly if the subscriber was dropped.
pub record Follows (history : List Event) (s : Subscriber) : Type 0 where
  pub prefix : (missed : List Event) × ((s.taken ++ s.events) ++ missed ≡ history)
  pub complete : s.registered ≡ true → s.taken ++ s.events ≡ history
  pub bounded : length s.events ≤ s.cap
  pub closes_with : s.closed ≡ not s.registered

pub get_elem?-map :
    (f : Subscriber → Subscriber) (ss : List Subscriber) (i : ℕ)
    → get_elem? (map f ss) i ≡ option_map f (get_elem? ss i)
get_elem?-map f [] i = refl
get_elem?-map f (s ∷ ss) zero = refl
get_elem?-map f (s ∷ ss) (suc i) = get_elem?-map f ss i

untouched :
    (f : Subscriber → Subscriber) (b : Bool) (x : Option Subscriber)
    → b ≡ false
    → x ≡ option_map (λ s. if b then f s else s) x
untouched f b none h = refl
untouched f b (some s) h = ground arith

pub get_elem?-at :
    (j : ℕ) (f : Subscriber → Subscriber) (ss : List Subscriber) (i : ℕ)
    → get_elem? (at j f ss) i ≡ option_map (λ s. if j == i then f s else s) (get_elem? ss i)
unfolding at
get_elem?-at j f [] i = refl
get_elem?-at zero f (s ∷ ss) zero = ground arith
get_elem?-at zero f (s ∷ ss) (suc i) =
    untouched f (0 == suc i) (get_elem? ss i) (ground (arith, ==_iff 0 (suc i)))
get_elem?-at (suc j) f (s ∷ ss) zero = ground arith
get_elem?-at (suc j) f (s ∷ ss) (suc i) =
    get_elem?-at j f ss i
    ∙ ap (λ b. option_map (λ s. if b then f s else s) (get_elem? ss i))
        (ground (arith, ==_iff j i, ==_iff (suc j) (suc i)))

pub get_elem?-append :
    (ss ts : List Subscriber) (i : ℕ) {s : Subscriber}
    → get_elem? ss i ≡ some s
    → get_elem? (ss ++ ts) i ≡ some s
get_elem?-append [] ts i h = absurd (cc)
get_elem?-append (s ∷ ss) ts zero h = h
get_elem?-append (s ∷ ss) ts (suc i) h = get_elem?-append ss ts i h

pub get_elem?-last :
    (ss : List Subscriber) (s : Subscriber) → get_elem? (ss ++ (s ∷ [])) (length ss) ≡ some s
get_elem?-last [] s = refl
get_elem?-last (t ∷ ss) s = get_elem?-last ss s

module _ (ev : Event) (s : Subscriber) (history : List Event) (h : Follows history s) where
  sent-Follows :
      s.registered ≡ true
      → ltb (length s.events) s.cap ≡ true
      → Follows (history ++ (ev ∷ [])) (record s { events = s.events ++ (ev ∷ []) })
  sent-Follows reg room =
      let all_of_it =
        sym (append_assoc s.taken s.events (ev ∷ []))
        ∙ ap (λ xs. xs ++ (ev ∷ [])) (h.complete reg) in
      record {
        prefix = ([], append-nil _ ∙ all_of_it);
        complete = λ _. all_of_it;
        bounded = ground (arith, length-append s.events (ev ∷ []));
        closes_with = h.closes_with;
      }

  later : (missed : List Event) × ((s.taken ++ s.events) ++ missed ≡ history ++ (ev ∷ []))
  later = (
    h.prefix.0 ++ (ev ∷ []),
    sym (append_assoc (s.taken ++ s.events) h.prefix.0 (ev ∷ []))
        ∙ ap (λ xs. xs ++ (ev ∷ [])) h.prefix.1,
  )

  gone-Follows : s.registered ≡ false → Follows (history ++ (ev ∷ [])) s
  gone-Follows gone = record {
    prefix = later;
    complete = λ reg. absurd (cc);
    bounded = h.bounded;
    closes_with = h.closes_with;
  }

  missed-Follows : Follows (history ++ (ev ∷ [])) (record s { registered = false; closed = true })
  missed-Follows = record {
    prefix = later;
    complete = λ reg. absurd (cc);
    bounded = h.bounded;
    closes_with = refl;
  }

  pub send-Follows : Follows (history ++ (ev ∷ [])) (send ev s)
  unfolding send dropped
  send-Follows = elim (Bool-cases s.registered) [
    | inl reg ↦ elim (Bool-cases (ltb (length s.events) s.cap)) [
      | inl room ↦ ground (arith, sent-Follows reg room)
      | inr full ↦ ground (arith, missed-Follows)
    ]
    | inr gone ↦ ground (arith, gone-Follows gone)
  ]

module _ (s : Subscriber) (history : List Event) (h : Follows history s) where
  pub dropped-Follows : Follows history (dropped s)
  unfolding dropped
  dropped-Follows = record {
    prefix = h.prefix;
    complete = λ reg. absurd (cc);
    bounded = h.bounded;
    closes_with = refl;
  }

  pub taken_by-Follows :
      (events : List Event) → s.events ≡ events → Follows history (taken_by events s)
  unfolding taken_by
  taken_by-Follows [] e = h
  taken_by-Follows (ev ∷ rest) e =
      let same = append_assoc s.taken (ev ∷ []) rest ∙ ap (λ xs. s.taken ++ xs) (sym e) in
      record {
        prefix = (h.prefix.0, ap (λ xs. xs ++ h.prefix.0) same ∙ h.prefix.1);
        complete = λ reg. same ∙ h.complete reg;
        bounded = ground (arith, h.bounded);
        closes_with = h.closes_with;
      }

  pub unchanged-Follows : Follows (history ++ []) s
  unchanged-Follows = subst (λ hs. Follows hs s) (sym (append-nil history)) h
