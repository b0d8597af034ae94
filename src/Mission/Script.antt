-- ===== src/Mission/Script.antt =====
-- Postconditions of the actions of the mission transfer, and what its waits take from the script.
use yalb_link.Prelude.{
  ℕ, ◌<◌, ◌≡◌, refl, ◌⊎◌, inl, inr, Option, none, some, List, [], ◌∷◌, ◌++◌, arith, length,
}
use yalb_link.Codec.{Target}
use yalb_link.Codec.Encode.{Message}
use yalb_link.Proto.Transactions.{Response, MissionItem, MissionCount}
use yalb_link.Codec.{WriteError}
use yalb_link.Mission.Transfer.{
  Arrival, response, timer_fired, context_done, Wire, Outcome, ok, err, waiting, M, resume, reading,
  Verdict, accept, refuse, skip, count_verdict, item_verdict, await, settle, write, write_result,
}

-- If the action succeeds, its value and the wire after it satisfy P.
abbrev pub Post {ℓ} : {A : Type 0} → (A → Wire → Type ℓ) → Outcome A × Wire → Type ℓ
Post P (ok a, w) = P a w
Post P (err e, w) = Unit
Post P (waiting, w) = Unit

pub Post-resume {ℓ} :
    {A B : Type 0} (P : A → Wire → Type ℓ) (Q : B → Wire → Type ℓ) (f : A → M B)
    (r : Outcome A × Wire)
    → Post P r
    → ((a : A) (w : Wire) → P a w → Post Q (f a w))
    → Post Q (resume f r)
Post-resume P Q f (ok a, w₁) p k = k a w₁ p
Post-resume P Q f (err e, w₁) p k = tt
Post-resume P Q f (waiting, w₁) p k = tt

pub Post-map {ℓ} :
    {A : Type 0} (P Q : A → Wire → Type ℓ) (r : Outcome A × Wire)
    → Post P r
    → ((a : A) (w : Wire) → P a w → Q a w)
    → Post Q r
Post-map P Q (ok a, w) p k = k a w p
Post-map P Q (err e, w) p k = tt
Post-map P Q (waiting, w) p k = tt

pub Post-eq {ℓ} :
    {A : Type 0} (P : A → Wire → Type ℓ) (r : Outcome A × Wire) {a : A} {w : Wire}
    → r ≡ (ok a, w)
    → Post P r
    → P a w
Post-eq P r e p = rw e at p

-- Some arrival of the script is a response with this payload.
abbrev pub Came : Option Response → List Arrival → Type 0
Came p [] = ⊥
Came p (response ev ∷ script) = (ev.payload ≡ p) ⊎ Came p script
Came p (timer_fired ∷ script) = Came p script
Came p (context_done ∷ script) = Came p script

-- What is left of a script held nothing that the script did not.
abbrev pub LeftOf : List Arrival → List Arrival → Type 0
LeftOf script rest = (p : Option Response) → Came p rest → Came p script

-- If the wait succeeds, its value and the rest of the script satisfy P.
abbrev pub Got {ℓ} : {A : Type 0} → (A → List Arrival → Type ℓ) → Outcome A × List Arrival → Type ℓ
Got P (ok a, rest) = P a rest
Got P (err e, rest) = Unit
Got P (waiting, rest) = Unit

pub Got-map {ℓ} :
    {A : Type 0} (P Q : A → List Arrival → Type ℓ) (r : Outcome A × List Arrival)
    → Got P r
    → ((a : A) (rest : List Arrival) → P a rest → Q a rest)
    → Got Q r
Got-map P Q (ok a, rest) g k = k a rest g
Got-map P Q (err e, rest) g k = tt
Got-map P Q (waiting, rest) g k = tt

Post-read {ℓ} :
    {A : Type 0} (P : A → Wire → Type ℓ) (w : Wire) (r : Outcome A × List Arrival)
    → Got (λ a rest. P a (record w { arrivals = rest })) r
    → Post P (r.0, record w { arrivals = r.1 })
Post-read P w (ok a, rest) g = g
Post-read P w (err e, rest) g = tt
Post-read P w (waiting, rest) g = tt

pub Post-reading {ℓ} :
    {A : Type 0} (P : A → Wire → Type ℓ) (wait : List Arrival → Outcome A × List Arrival) (w : Wire)
    → Got (λ a rest. P a (record w { arrivals = rest })) (wait w.arrivals)
    → Post P (reading wait w)
Post-reading P wait w g = Post-read P w (wait w.arrivals) g

-- The value of a successful wait was accepted from a response of the script.
abbrev pub Accepted :
    {A : Type 0} → (Option Response → Verdict A) → List Arrival → A → List Arrival → Type 0
Accepted verdict script a rest =
    (p : Option Response) × (verdict p ≡ accept a) × Came p script × LeftOf script rest

settle-Accepted :
    {A : Type 0} (verdict : Option Response → Verdict A) (p : Option Response)
    (script rest : List Arrival) (again : Outcome A × List Arrival) (v : Verdict A)
    → verdict p ≡ v
    → Came p script
    → LeftOf script rest
    → Got (Accepted verdict rest) again
    → Got (Accepted verdict script) (settle v rest again)
settle-Accepted verdict p script rest again (accept a) e came left g = (p, e, came, left)
settle-Accepted verdict p script rest again (refuse n) e came left g = tt
settle-Accepted verdict p script rest again skip e came left g =
    Got-map _ _ again g (λ a rest' h. (h.0, h.1, left h.0 h.2, λ q c. left q (h.3 q c)))

pub await-Accepted :
    {A : Type 0} (verdict : Option Response → Verdict A) (script : List Arrival)
    → Got (Accepted verdict script) (await verdict script)
unfolding await
await-Accepted verdict [] = tt
await-Accepted verdict (timer_fired ∷ rest) = tt
await-Accepted verdict (context_done ∷ rest) = tt
await-Accepted verdict (response ev ∷ rest) =
    settle-Accepted verdict ev.payload (response ev ∷ rest) rest (await verdict rest)
      (verdict ev.payload) refl (inl refl) (λ q c. inr c) (await-Accepted verdict rest)

-- An accepted item is the one asked for, inside the advertised range.
pub item_verdict-accept :
    (want count : ℕ) (p : Option Response) (x : MissionItem)
    → item_verdict want count p ≡ accept x
    → (p ≡ some (Response.mission_item x)) × (x.seq ≡ want) × (want < count)
unfolding item_verdict
item_verdict-accept want count (some (Response.mission_ack a)) x h = ground arith
item_verdict-accept want count (some (Response.mission_item i)) x h = ground arith
item_verdict-accept want count (some (Response.mission_count i)) x h = cc
item_verdict-accept want count (some (Response.param_value i)) x h = cc
item_verdict-accept want count (some (Response.command_ack i)) x h = cc
item_verdict-accept want count none x h = cc

pub count_verdict-accept :
    (p : Option Response) (n : ℕ)
    → count_verdict p ≡ accept n
    → (m : MissionCount) × (p ≡ some (Response.mission_count m)) × (m.count ≡ n)
unfolding count_verdict
count_verdict-accept (some (Response.mission_ack a)) n h = absurd (ground arith)
count_verdict-accept (some (Response.mission_count m)) n h = (m, refl, ground arith)
count_verdict-accept (some (Response.mission_item i)) n h = absurd (cc)
count_verdict-accept (some (Response.param_value i)) n h = absurd (cc)
count_verdict-accept (some (Response.command_ack i)) n h = absurd (cc)
count_verdict-accept none n h = absurd (cc)

-- A successful write appends its message and leaves the script alone.
pub write-Post :
    (answer : ℕ → Option WriteError) (target : Target) (mission_type : ℕ) (msg : Message) (w : Wire)
    → Post
        (λ _ w₁. w₁ ≡ record w { written = w.written ++ (msg ∷ []) })
        (write answer target mission_type msg w)
unfolding write
write-Post answer target mission_type msg w = written (answer (length w.written))
  where
    written :
        (r : Option WriteError)
        → Post
            (λ _ w₁. w₁ ≡ record w { written = w.written ++ (msg ∷ []) })
            (write_result r, record w { written = w.written ++ (msg ∷ []) })
    written none = refl
    written (some WriteError.unknown_link) = tt
    written (some WriteError.other) = tt
