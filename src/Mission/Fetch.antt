-- ===== src/Mission/Fetch.antt =====
-- The item loop of internal/mission/coordinator.go: what it returns, writes and takes from the script.
use mathlib.Core.List.{append-nil, append_assoc}
use yalb_link.Prelude.{
  ℕ, zero, suc, ◌%◌, ◌^◌, ◌≡◌, ◌∙◌, refl, sym, ap, Option, some, List, [], ◌∷◌, ◌++◌, length,
}
use yalb_link.Codec.{Target}
use yalb_link.Codec.Encode.{Message, encode_mission_request_int}
use yalb_link.Proto.Transactions.{Response, MissionItem}
use yalb_link.Codec.{WriteError}
use yalb_link.Mission.Transfer.{
  Arrival, Wire, ◌>>=◌, reading, await_item, write, fetch, item_verdict,
}
use yalb_link.Mission.Script.{
  Post, Post-resume, Post-reading, Came, LeftOf, Got-map, Post-map, await-Accepted,
  item_verdict-accept, write-Post,
}

-- The items carry consecutive sequence numbers from `seq` on.
abbrev pub Numbered : ℕ → List MissionItem → Type 0
Numbered seq [] = Unit
Numbered seq (x ∷ xs) = (x.seq ≡ seq) × Numbered (suc seq) xs

-- Every item was carried by a response of the script.
abbrev pub AllCame : List Arrival → List MissionItem → Type 0
AllCame script [] = Unit
AllCame script (x ∷ xs) = Came (some (Response.mission_item x)) script × AllCame script xs

pub AllCame-LeftOf :
    (script rest : List Arrival) (xs : List MissionItem)
    → LeftOf script rest
    → AllCame rest xs
    → AllCame script xs
AllCame-LeftOf script rest [] left all = tt
AllCame-LeftOf script rest (x ∷ xs) left all =
    (left (some (Response.mission_item x)) all.0, AllCame-LeftOf script rest xs left all.1)

module _ (target : Target) (mission_type : ℕ) where
  -- One request for each of `left` sequence numbers from `seq` on.
  pub requests : ℕ → ℕ → List Message
  requests zero seq = []
  requests (suc left) seq =
      encode_mission_request_int target (seq % 2 ^ 16) mission_type ∷ requests left (suc seq)

module _ (answer : ℕ → Option WriteError) (target : Target) (mission_type : ℕ) where
  abbrev pub Fetched : ℕ → ℕ → List MissionItem → Wire → List MissionItem → Wire → Type 0
  Fetched left seq items w items' w₁ =
      (xs : List MissionItem) × (items' ≡ items ++ xs)
      × Numbered seq xs
      × (length xs ≡ left)
      × AllCame w.arrivals xs
      × (w₁.written ≡ w.written ++ requests target mission_type left seq)
      × LeftOf w.arrivals w₁.arrivals

  -- A successful wait for an item writes nothing and takes the item asked for from the script.
  abbrev ItemRead : ℕ → Wire → MissionItem → Wire → Type 0
  ItemRead seq w x w₁ =
      (w₁.written ≡ w.written)
      × (x.seq ≡ seq)
      × Came (some (Response.mission_item x)) w.arrivals
      × LeftOf w.arrivals w₁.arrivals

  read-ItemRead :
      (seq count : ℕ) (w : Wire) → Post (ItemRead seq w) (reading (await_item seq count) w)
  unfolding await_item
  read-ItemRead seq count w = Post-reading (ItemRead seq w) (await_item seq count) w (
      Got-map _ _ (await_item seq count w.arrivals)
        (await-Accepted (item_verdict seq count) w.arrivals)
        (λ x rest h.
          let v = item_verdict-accept seq count h.0 x h.1 in (refl, v.1, rw v.0 at h.2, h.3)))

  -- One round of the loop in front of the rounds that follow.
  extend-Fetched :
      (left seq : ℕ) (items : List MissionItem) (w w₁ w₂ : Wire) (x : MissionItem)
      → w₁ ≡ record w {
        written = w.written ++ (encode_mission_request_int target (seq % 2 ^ 16) mission_type ∷ []);
      }
      → ItemRead seq w₁ x w₂
      → (items' : List MissionItem) (w₃ : Wire)
      → Fetched left (suc seq) (items ++ (x ∷ [])) w₂ items' w₃
      → Fetched (suc left) seq items w items' w₃
  unfolding requests
  extend-Fetched left seq items w w₁ w₂ x e r items' w₃ f = (
    x ∷ f.0,
    f.1 ∙ append_assoc items (x ∷ []) f.0,
    (r.1, f.2),
    ap suc f.3,
    (
      rw (ap (λ v. v.arrivals) e) at r.2,
      AllCame-LeftOf w.arrivals w₂.arrivals f.0 (rw (ap (λ v. v.arrivals) e) at r.3) f.4,
    ),
    f.5
        ∙ ap (λ v. v ++ requests target mission_type left (suc seq)) (r.0 ∙ ap (λ v. v.written) e)
        ∙ append_assoc w.written _ _,
    λ p c. (rw (ap (λ v. v.arrivals) e) at r.3) p (f.6 p c),
  )

  pub fetch-Fetched :
      (count left seq : ℕ) (items : List MissionItem) (w : Wire)
      → Post (Fetched left seq items w) (fetch answer target mission_type count left seq items w)
  unfolding fetch requests
  fetch-Fetched count zero seq items w =
      ([], sym (append-nil items), tt, refl, tt, sym (append-nil w.written), λ p c. c)
  fetch-Fetched count (suc left) seq items w =
      let msg = encode_mission_request_int target (seq % 2 ^ 16) mission_type in
      let goal = Fetched (suc left) seq items w in
      let rest = λ (x : MissionItem).
        fetch answer target mission_type count left (suc seq) (items ++ (x ∷ [])) in
      Post-resume (λ _ w₁. w₁ ≡ record w { written = w.written ++ (msg ∷ []) }) goal
        (λ _. reading (await_item seq count) >>= rest) (write answer target mission_type msg w)
        (write-Post answer target mission_type msg w)
        (λ _ w₁ e.
          Post-resume (ItemRead seq w₁) goal rest (reading (await_item seq count) w₁)
            (read-ItemRead seq count w₁)
            (λ x w₂ r.
              Post-map (Fetched left (suc seq) (items ++ (x ∷ [])) w₂) goal (rest x w₂)
                (fetch-Fetched count left (suc seq) (items ++ (x ∷ [])) w₂)
                (extend-Fetched left seq items w w₁ w₂ x e r)))
