-- ===== src/Mission/Sound.antt =====
-- What a successful download of internal/mission/coordinator.go returns and has written.
use mathlib.Core.List.{append_assoc}
use yalb_link.Prelude.{ℕ, ◌≡◌, ◌∙◌, refl, sym, ap, Option, some, List, [], ◌∷◌, ◌++◌, length}
use yalb_link.Codec.{Target}
use yalb_link.Codec.Encode.{encode_mission_request_list, encode_mission_ack}
use yalb_link.Proto.{Timestamp}
use yalb_link.Proto.Transactions.{Response, MissionItem, MissionCount, MissionSnapshot}
use yalb_link.Codec.{WriteError}
use yalb_link.Mission.Transfer.{
  Wire, ok, pure, ◌>>=◌, ◌>>◌, reading, mission_accepted, await_count, write, fetch, run,
  count_verdict,
}
use yalb_link.Mission.Script.{
  Post, Post-resume, Post-eq, Post-reading, Came, LeftOf, Got-map, await-Accepted,
  count_verdict-accept, write-Post,
}
use yalb_link.Mission.Fetch.{Numbered, AllCame, AllCame-LeftOf, requests, Fetched, fetch-Fetched}

module _ (answer : ℕ → Option WriteError) (target : Target) (mission_type : ℕ) where
  -- A successful wait for the count.
  abbrev CountRead : Wire → ℕ → Wire → Type 0
  CountRead w n w₁ =
      (w₁.written ≡ w.written)
      × ((m : MissionCount) × Came (some (Response.mission_count m)) w.arrivals × (m.count ≡ n))
      × LeftOf w.arrivals w₁.arrivals

  read-CountRead : (w : Wire) → Post (CountRead w) (reading await_count w)
  unfolding await_count
  read-CountRead w = Post-reading (CountRead w) await_count w (
      Got-map _ _ (await_count w.arrivals) (await-Accepted count_verdict w.arrivals) (λ n rest h.
        let (m, e, c) = count_verdict-accept h.0 n h.1 in (refl, (m, rw e at h.2, c), h.3)))

  -- What a download has done when it succeeds.
  pub record Downloaded (now : Timestamp) (w : Wire) (snap : MissionSnapshot) (w' : Wire)
      : Type 0 where
    pub of_vehicle :
        snap.vehicle_id
        ≡ record { system_id = target.system_id; component_id = target.component_id }
    pub of_type : snap.mission_type ≡ mission_type
    pub at_time : snap.observed_at ≡ now
    pub numbered : Numbered 0 snap.items
    pub all_came : AllCame w.arrivals snap.items
    pub advertised :
        (m : MissionCount) × Came (some (Response.mission_count m)) w.arrivals
        × (m.count ≡ length snap.items)
    pub exchange :
        w'.written
        ≡ w.written
          ++ (encode_mission_request_list target mission_type
              ∷ (requests target mission_type (length snap.items) 0
                  ++ (encode_mission_ack target mission_accepted mission_type ∷ [])))

  exchanged :
      (w w₁ w₂ w₃ w₄ : Wire) (count : ℕ) (items : List MissionItem)
      → w₁
        ≡ record w { written = w.written ++ (encode_mission_request_list target mission_type ∷ []) }
      → w₂.written ≡ w₁.written
      → w₃.written ≡ w₂.written ++ requests target mission_type count 0
      → w₄ ≡ record w₃ {
        written = w₃.written ++ (encode_mission_ack target mission_accepted mission_type ∷ []);
      }
      → length items ≡ count
      → w₄.written
        ≡ w.written
          ++ (encode_mission_request_list target mission_type
              ∷ (requests target mission_type (length items) 0
                  ++ (encode_mission_ack target mission_accepted mission_type ∷ [])))
  exchanged w w₁ w₂ w₃ w₄ count items e c f g n = rw n (
      ap (λ v. v.written) g
      ∙ ap (λ v. v ++ (encode_mission_ack target mission_accepted mission_type ∷ []))
          (f ∙ ap (λ v. v ++ requests target mission_type count 0) (c ∙ ap (λ v. v.written) e))
      ∙ simp append_assoc)

  downloaded :
      (now : Timestamp) (w w₁ w₂ w₃ w₄ : Wire) (count : ℕ) (items : List MissionItem)
      → w₁
        ≡ record w { written = w.written ++ (encode_mission_request_list target mission_type ∷ []) }
      → CountRead w₁ count w₂
      → Fetched answer target mission_type count 0 [] w₂ items w₃
      → w₄ ≡ record w₃ {
        written = w₃.written ++ (encode_mission_ack target mission_accepted mission_type ∷ []);
      }
      → Downloaded now w
          (record {
            vehicle_id = record {
              system_id = target.system_id;
              component_id = target.component_id;
            };
            mission_type = mission_type;
            items = items;
            observed_at = now;
          })
          w₄
  downloaded now w w₁ w₂ w₃ w₄ count items e c f g =
      let same = ap (λ v. v.arrivals) e in
      let full : length items ≡ count = rw f.1 f.3 in
      record {
        of_vehicle = refl;
        of_type = refl;
        at_time = refl;
        numbered = rw f.1 f.2;
        all_came = rw (← same) (AllCame-LeftOf w₁.arrivals w₂.arrivals items c.2 (rw f.1 f.4));
        advertised = (c.1.0, rw same at c.1.1, c.1.2 ∙ sym full);
        exchange = exchanged w w₁ w₂ w₃ w₄ count items e c.0 f.5 g full;
      }

  run-Downloaded :
      (now : Timestamp) (w : Wire) → Post (Downloaded now w) (run answer target mission_type now w)
  unfolding run
  run-Downloaded now w =
      let opening = encode_mission_request_list target mission_type in
      let closing = encode_mission_ack target mission_accepted mission_type in
      let goal = Downloaded now w in
      let finish = λ (items : List MissionItem).
        write answer target mission_type closing
        >> pure (record {
          vehicle_id = record { system_id = target.system_id; component_id = target.component_id };
          mission_type = mission_type;
          items = items;
          observed_at = now;
        }) in
      let loop = λ (count : ℕ). fetch answer target mission_type count count 0 [] >>= finish in
      Post-resume (λ _ w₁. w₁ ≡ record w { written = w.written ++ (opening ∷ []) }) goal
        (λ _. reading await_count >>= loop) (write answer target mission_type opening w)
        (write-Post answer target mission_type opening w)
        (λ _ w₁ e.
          Post-resume (CountRead w₁) goal loop (reading await_count w₁) (read-CountRead w₁)
            (λ count w₂ c.
              Post-resume (Fetched answer target mission_type count 0 [] w₂) goal finish
                (fetch answer target mission_type count count 0 [] w₂)
                (fetch-Fetched answer target mission_type count count 0 [] w₂)
                (λ items w₃ f.
                  Post-resume (λ _ w₄. w₄ ≡ record w₃ { written = w₃.written ++ (closing ∷ []) })
                    goal _ (write answer target mission_type closing w₃)
                    (write-Post answer target mission_type closing w₃)
                    (λ _ w₄ g. downloaded now w w₁ w₂ w₃ w₄ count items e c f g))))

  -- A download that succeeds has sent the request list, then one request for each item of the
  -- advertised count in order, then the acknowledgement, and nothing else; its snapshot holds exactly
  -- that many items, numbered from 0 in order, each of them carried by a response that came, under the
  -- identity and the mission type it was asked for.
  pub run_sound :
      (now : Timestamp) (w w' : Wire) (snap : MissionSnapshot)
      → run answer target mission_type now w ≡ (ok snap, w')
      → Downloaded now w snap w'
  run_sound now w w' snap e =
      Post-eq (Downloaded now w) (run answer target mission_type now w) e (run-Downloaded now w)
