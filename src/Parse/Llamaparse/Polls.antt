-- ===== src/Parse/Llamaparse/Polls.antt =====
-- How often the LlamaParse parser asks for the state of a job.
use wyndpy.Base.{
  ℕ, zero, suc, ◌+◌, ◌≤◌, String, ◌<>◌, List, [], Bool, false, string_eq, ◌≡◌, inl, inr, arith,
}
use wyndpy.Base.Reply.{Reply, ok, raised, ◌>>=◌, Reply-cases}
use wyndpy.Base.Value.{Float, Value, print}
use wyndpy.Core.Results.{Bytes}
use wyndpy.Fetch.Network.{Platform, Http, using_client}
use wyndpy.Parse.Llamaparse.{
  LlamaParseParser, poll_interval, max_polls, job_url, checked_json, state_of, on_state, poll,
  after_upload, parse_live,
}

module _ {W C : Type 0} (os : Platform W) (http : Http W C) where
  -- A count of GETs: each adds one at most, and nothing else does.
  pub record CountsGets (count : W → ℕ) : Type 0 where
    pub get :
        (c : C) (url : String) (headers : List (String × String)) (w : W)
        → count (http.get c url headers w).1 ≤ suc (count w)
    pub sleep : (n : ℕ) (w : W) → count (os.sleep n w).1 ≡ count w
    pub create :
        (timeout_s : Float) (headers : List (String × String)) (redirects : Bool) (w : W)
        → count (http.new_client timeout_s headers redirects w).1 ≡ count w
    pub upload :
        (c : C) (url : String) (headers : List (String × String)) (filename : String) (doc : Bytes)
        (mime : String) (w : W)
        → count (http.upload c url headers filename doc mime w).1 ≡ count w
    pub aclose : (c : C) (w : W) → count (http.aclose c w).1 ≡ count w

  on_state-le :
      (count : W → ℕ) (c : C) (headers : List (String × String)) (job_id : String) (n : ℕ)
      (rest : W → Reply String × W) (state : Reply String) (w : W)
      → CountsGets count
      → ((v : W) → count (rest v).1 ≤ n + count v + 1)
      → count (on_state os http c headers job_id rest state w).1 ≤ n + count w + 1
  unfolding on_state
  on_state-le count c headers job_id n rest (raised e) w g others = omega arith
  on_state-le count c headers job_id n rest (ok state) w g others =
      let page = http.get c (job_url job_id <> "/result/markdown") headers w in
      let slept = os.sleep poll_interval w in
      elim (Reply-cases slept.0) [
        | inl (u, done) ↦ ground (
          arith,
          g.get c (job_url job_id <> "/result/markdown") headers w,
          g.sleep poll_interval w,
          others slept.1,
          done,
        )
        | inr (e, broken) ↦ ground (
          arith,
          g.get c (job_url job_id <> "/result/markdown") headers w,
          g.sleep poll_interval w,
          broken,
        )
      ]

  poll-le :
      (count : W → ℕ) (c : C) (headers : List (String × String)) (job_id : String) (n : ℕ) (w : W)
      → CountsGets count
      → count (poll os http c headers job_id n w).1 ≤ n + count w + 1
  unfolding poll
  poll-le count c headers job_id zero w g = omega arith
  poll-le count c headers job_id (suc n) w g =
      let status = http.get c (job_url job_id) headers w in
      let later =
        on_state-le count c headers job_id n (poll os http c headers job_id n)
          (do body ← checked_json status.0; state_of os http body) status.1 g
          (λ v. poll-le count c headers job_id n v g) in
      omega (arith, later, g.get c (job_url job_id) headers w)

  after_upload-le :
      (count : W → ℕ) (c : C) (headers : List (String × String)) (job : Reply Value) (w : W)
      → CountsGets count
      → count (after_upload os http c headers job w).1 ≤ max_polls + count w + 1
  unfolding after_upload
  after_upload-le count c headers (raised e) w g = omega arith
  after_upload-le count c headers (ok job_id) w g =
      ground (arith, poll-le count c headers (print os.repr job_id) max_polls w g)

  using_client-le :
      {A : Type 0} (count : W → ℕ) (timeout_s : Float) (body : C → W → Reply A × W) (n : ℕ) (w : W)
      → CountsGets count
      → ((c : C) (v : W) → count (body c v).1 ≤ n + count v)
      → count (using_client http timeout_s body w).1 ≤ n + count w
  unfolding using_client
  using_client-le count timeout_s body n w g inside =
      let (c, w1) = http.new_client timeout_s [] false w in
      omega (arith, g.create timeout_s [] false w, inside c w1, g.aclose c (body c w1).1)

  upload-le :
      (count : W → ℕ) (c : C) (url : String) (headers : List (String × String)) (filename : String)
      (doc : Bytes) (mime : String) (job : Reply Value) (v : W)
      → CountsGets count
      → count
          (after_upload os http c headers job (http.upload c url headers filename doc mime v).1).1
        ≤ 46 + count v
  upload-le count c url headers filename doc mime job v g =
      let uploaded = http.upload c url headers filename doc mime v in
      omega (
        arith,
        after_upload-le count c headers job uploaded.1 g,
        g.upload c url headers filename doc mime v,
      )

  -- One run of `_parse_live` makes at most 46 GETs, one for each poll and one for the markdown,
  -- whatever the API answers.
  pub parse_live-le :
      (count : W → ℕ) (p : LlamaParseParser W) (doc : Bytes) (mime_type : String) (w : W)
      → CountsGets count
      → count (parse_live os http p doc mime_type w).1 ≤ 46 + count w
  unfolding parse_live
  parse_live-le count p doc mime_type w g =
      using_client-le count p.timeout_s _ 46 w g (λ c v. upload-le count c _ _ _ doc _ _ v g)
