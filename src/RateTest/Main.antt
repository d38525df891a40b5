-- ===== src/RateTest/Main.antt =====
-- A whole run of DevOps/nginx/rate-limit/rate-test.py.
use dev_llmops.Prelude.{
  ℕ, zero, suc, ◌<◌, ◌≡◌, refl, ap, sym, subst, ◌∙◌, ◌↔◌, Bool, true, false, String, Option, some,
  List, [], ◌∷◌, ◌++◌, map, append_assoc, append-nil, arith, length, leb, ◌||◌, ltb→lt,
}
use dev_llmops.Prelude.Text.{is_empty}
use dev_llmops.RateTest.Stats.{Reals}
use dev_llmops.RateTest.Report.{CaseResult, Outcome, print_report}
use dev_llmops.RateTest.Requests.{
  Reply, answered, http_error, url_error, cert_error, other_error, Context, Args, Request,
  case_result, build_ssl_context, single_request, collect, run_benchmark, main,
}

-- The replies of a success: an answer with a status below 400.
abbrev pub Succeeds : Reply → Type 0
Succeeds (answered status) = status < 400
Succeeds (http_error code body) = ⊥
Succeeds (url_error reason) = ⊥
Succeeds (cert_error e) = ⊥
Succeeds (other_error e) = ⊥

-- The status that a reply has, 0 where it has none.
abbrev pub status_of : Reply → ℕ
status_of (answered status) = status
status_of (http_error code body) = code
status_of (url_error reason) = 0
status_of (cert_error e) = 0
status_of (other_error e) = 0

-- A result against the reply to its request.
pub record IsConsistent {F : Type 0} (reply : Reply) (r : CaseResult F) : Type 0 where
  pub success : (r.ok ≡ true) ↔ Succeeds reply
  pub status : r.status_code ≡ status_of reply
  pub no_error : r.ok ≡ true → r.error ≡ ""

case_result-IsConsistent :
    {F : Type 0} (reply : Reply) (latency_s : F) → IsConsistent reply (case_result reply latency_s)
unfolding case_result
case_result-IsConsistent (answered status) latency_s = record {
  success = (λ h. ltb→lt status 400 h, λ h. ground arith);
  status = refl;
  no_error = λ h. refl;
}
case_result-IsConsistent (http_error code body) latency_s = record {
  success = (λ h. absurd (ground arith), λ h. absurd h);
  status = refl;
  no_error = λ h. absurd (ground arith);
}
case_result-IsConsistent (url_error reason) latency_s = record {
  success = (λ h. absurd (ground arith), λ h. absurd h);
  status = refl;
  no_error = λ h. absurd (ground arith);
}
case_result-IsConsistent (cert_error e) latency_s = record {
  success = (λ h. absurd (ground arith), λ h. absurd h);
  status = refl;
  no_error = λ h. absurd (ground arith);
}
case_result-IsConsistent (other_error e) latency_s = record {
  success = (λ h. absurd (ground arith), λ h. absurd h);
  status = refl;
  no_error = λ h. absurd (ground arith);
}

-- Results that are consistent with replies, one with one, in order.
abbrev pub AreConsistent : {F : Type 0} → List Reply → List (CaseResult F) → Type 0
AreConsistent [] [] = Unit
AreConsistent [] (r ∷ rs) = ⊥
AreConsistent (reply ∷ replies) [] = ⊥
AreConsistent (reply ∷ replies) (r ∷ rs) = IsConsistent reply r × AreConsistent replies rs

AreConsistent-append :
    {F : Type 0} (replies more : List Reply) (rs ss : List (CaseResult F))
    → AreConsistent replies rs
    → AreConsistent more ss
    → AreConsistent (replies ++ more) (rs ++ ss)
AreConsistent-append [] more [] ss h g = g
AreConsistent-append [] more (r ∷ rs) ss h g = absurd h
AreConsistent-append (reply ∷ replies) more [] ss h g = absurd h
AreConsistent-append (reply ∷ replies) more (r ∷ rs) ss (one, h) g =
    (one, AreConsistent-append replies more rs ss h g)

AreConsistent-length :
    {F : Type 0} (replies : List Reply) (rs : List (CaseResult F))
    → AreConsistent replies rs
    → length rs ≡ length replies
AreConsistent-length [] [] h = refl
AreConsistent-length [] (r ∷ rs) h = absurd h
AreConsistent-length (reply ∷ replies) [] h = absurd h
AreConsistent-length (reply ∷ replies) (r ∷ rs) (one, h) =
    ap suc (AreConsistent-length replies rs h)

-- The guards and the settings of a run that sends its requests.
pub record IsReady {F : Type 0} (valid_url : String → Bool) (loads : String → Bool)
    (certifi_where : Option String) (args : Args F) (ssl_context : Context) : Type 0 where
  pub token : is_empty args.token ≡ false
  pub total : 0 < args.total
  pub concurrency : 0 < args.concurrency
  pub tls :
      build_ssl_context loads certifi_where args.ca_bundle args.insecure_skip_verify
      ≡ some ssl_context
  pub url : valid_url args.url ≡ true

-- `log` reads from a world the requests that were sent, each with the reply to it.
module _ {F S : Type 0} (reals : Reals F) (urlopen : Request → F → Context → S → Reply × S)
    (perf_counter : S → F × S) (valid_url : String → Bool) (log : S → List (Request × Reply))
    (sends : (req : Request) (timeout : F) (ssl_context : Context) (w : S)
      → log (urlopen req timeout ssl_context w).1
        ≡ log w ++ (req, (urlopen req timeout ssl_context w).0) ∷ [])
    (looks : (w : S) → log (perf_counter w).1 ≡ log w) where
  -- `n` more exchanges of a request since the world `w`, with results after those of `before`.
  abbrev Gathered : ℕ → Request → List Reply → S → Option (List (CaseResult F)) × S → Type 0
  Gathered n req before w (results, w') =
      (replies : List Reply) × (rs : List (CaseResult F)) × (results ≡ some rs)
      × (length replies ≡ n)
      × AreConsistent (before ++ replies) rs
      × (log w' ≡ log w ++ map (λ reply. (req, reply)) replies)

  single_request-valid :
      (req : Request) (timeout : F) (ssl_context : Context) (w : S)
      → valid_url req.url ≡ true
      → let single : Option (CaseResult F) × S =
          single_request reals urlopen perf_counter valid_url req timeout ssl_context w in
        (reply : Reply) × (r : CaseResult F) × (single.0 ≡ some r)
        × IsConsistent reply r
        × (log single.1 ≡ log w ++ (req, reply) ∷ [])
  unfolding single_request
  single_request-valid req timeout ssl_context w valid =
      let w1 = (perf_counter w).1 in
      let (reply, w2) = urlopen req timeout ssl_context w1 in
      let latency_s = reals.sub (perf_counter w2).0 (perf_counter w).0 in
      let logged : log (perf_counter w2).1 ≡ log w ++ (req, reply) ∷ [] =
        looks w2
        ∙ sends req timeout ssl_context w1
        ∙ ap (λ (l : List (Request × Reply)). l ++ (req, reply) ∷ []) (looks w) in
      rw valid
        (reply, case_result reply latency_s, refl, case_result-IsConsistent reply latency_s, logged)

  collect-Gathered :
      (n : ℕ) (req : Request) (timeout : F) (ssl_context : Context) (results : List (CaseResult F))
      (before : List Reply) (w : S)
      → valid_url req.url ≡ true
      → AreConsistent before results
      → Gathered n req before w
          (collect reals urlopen perf_counter valid_url n req timeout ssl_context results w)
  unfolding collect single_request
  collect-Gathered zero req timeout ssl_context results before w valid h = (
    [],
    results,
    refl,
    refl,
    subst (λ rs. AreConsistent rs results) (sym (append-nil before)) h,
    sym (append-nil (log w)),
  )
  collect-Gathered (suc n) req timeout ssl_context results before w valid h =
      let (reply, r, one, good, logged) = single_request-valid req timeout ssl_context w valid in
      let w' = (single_request reals urlopen perf_counter valid_url req timeout ssl_context w).1 in
      let (replies, rs, made, size, all, more) =
        collect-Gathered n req timeout ssl_context (results ++ r ∷ []) (before ++ reply ∷ []) w'
          valid (AreConsistent-append before (reply ∷ []) results (r ∷ []) h (good, tt)) in
      let pairs : List (Request × Reply) = map (λ x. (req, x)) replies in
      rw (one, collect)
        (
          reply ∷ replies,
          rs,
          made,
          omega (arith, size),
          subst (λ xs. AreConsistent xs rs) (append_assoc before (reply ∷ []) replies) all,
          more
              ∙ ap (λ (l : List (Request × Reply)). l ++ pairs) logged
              ∙ append_assoc (log w) ((req, reply) ∷ []) pairs,
        )

  -- With a token, positive numbers, certificates that load and a valid address, a run sends exactly
  -- `total` requests, each with the address, the token, the model and the prompt of the arguments,
  -- whatever they are answered. It prints the report on exactly that many results, one for each reply
  -- received, in order: a result is a success exactly where its reply is an answer with a status below
  -- 400, and then it has no error text; its status is that of the reply, or 0 where that has none.
  pub main-reports :
      (loads : String → Bool) (certifi_where : Option String) (args : Args F)
      (ssl_context : Context) (w : S)
      → IsReady valid_url loads certifi_where args ssl_context
      → let run : Outcome F × S =
          main reals urlopen perf_counter valid_url loads certifi_where args w in
        let req : Request = record {
          url = args.url;
          token = args.token;
          model = args.model;
          prompt = args.prompt;
        } in
        (replies : List Reply) × (rs : List (CaseResult F)) × (wall_time_s : F) × (run.0
          ≡ print_report reals rs wall_time_s)
        × (length rs ≡ args.total)
        × (length replies ≡ args.total)
        × AreConsistent replies rs
        × (log run.1 ≡ log w ++ map (λ reply. (req, reply)) replies)
  unfolding main run_benchmark
  main-reports loads certifi_where args ssl_context w ready =
      let (t0, w1) = perf_counter w in
      let req : Request = record {
        url = args.url;
        token = args.token;
        model = args.model;
        prompt = args.prompt;
      } in
      let ran =
        collect reals urlopen perf_counter valid_url args.total req args.timeout ssl_context []
          w1 in
      let (replies, rs, made, size, all, logged) =
        collect-Gathered args.total req args.timeout ssl_context [] [] w1 ready.url tt in
      let positive : (leb args.total 0 || leb args.concurrency 0) ≡ false =
        ground (arith, ready.total, ready.concurrency) in
      rw (ready.token, positive, ready.tls, made, main)
        (
          replies,
          rs,
          reals.sub (perf_counter ran.1).0 t0,
          refl,
          AreConsistent-length replies rs all ∙ size,
          size,
          all,
          looks ran.1
              ∙ logged
              ∙ ap (λ (l : List (Request × Reply)). l ++ map (λ reply. (req, reply)) replies)
                  (looks w),
        )
