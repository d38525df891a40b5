-- ===== src/RateTest/Requests.antt =====
-- The requests and `main` of DevOps/nginx/rate-limit/rate-test.py.
use dev_llmops.Prelude.{
  ℕ, zero, suc, String, Bool, false, not, ◌||◌, Option, none, some, List, [], ◌∷◌, ◌++◌,
  if◌then◌else◌, ltb, leb,
}
use dev_llmops.Prelude.Text.{text, is_empty}
use dev_llmops.RateTest.Stats.{Reals}
use dev_llmops.RateTest.Report.{CaseResult, Outcome, exits, raises, print_report}

-- What `urlopen` and the read of its answer do; the exceptions come with their texts, and an HTTPError
-- with its body, where that could be read.
pub data Reply : Type 0 where
  answered : ℕ → Reply
  http_error : ℕ → Option String → Reply
  url_error : String → Reply
  cert_error : String → Reply
  other_error : String → Reply

pub data Context : Type 0 where
  unverified : Context
  verified : String → Context
  verified_by_system : Context

pub record Args (F : Type 0) : Type 0 where
  pub url : String
  pub model : String
  pub prompt : String
  pub total : ℕ
  pub concurrency : ℕ
  pub timeout : F
  pub ca_bundle : String
  pub insecure_skip_verify : Bool
  pub token : String

-- The request that is sent: its address, its token, and the model and prompt of its payload.
pub record Request : Type 0 where
  pub url : String
  pub token : String
  pub model : String
  pub prompt : String

-- s[:n]
unfoldable pub first_chars : ℕ → String → String
first_chars zero s = ""
first_chars (suc n) String.[] = ""
first_chars (suc n) (String.◌∷◌ c s) = String.◌∷◌ c (first_chars n s)

-- The result of a request, by its reply and the time it took. An HTTPError is a URLError too, but its
-- clause comes first.
unfoldable pub case_result : {F : Type 0} → Reply → F → CaseResult F
unfolding first_chars text
case_result (answered status) latency_s = record {
  status_code = status;
  latency_s = latency_s;
  ok = ltb status 400;
  error = "";
}
case_result (http_error code body) latency_s = record {
  status_code = code;
  latency_s = latency_s;
  ok = false;
  error = elim body [ none ↦ "" | some b ↦ first_chars 200 b ];
}
case_result (url_error reason) latency_s = record {
  status_code = 0;
  latency_s = latency_s;
  ok = false;
  error = reason;
}
case_result (cert_error e) latency_s = record {
  status_code = 0;
  latency_s = latency_s;
  ok = false;
  error = text ("SSL verify failed: " ∷ e ∷ []);
}
case_result (other_error e) latency_s = record {
  status_code = 0;
  latency_s = latency_s;
  ok = false;
  error = e;
}

-- The TLS settings; none where loading the certificates raises. `certifi_where` is what the package
-- certifi names, none where it cannot be used.
unfoldable pub build_ssl_context : (String → Bool) → Option String → String → Bool → Option Context
unfolding is_empty
build_ssl_context loads certifi_where ca_bundle insecure_skip_verify =
    if insecure_skip_verify
    then some unverified
    else if not (is_empty ca_bundle)
    then (if loads ca_bundle then some (verified ca_bundle) else none)
    else elim certifi_where [
      | none ↦ some verified_by_system
      | some file ↦ if loads file then some (verified file) else some verified_by_system
    ]

-- `urlopen` and `time.perf_counter` on the state of the outside world.
module _ {F S : Type 0} (reals : Reals F) (urlopen : Request → F → Context → S → Reply × S)
    (perf_counter : S → F × S) (valid_url : String → Bool) where
  open reals use {sub}

  -- Making the request raises where the address is none.
  unfoldable pub single_request : Request → F → Context → S → Option (CaseResult F) × S
  unfolding case_result
  single_request req timeout ssl_context w =
      let (start, w1) = perf_counter w in
      let (reply, w2) = urlopen req timeout ssl_context w1 in
      let (end_time, w3) = perf_counter w2 in
      if valid_url req.url then (some (case_result reply (sub end_time start)), w3) else (none, w)

  -- The results in the order in which the requests are completed, as if they ran in that order; the
  -- program raises what the first of them raises.
  unfoldable pub collect :
      ℕ → Request → F → Context → List (CaseResult F) → S → Option (List (CaseResult F)) × S
  unfolding single_request
  collect zero req timeout ssl_context results w = (some results, w)
  collect (suc n) req timeout ssl_context results w =
      let (result, w') = single_request req timeout ssl_context w in
      elim result [
        | none ↦ (none, w')
        | some r ↦ collect n req timeout ssl_context (results ++ r ∷ []) w'
      ]

  unfoldable pub run_benchmark : Args F → Context → S → Option (List (CaseResult F)) × S
  unfolding collect
  run_benchmark args ssl_context w =
      let req : Request = record {
        url = args.url;
        token = args.token;
        model = args.model;
        prompt = args.prompt;
      } in
      collect args.total req args.timeout ssl_context [] w

  -- `main`, after the arguments are read; the numbers are not negative.
  unfoldable pub main : (String → Bool) → Option String → Args F → S → Outcome F × S
  unfolding run_benchmark print_report build_ssl_context is_empty
  main loads certifi_where args w =
      if is_empty args.token
      then (exits "请提供 --token 或设置环境变量 OPENAI_API_KEY", w)
      else if leb args.total 0 || leb args.concurrency 0
      then (exits "--total 和 --concurrency 必须 > 0", w)
      else elim (build_ssl_context loads certifi_where args.ca_bundle args.insecure_skip_verify) [
        | none ↦ (raises, w)
        | some ssl_context ↦
            let (t0, w1) = perf_counter w in
            let (results, w2) = run_benchmark args ssl_context w1 in
            let (t1, w3) = perf_counter w2 in
            elim results [ none ↦ (raises, w2) | some rs ↦ (print_report reals rs (sub t1 t0), w3) ]
      ]
