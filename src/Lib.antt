-- ===== src/Lib.antt =====
-- A verification library of seven programs of this repository. They do not call each other.
--
-- 1. LLMOps/Benchmark/llm-perf-eval.py measures a language model that is served by an engine. It
--    reads a benchmark and a model configuration, starts the model with the command of each engine,
--    checks its health, runs benchmarks, and writes a workbook. In mode 2 it looks for the largest
--    concurrency at which each context meets the SLO.
--      PerfEval/Search.antt   `_search_max_concurrency`, `_binary_step`, `_stopn_step`. A state record
--        holds the local variables of the loop; `step` is one of the two step functions; `loop` is the
--        `while` loop on fuel, and `none` means that the fuel ran out. Search/Exact.antt and
--        Search/Finite.antt give fuels that are enough: `init + 3 * k + stop_n + 2` at a service that
--        passes up to `k`, and `max_concurrent + 2` at any service. Search/Bracket.antt,
--        Search/Report.antt and Search/Keeps.antt have the lemmas.
--      PerfEval/Args.antt     `parse_model_cmd_args`, `apply_override_args`, `_cmds_are_equivalent`,
--        `collect_all_param_keys`. `shlex.split` is a parameter. Args/Settings.antt and
--        Args/Override.antt see the indexed arguments as a map, Args/Kept.antt is about those that are
--        left to be printed; Args/Tokens.antt is about tokens with
--        an `=`.
--      PerfEval/Config.antt   `_apply_defaults`, the cases of mode 1, the criteria of
--        `_parse_mode2_slo`, `check_slo_criteria`. Floats, `parse_time` and `float` are parameters.
--      PerfEval/Manager.antt  `ModelManager`; `subprocess.run`, the request of
--        the health check and `sleep` are parameters on the state of the outside world.
--        Manager/Quoting.antt reads a quoted command as a shell does; Manager/Health.antt is about the
--        tries of the health check.
--      PerfEval/Mode1.antt    `run_mode1` as a history of steps, the newest first; what the service
--        answers is a function of the history. Mode1/Sheets.antt reads the sheets off a history.
--      PerfEval/Mode2.antt    the contexts of one command in `run_mode2`; Mode2/Engines.antt has
--        `bench_only` and the loops over commands and engines. What the program does to the service
--        and the workbook is a history of events (PerfEval/Events.antt), newest first, and what the
--        service answers is a function of the history. It uses Search and Args as the source does. A
--        search on its fuel that does not end, or a split that raises, ends the run; with a
--        `max_concurrent` the fuel `max_concurrent + 2` is enough. Mode2/Phases.antt,
--        Mode2/Orderly.antt and Mode2/Closed.antt replay a history for Mode2/Whole.antt;
--        Mode2/Meant.antt and Mode2/Overridden.antt are about the commands that its benchmarks have;
--        Mode2/Rows.antt and Mode2/Contexts.antt read the rows of the summary off it for
--        Mode2/Complete.antt; Args/Total.antt is about splits that do not raise.
--      PerfEval/Workbook.antt sheets as lists of rows, and `Mode1ResultWriter`; PerfEval/Writer.antt
--        `Mode2ResultWriter`: its state and detail sheets, Writer/Highlight.antt
--        `highlight_best_rows`, Writer/Summaries.antt `write_all_summaries`. The title that openpyxl gives
--        a sheet is a parameter. Writer/Marks.antt, Writer/Arranged.antt and Writer/Written.antt are
--        about the marks and the summaries.
--      PerfEval/Book.antt     the writer's calls for the events of mode 2, which join Mode2 and Writer;
--        Book/Named.antt and Book/Runs.antt are about the engines that a run names, Book/Tracks.antt and
--        Book/Kept.antt about what the writer keeps, Book/Complete.antt about a whole run
--      PerfEval/Values.antt   YAML values and metrics, with floats as a parameter; PerfEval/Measures.antt
--        `_extract_metrics` and `_parse_metrics`; PerfEval/Benchmark.antt
--        `run_single_benchmark` and `run_warmup`; PerfEval/Loading.antt, with Loading/Bench.antt,
--        Loading/Engines.antt and Loading/Main.antt, `load_bench_config`, `load_model_config` and `main`
--        up to the run of a mode; Loading/Commands.antt `_parse_container_name`, `_parse_image_name` and
--        `build_full_cmd`
-- 2. k8s-yaml/observe/alert/app.py takes alerts from Alertmanager, gathers them by webhook, name and
--    status, and sends each group as cards once its wait is over.
--      Alert/Types.antt       alerts, settings, and `_alert_buffer` as an association list
--      Alert/Receive.antt     `receive_alert`, from the parsed request on
--      Alert/Flush.antt       one turn of `_flush_loop`: the scan under the lock, the dispatches, and
--        the requeue; Flush/Runs.antt has the runs in which requests come between these steps
--      Alert/Send.antt        `_dispatch_group` and `send_alert`; `requests.post` and `sleep` are
--        parameters on the state of the outside world; the retries recur on the attempts left
--      Alert/Card.antt, Alert/Silence.antt   the cards and the links to Alertmanager's silences;
--        reading times is a parameter
-- 3. LLMOps/monitor/grafana-dashboards/merge-dashboards.py merges three dashboards into one.
--      Dashboard/Panels.antt  panels: flattening, positions, ids, and the three sections of `main`
--      Dashboard/Json.antt    references to variables inside JSON values
--      Dashboard/Vars.antt    `namespace_dashboard_vars` and `merge_template_vars`
--      Dashboard/Merge.antt   `main`, here and in LLMOps/monitor/grafana-dashboard-k8s/, a copy with
--        other targets and files: `main_k8s`
-- 4. k8s-yaml/fake-node-exporter/fake-node-exporter.py simulates the metrics of many nodes.
--      Exporter/Nodes.antt    `expand_node_range`, on a fuel that is the number of `[` in the pattern:
--        each number that is put in takes one away. What `\d` matches is a parameter.
--        Nodes/Matches.antt and Nodes/Search.antt say what a match is and that one is found,
--        Nodes/Count.antt counts the `[`, and Nodes/Expansion.antt puts these together.
--      Exporter/Declared.antt the metrics, with their kinds and labels; Exporter/Arith.antt floats and
--        random draws, as parameters; Exporter/Smooth.antt `SmoothValue`
--      Exporter/State.antt    `NodeState` and `update_static_metrics`; Exporter/Node.antt
--        `update_dynamic_metrics`: what they set is a list of samples, in order
--      Exporter/Update.antt   `MockNodeExporter.__init__`, `update_node_batch`, and a round of
--        `update_metrics_loop`: the workers' steps are interleaved by a list of their numbers, one node's
--        update being a step
-- 5. DevOps/nginx/rate-limit/rate-test.py sends requests to a model and reports on them.
--      RateTest/Stats.antt, RateTest/Report.antt   `percentile`, `Counter` and `print_report`
--      RateTest/Requests.antt `single_request`, `build_ssl_context`, `run_benchmark` and `main`; the
--        requests run one after the other, in the order of their completion
-- 6. LLM/ASR/voxtral-realtime-verify.py checks a speech service.
--      Voxtral.antt           `check_model_registered`, `realtime_transcribe` and `main`. The service is
--        a record of what it answers; its events are a list, whose end is the timeout of the receipt.
-- 7. scripts/huaweicloud/swr-update-repo/swr-update-repo-attr.py makes image repositories public.
--      Registry.antt          `get_repo_list`, `update_repo_attr` and the main program; the client of the
--        cloud is a parameter
--
-- The modules named Tests, CommandTests, ManagerTests, Mode1Tests, Mode2Tests, WriterTests and
-- LoadingTests run definitions at small inputs and
-- apply theorems there.
-- Prelude.antt passes on the shared names; Prelude/Tests.antt has the Boolean tests, Prelude/Lists.antt
-- lists, Prelude/Dict.antt Python's dicts with text keys, Prelude/Text.antt what is used of
-- `str`, Prelude/Sort.antt `sorted`. Prelude/Chunks.antt cuts a list into slices, on a fuel of its length,
-- which is enough as no slice is empty.
--
-- Numbers are natural numbers: Python's integers have no bound, and concurrencies, panel positions and
-- counts are not negative. Times are natural numbers in 1 and 2; the floats of the other programs are
-- parameters. Logging is left out.
--
-- Not modelled: the saving of workbooks (the calls of the writers, like those of the manager, are
-- events of the modes), the reading of files, evalscope, Flask and openpyxl; the servers, command lines and logging of the scripts; audio files, base64,
-- HTTP and websockets; crack/MobaXterm-Keygen, which is third-party; charts, manifests and documents.
pub mod Prelude
pub mod PerfEval
pub mod Alert
pub mod Dashboard
pub mod Exporter
pub mod RateTest
pub mod Voxtral
pub mod Registry
