-- ===== src/Lib.antt =====
-- dds-rtps: validation of the interoperability of DDS implementations.
--
-- The program runs pairs of `shape_main` executables, a publisher and a subscriber of two vendors,
-- reads what they print, and judges it. Its parts are Python:
--
-- - interoperability_report.py chooses the test cases of a suite, completes their parameters, runs
--   one process for each application, and writes the verdict to a JUnit report. A publisher's process
--   saves the samples that it sends; a subscriber's process hands the output to a check function.
-- - test_suite_functions.py holds the check functions. Each reads the output with `expect` until it
--   has seen enough, and returns a `ReturnCode` of rtps_test_utilities.py, which also has
--   `basic_check`, the check that the others begin with.
-- - benchmarking/junit_compare reads the reports again, classifies and counts the results, compares
--   two reports, and groups the reports by the number of parallel runs.
-- - discovery/rtps_discovery_sniffer.py reads the RTPS packets that tshark prints as JSON, collects
--   the participants and endpoints that they announce, and reports on them.
--
-- Which file models what:
--
-- - ReturnCode: the enumeration of rtps_test_utilities.py, its values and names. Samples: `basic_check`,
--   `no_check` and the regular expressions that read a sample.
-- - Regex: Python's `re.search` for the patterns of the sources, with its order of attempts. `\w`,
--   `\s` and `[0-9]` are those of ASCII, which the applications print. Texts: operations of `str`.
-- - Child: `pexpect`, which is not part of the repository. What the calls of `expect` report, in
--   order, is an argument of every model: the index of the pattern and the text `before + after`,
--   TIMEOUT, or EOF. Once the list is used up, each call reports EOF, as a process that has ended
--   does. Outcome: what a function returns, or the exception that it raises.
-- - Checks: test_suite_functions.py. Receivers: `test_size_receivers`, `test_color_receivers`. Ranges:
--   `test_size_less_than_20`, the two durability checks, `test_deadline_missed`, `test_large_data`.
--   Ordering: `test_order_w_instances` and `test_reliability_no_losses_w_instances`, one loop with the
--   comparison of sizes as its argument. EveryTen: the time-based filter. NotAlive: unregistered and
--   disposed instances, one loop with the name of the state as its argument. Lifespan: the lifespan
--   check. Access: `ordered_access_w_instances`. Table, Instances and Readings hold what they share.
--   The lists that the sources keep side by side, with one entry for each color, are one list of
--   pairs here, in the same order.
-- - Report: interoperability_report.py. Publisher: `run_publisher_shape_main`. Subscriber:
--   `run_subscriber_shape_main`. Waiting: the events on which these two wait for each other, as steps
--   of one process at a time; a check that raises an exception sets no event. Handshake: the stages of
--   a process as a table, which its function is compared with. Verdict: `run_test`. Selection: `stop_process`,
--   `are_tests_in_test_suite` and the loop of `main`.
-- - Counts: a dictionary of counts. Numerals: `int`, `float` and the printing of integers.
-- - Junit: benchmarking/junit_compare. Tables and Classify: `parse_outcome_rows` and
--   `classify_outcome` of loader.py. Results and Loading: `TestResult` with its labels of models.py, and
--   `load_results`; what `xml.etree` makes of a file is an argument. Comparison, Differences and
--   Unchanged: `compare` of analyzer.py. Dictionaries: `to_dict` and `from_dict` of report_data.py.
--   Statuses: `StatusSummaryRow`, `_aggregate_statuses` and the totals. Files: file_registry.py; the
--   files of the directory are an argument. Groups: the summaries and the parallel groups of
--   analyzer.py. Explanation and Division: the statistics of explain.py.
-- - Discovery: rtps_discovery_sniffer.py. Json: the values that tshark prints, with `str`, `repr` and
--   `json.dumps`; tshark prints no fractions, truth values or negative numbers. Decode: the decoders of
--   identifiers, versions and masks. Spdp and Participants: `inspect_spdp_node` and the entries of the
--   participants. Sedp: `extract_sedp_endpoints`. Packets: the loop of `parse_discovery_data`. Cases:
--   the verdicts of `generate_junit_report`. Runs: how `run_discovery_sniffer` joins the new summary
--   with a file. The other modules hold what is proved of these.
-- - Spreadsheet: generate_xlsx_report.py, the names of products and companies, and the dictionaries of
--   `JunitData`; what junitparser makes of a report is an argument. Collecting and Listing: what
--   `get_info` leaves in them.
-- - Prelude: shared names and lemmas; Distinct, Sorting and Lists: those on lists. The modules named
--   Tests, InstanceTests and ReportTests: runs at concrete arguments.
--
-- Bounds: the loops of the checks recurse on the list of replies, which gets shorter with each call
-- of `expect`; the publisher's loop recurses on the number of samples that are left, 500 at first.
-- The walks over JSON recurse on its structure, and the search for table rows on the message, with a
-- number of characters to pass over. Digits are printed with fuel of one more than the number, which
-- the round trips show to be enough. So every model returns. 500 / 2, 500 / 10 and
-- 90 % and 10 % of 50 and 1 % of 500, which Python computes as floating point numbers, are the
-- integers 250, 50, 45, 5 and 5 exactly. An integer has no upper limit in Python, nor has it here.
--
-- Not modelled: what is printed or logged, temporary files, dates, the parsing of arguments and of
-- XML, the capture with tshark; the texts that the discovery report prints next to its verdicts; the
-- coherent set checks; the rates of analyzer.py, which are floating point numbers; renderer.py,
-- html_report.py, compare_junit_reports.py and the sheets of generate_xlsx_report.py, which lay the
-- data out; test_suite.py, get_latest_file_urls.py; the `shape_main` applications.
pub mod Prelude
pub mod ReturnCode
pub mod Regex
pub mod Child
pub mod Samples
pub mod Checks
pub mod Texts
pub mod Report
pub mod Counts
pub mod Junit
pub mod Numerals
pub mod Discovery
pub mod Spreadsheet
