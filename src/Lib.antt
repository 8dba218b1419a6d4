-- ===== src/Lib.antt =====
-- AI code review: its core, modelled and verified.
--
-- The program reviews Python files. Checkers and language models yield findings, an orchestrator
-- joins those that are trusted into a review result with a status that says whether everything ran,
-- a gate turns the result into a decision on the pull request, and fixes of findings are written
-- into the file. A circuit breaker stands before the calls of the language model.
--
-- Text is the list of its code points (Text.antt), with Python's own notion of white space, of line
-- boundaries (Text/Lines.antt), of words (Text/Words.antt) and of text between white space
-- (Text/Stripped.antt), and decimal numbers (Text/Format.antt).
-- Prelude.antt has the names and the lemmas that the other modules share.
--
-- Models.antt: the domain types of src/core/models.py, without the time stamp of a review.
-- Gate.antt: decide and gate_reason of src/core/pr_gate.py.
-- Confidence.antt: src/core/confidence.py.
-- Fixes.antt: _span and apply_fixes_to_file of src/cli/review_pr.py. Its children follow the steps of
-- the function: sorting, grouping, the order of writing, the writing itself, and the outcome.
-- Breaker.antt: CircuitBreaker of src/core/circuit_breaker.py, one function per method, from the
-- breaker to the breaker. Its children run sequences of calls (Runs.antt), follow the state machine
-- (Guarantees.antt), and compare it with a breaker that remembers all outcomes (History.antt). The
-- clock is an argument, the threshold a fraction, and a division by zero is an absent result.
-- Syntax.antt: the syntax-error fixes of src/core/orchestrator.py. Base.antt has the missing colon,
-- Lines.antt what the fixes share, Indent.antt, Misaligned.antt and Backward.antt the three
-- indentation fixes, and Collect.antt their order and the collector of syntax errors. Patches.antt,
-- Search.antt, Confirmed.antt, Above.antt and Chosen.antt follow a fix to what it promises, and
-- Collected.antt and Repaired.antt the collector.
-- Review.antt: review_code and _build_summary of src/core/orchestrator.py. Grounding.antt is the trust
-- layer of src/core/grounding.py; Agents.antt is run_deterministic_checkers of
-- src/analyzers/registry.py and run_all_agents and _dedupe of src/agents/coordinator.py.
-- Analyzers.antt: the deterministic checkers of src/analyzers. Tree.antt has the syntax tree that
-- `ast.parse` yields: a node with its place, its kind, and children that are labelled by the field they
-- stand in; operators and contexts, which the program only asks for their class, are attributes of the
-- kind. Shapes.antt has the tests on nodes (isinstance and the attributes read after it; those on
-- names, calls and literals are in Shapes/Values.antt), Utils.antt is
-- src/analyzers/_ast_utils.py, Reports.antt the frame that the checkers share, and Rewriting.antt the
-- functions that several checkers have a copy of each. Then there is a file per checker, named for what
-- it reports, and Registry.antt joins them to CHECKERS of src/analyzers/registry.py.
-- Levels.antt and Paths.antt are about walks and parent maps, Owners.antt about the loops that follow a
-- parent map; Located.antt, SecurityClaims.antt, RuntimeClaims.antt, GuardClaims.antt and Grounded.antt
-- follow what the findings claim of the file up to the trust layer; Once.antt, Members.antt and
-- Assigned.antt are about findings once a line and names with one plain assignment, for
-- Division/ByZero.antt, IndexGuard/OutOfBounds.antt and DictKeys/Missing.antt. IndexGuard/Largest.antt,
-- DictKeys/Listed.antt, UndefinedNames/Innermost.antt and UnusedImports/Counted.antt are each about one
-- collecting loop of their checker; Maxima.antt and Keyed.antt of the first two have the loop itself,
-- Guards.antt what counts as a guard. Names.antt (lists that are kept by name) and Handlers.antt (tests
-- of names and of handlers) have what they share.
--
-- Worker.antt: the review task of src/worker/tasks.py: one run as a function on the world that it
-- changes, and the runs that the task queue makes of it. A call of publish_review of
-- src/integrations/publisher.py is done, or raises before or after the summary comment is there.
-- Worker/Store.antt is src/storage/idempotency_store.py and increment of src/core/metrics.py; the
-- store is given the time to live of a claim, 7 days, and its laws are about calls so close to each
-- other that no key expires between them. Attempts.antt and Publishing.antt are about the retries.
-- Remediation.antt: src/core/remediation_guide.py; its table stands in First.antt, Middle.antt and
-- Last.antt, and Coverage.antt looks everything up.
-- PullRequest.antt: _combine, post_fix_suggestions and post_no_fix_comments of src/cli/review_pr.py,
-- with the comments of the pull request as a list that grows by what is posted; the functions see the
-- first 30 of it, the one page that list_review_comments of src/integrations/github_client.py asks for.
-- Backoff.antt: call_with_backoff of src/core/backoff.py, with the pauses that it makes.
-- Client.antt: call_llm of src/agents/llm_client.py with src/cache/llm_cache.py: the state is the breaker
-- and the cache, and each branch is a function of what its step comes to. Client/Canary.antt is
-- src/core/canary.py, Client/Agent.antt run_finding_agent of src/agents/_llm_finding_agent.py.
-- Chunker.antt: src/ingestion/chunker.py. Ranges.antt is about _uncovered_ranges, Words.antt about the
-- words of text put together from lines, Picked.antt about elements that are picked from a list, and
-- Kept.antt about what the chunks keep of a file.
-- Examples.antt: tests on small inputs.
--
-- Parameters: the record Python is what the code asks of the interpreter (compile, ast.parse, and
-- which characters beyond ASCII are of a word); the record Services holds the checkers and the four
-- agents, as functions from the code; the record Tools holds what the checkers use (ast.parse as a tree,
-- ast.unparse and ast.dump, repr, lower-casing, hasattr on the built-in types, the conversions int and
-- float, the messages of pyflakes, and the rows of ruff); the record Calls what the calls of one run of a
-- task come to, and the record KeyStore the store of claims, with what the code relies on of it;
-- SHA-256, the parsing of an answer, and the outcomes of calls of a model are functions.
--
-- Bounds: a loop that searches is bounded as in the source, by 50 lines, 25 rounds, or 3 retries. A loop
-- that follows a parent map is bounded by the depth of the tree, which is more than the steps from
-- the root to any node. The fuel of a decimal number is the number itself plus one, and each digit
-- divides it by ten. All other recursion is on lists and trees.
--
-- Not modelled: the parsing of what a language model answers, the network clients, the databases, the
-- flow of review_pr around its parts, retrieval, and the web interface. Exceptions other than a
-- SyntaxError are not modelled: compile raises ValueError on a null character in some versions of the
-- interpreter, and a tree that is too deep for a checker's own recursion raises RecursionError.
pub mod Prelude
pub mod Text
pub mod Models
pub mod Gate
pub mod Confidence
pub mod Fixes
pub mod Breaker
pub mod Syntax
pub mod Review
pub mod Worker
pub mod Remediation
pub mod PullRequest
pub mod Backoff
pub mod Client
pub mod Chunker
pub mod Analyzers
pub mod Examples
