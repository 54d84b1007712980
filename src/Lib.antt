-- ===== src/Lib.antt =====
-- A model of secverify, a verifier that admits plans of commands, runs them, reads their reports and
-- prints what they wrote.
--
-- The parts, and where they are modelled:
--
--  * Prelude: names of the library, Boolean tests, integers and lemmas on lists.
--  * Text, Text/Utf8: bytes and strings. A string is the list of its bytes; `decode_rune` is what
--    `unicode/utf8` does. The tables of package `unicode` are the parameter `Unicode`, with what is
--    documented of their ASCII part.
--  * Errors: an error is the list of the causes joined in it, and nil is the empty list. Messages are
--    left out.
--  * ExactWrite: internal/exactwrite/exactwrite.go. The `io.Writer` is a parameter: its state, its
--    `Write`, and the bytes that have reached its stream, with the documented meaning of a count.
--    `loop` is the loop of `Bytes`, by recursion on the value; `after` holds the branches behind one
--    write.
--  * SafeOutput: internal/safeoutput/safeoutput.go. `safe`, `diagnostic` and `diagnostic_bytes` are
--    loops by recursion on the value, which skip the rest of a character that is decoded.
--    SafeOutput/Renderer has the renderer, its buffer of 4096 bytes and `Write`. SafeOutput/Escape
--    has the text that both loops write, as one function of the value.
--  * Decimal: the numerals of goverify/coverage.go, goverify/campaign.go and goverify/benchmark.go.
--  * Coverage: goverify/coverage.go. Coverage.antt has the rows and `add`, Coverage/Profile the lines
--    and `CheckCoverage`. The `bufio.Reader` is the stream of what its `ReadSlice` returns, call after
--    call, which need not end. `line` and the loop over the lines run on fuel, one more than
--    `MaxCoverageBytes`: a call that a line goes on behind has filled the buffer, and a line has its line
--    feed, so each turn counts at least one byte.
--  * Plan: verify.go and validate.go. Plan/Names has identifiers and names, Plan/Strings has
--    `boundedStrings`, Plan/Aggregate the limits on a plan as a whole, Plan/Admit and Plan/Whole the
--    admission. Paths, links and files are the parameter `Platform`. The maps that cache canonical
--    paths are association lists, passed along; the caller's context is a parameter, polled where the
--    source polls it.
--  * Execute: execute.go. Execute.antt has the types and the tests on an outcome, Execute/Control
--    `executeControl` and `executeControls`, and Execute/Run `execute`; each function stands for what
--    the source does behind one call that may fail. The context, the processes and the clock are the
--    parameter `Machine`, over the state of the writer. A run admits the plan through Plan, writes
--    its own lines through ExactWrite and the output of processes through SafeOutput.
--  * Exit: cmd/secverify/execution.go, the diagnostics and the exit code of a run, by one writer for
--    the report and another for diagnostics; in Exit/Identity the text of an identity.
--  * Source: goverify/source.go, the reading of a file up to a limit. The file is a parameter: its
--    information, what `io.ReadFull` reads from it, and the error of its closing.
--  * Workflow: goverify/workflow.go. Workflow/Paths and Workflow/References have the tests on texts,
--    Workflow/Tree the nodes of a document and the check of the whole tree, Workflow/Aliases the
--    expansion of aliases, Workflow/Inspect the references of jobs and steps, and Workflow/Admission
--    the admission of paths below a root. The YAML decoder is the parameter `Yaml`; a node carries its
--    address, by which an alias names its target. `validWorkflowTree` counts the nodes that are still
--    allowed, so that its loop ends by its own limit; `expand` runs on fuel, two for each level down to
--    `MaxWorkflowDepth`.
--  * Local: goverify/local_action.go, the walk over local actions, and in Local/Verify the loops over
--    workflows of goverify/workflow.go and goverify/workflow_currency.go. The walk runs on fuel, one
--    for each action that it may still begin.
--  * Currency: goverify/workflow_currency.go, the versions and the tags of actions, and the verdict on
--    a reference. A map is the list of its entries, in whatever order a loop meets them.
--  * Identity: cmd/secverify/identity.go, the identity of a source by its version control, and in
--    Identity/Version the version of a released executable, with package semver as a parameter.
--  * Campaign: goverify/campaign.go. Campaign.antt has the workers of `executeFuzzControls` as a step
--    relation on what they share: any worker may make the next step, a `Move`, and the caller's context
--    may end at any time. Campaign/Failure and Campaign/Settle have what follows `workers.Wait`,
--    Campaign/Control the verdict on one process, and Campaign/Output the reading of its output. The
--    search for the terminal line runs on fuel, the bytes before the last line, as each line takes one
--    (Campaign/Terminal). `time.ParseDuration` is a parameter.
--
-- Sizes are natural numbers: Go's `int` holds every length there is, and where the source subtracts
-- from a limit, the model compares sums. Counts of a `uint64` are checked against 2 ^ 64 - 1.
--
-- Left out are the text of messages, the rendering of durations in floating point, the validation and
-- the targets of campaigns, benchmarks, the discovery of sources and the checks on a repository, build
-- files, the identity by a module sum, and the flags of the command line, with the calls of the
-- operating system, of git and of the go command that they make.
pub mod Prelude
pub mod Text
pub mod Errors
pub mod ExactWrite
pub mod SafeOutput
pub mod Decimal
pub mod Coverage
pub mod Plan
pub mod Execute
pub mod Exit
pub mod Identity
pub mod Source
pub mod Workflow
pub mod Local
pub mod Currency
pub mod Campaign
pub mod Tests
