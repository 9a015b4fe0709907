-- ===== src/Lib.antt =====
-- SentanylScript and its runtime: the lexer, the validator and the pipeline of the script compiler
-- (scripting/); the engine that plays stories, the sweep of plan changes and the members of
-- workspaces (routes/); as a model that runs and theorems about it.
--
-- A script is a byte string. The lexer turns it into tokens, the parser into a syntax tree, the
-- expander resolves defaults, patterns and loops, and the validator collects the declared names,
-- resolves the references and checks the structure. `ValidateScript` runs the stages in order and
-- stops at the first stage that reports an error.
--
-- Which file models what:
--   Prelude          shared names, lists and loops over the native numbers, maps as association
--                    lists, integers, items that differ (`AllDifferent`, `Fresh`), sorting
--   Utf8             Go's `utf8.DecodeRuneInString`, `utf8.AppendRune`, `unicode.IsLetter` and
--                    `unicode.IsDigit` as far as the lexer uses them
--   Token            scripting/token.go: `Pos`, `TokenKind`, `Token`; Token.Names has `tokenNames`,
--                    Token.Keywords has the table `keywords` and `LookupIdent`
--   Diagnostic       scripting/diagnostics.go; a message is its format string with its arguments
--   Lexer            scripting/lexer.go: the state and `advance`, `peek`, `errorf`; Lexer.Scan has
--                    blanks, comments, strings, numbers and identifiers, Lexer.Next has `next` and
--                    `Tokenize`; the proofs stand in Lexer.Progress, Lexer.Tokens, Lexer.Tokenize
--   Ast              scripting/ast.go: the nodes of stories, funnels and sites
--   Validator        scripting/validator.go: the symbol table; Validator.Collect, Resolve and
--                    Structure are the three passes, Validator.Spec says what a well-formed script
--                    is, with its own lists of words and its own keys, Validator.Validate is about
--                    the passes together
--   Pipeline         scripting/scripting.go: `ParseScript`, `ExpandScript`, `ValidateScript`
--   StoryEngine      routes/story_engine.go and the click trigger of routes/tracking.go:
--                    StoryEngine.Graph has hydration, Content the mail of an enactment and the wait
--                    behind it, Sessions the sessions and the interface of their collection, Mail
--                    the bytes of a message, Services what other code answers, Advance the sweep
--                    and `advanceSession`, Start `StartStoryForUserCmd`, Click `fireClickTrigger`;
--                    Moves has these in any order; Content.Taken and Advance.Carries say
--                    which content a message is made of, Start.Outcomes what a start may do
--   PlanIntents      routes/plan_change_intent.go: `resolvePlanIntent`, `markScheduledIntents`,
--                    `confirmPlanIntents`; PlanIntents.Sweep has the passes of the sweep, Kept what
--                    they keep, Outcomes and Charged what follows
--   Memberships      routes/workspace_memberships.go: `HandleAcceptWorkspaceInvitation` and
--                    `HandleRevokeWorkspaceInvitation`; Accepted says what an acceptance is,
--                    with Accepts and Once for what follows; Memberships.Owner has
--                    `HandleUpdateWorkspaceMember` and `HandleTransferWorkspaceOwnership`,
--                    each as one step of the database
--   Tests            runs at concrete inputs, and the theorems applied to them
--
-- How the model corresponds to the code. A method that changes its receiver is a function that
-- returns the new record. A Go string is the list of its bytes, an `int` that is only compared is
-- an integer, a map that is only read by key is an association list, and a pointer that may be nil
-- is an `Option`. A `for` loop with `break` is `loop` over a step function; its fuel is one more
-- than the bytes that are left, and `loop_rule` shows that the loop ends by its own test before
-- the fuel does. Loops over slices recur on the list.
--
-- A script that is deployed becomes a story in the database. The story engine enrols a user by a
-- session, sends the mail of the first enactment, and a sweep or a click advances the session. The
-- database is a parameter: `Collection` has the operations on sessions, with what the engine
-- relies on as laws (an update changes at most one matching document, the index on the command key
-- is unique; a write that reports an error may have happened all the same, and an update of many
-- documents may then have changed some), and `Services` has the look-ups, which may answer
-- differently at each move. `Graph` has the look-ups of hydration and `sort.Slice`, which permutes
-- a slice and sorts it by the comparison of the code. A message counts as sent when it is handed to
-- the provider. The compare-and-set of a claim is one step; a session is read before and may be
-- stale then, so an advance takes any snapshot. Times are nanoseconds and the wait is computed in
-- 64 bits as in Go.
--
-- A change of plan is an intent before it is one at Stripe. The handler, the webhook and the sweep
-- may resolve it, by an update of the open intent with its id. Stripe is a state with two functions
-- (`Billing`), package plans and the failures of the database are parameters.
-- A request that accepts an invitation inserts an identity and a membership first, claims the
-- invitation by an update of the pending one, and removes what it inserted if the claim fails. The
-- invitation is read before and may be outdated. Here a write that reports an error has changed
-- nothing.
--
-- Not modelled: the parser and the expander stand behind the interface `Stages` of Pipeline; the
-- compiler, the other HTTP routes, the hydrator and the billing clients are listed in the manifest.
-- The tables of package `unicode` beyond Latin-1 are the parameter `UnicodeTables`. Formatting of
-- messages and logging are left out.
pub mod Ast
pub mod Diagnostic
pub mod Lexer
pub mod Memberships
pub mod Pipeline
pub mod PlanIntents
pub mod Prelude
pub mod StoryEngine
pub mod Tests
pub mod Token
pub mod Utf8
pub mod Validator
