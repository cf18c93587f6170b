-- ===== src/Lib.antt =====
-- lol-html: a streaming HTML rewriter, modelled from its parser up.
--
-- The program. Bytes come in chunks (src/transform_stream/mod.rs). The parser (src/parser/mod.rs)
-- runs a state machine over a chunk: the full lexer, or the tag scanner that only looks for tags. The
-- machine's states are tables written in a small language of macros
-- (src/parser/state_machine/syntax and syntax_dsl). On a tag the machine asks the tree builder
-- simulator (src/parser/tree_builder_simulator) how to read what follows, and hands the tag to a
-- sink, the dispatcher (src/transform_stream/dispatcher.rs). The rewriter's controller matches the
-- tag against CSS selectors (src/selectors_vm), counts which handlers of content are in use
-- (src/rewriter/handlers_dispatcher.rs) and calls them. Bytes that the parser does not consume wait
-- in an arena that counts against a limit on memory (src/memory).
--
-- The files.
--   Prelude: names shared by all modules, Boolean tests, lists over the native numbers.
--   Base: `Outcome` for code that returns a `Result` or panics, checked arithmetic on usize,
--     ranges and slices (src/base).
--   Html: tags, name hashes, `LocalName` (src/html).
--   Parser/Syntax and its tables: the states of the tokenizer. A table has the enter actions of a
--     state and its arms, as data, one file for each file of src/parser/state_machine/syntax.
--   Parser/Machine: what the macros of syntax_dsl make of a table, as a function `step` for one round
--     of a state, and the parsing loop. The state that the lexer and the tag scanner have in common
--     is `Core`; the rest is a parameter, and `StateMachine` is the record of what they provide.
--   Parser/Lexer: the lexer's state, its actions, and the lexemes that it emits
--     (src/parser/lexer). The sink is a record of functions, with its state passed along.
--   Parser/TagScanner: the tag scanner on the same machine (src/parser/tag_scanner).
--   Parser/Driver: `Parser` of src/parser/mod.rs, which changes between the two. Each machine's state
--     holds the sink and the simulator, and the one that starts takes them over from the other.
--   Parser/Simulator, Parser/Simulator/Guard: the simulator and its guard against ambiguous markup. A
--     boxed closure is a constructor of `Callback`.
--   Memory: `MemoryLimiter`, `Arena` and `LimitedVec`.
--   TransformStream: the buffering between two writes, over the record `ChunkParser`, whose functions
--     are given the limiter that the stream shares with the stack of open elements, and give it back.
--   TransformStream/Dispatcher: what goes to the output unchanged, as tokens, or not at all
--     (src/transform_stream/dispatcher.rs). RewritableUnits/Tokens/Capturer: which lexemes become
--     tokens (src/rewritable_units/tokens/capturer). The controller is a record of functions on a
--     state, a closure that waits for attributes a function.
--   Rewriter: `HandlerVec` and the part of `ContentHandlersDispatcher` that counts users.
--   RewritableUnits/Mutations: content inserted around a token, and its escaping
--     (src/rewritable_units/mutations.rs). RewritableUnits/Attributes, Tokens: what
--     src/rewritable_units/tokens changes and serialises. RewritableUnits/Element: `Element`, and what
--     it does to its end tag (src/rewritable_units/element.rs). A changed unit is a new record.
--   Selectors/Ast, Compiler, Program: the tree that selectors are merged into, its compilation, and
--     instructions (src/selectors_vm/ast.rs, compiler.rs, program.rs). Selectors/NthChild: the
--     arithmetic of `:nth-child`.
--   Selectors/Stack: the open elements and the counters of their children
--     (src/selectors_vm/stack.rs). The items stand with the current element first.
--   Selectors/Machine: the match of a start tag, which goes without the attributes as far as it can
--     (src/selectors_vm/mod.rs), and Machine/Running: the requests for attributes and what is done
--     when they come. Machine/Reference: the match that has the attributes from the start.
--   Selectors/AttributeMatcher: the tests of attributes (src/selectors_vm/attribute_matcher.rs).
--   Tests: runs on small inputs, and the theorems at inputs that meet their hypotheses.
--
-- Conventions. A panic is a value of `Outcome`. Sums on usize panic on overflow, as in a build
-- with overflow checks; name hashes wrap at 64 bits where the source shifts, and so does the depth
-- of templates that the guard against ambiguous markup counts in 64 bits, as in a build without
-- those checks: the theorem on depths supposes that they fit. Of the two assertions of debug
-- builds, both in compiler.rs, the one on the space for instructions is a panic, and the one that
-- a predicate has an expression is left out. An error carries no state: the rewriter is poisoned
-- by it and not used again. References shared by `Rc` are passed along with whoever runs. Handlers
-- are functions on an explicit state.
--
-- Fuel. The parsing loop takes 4 rounds for each byte of the chunk and 8 more. Every round either
-- moves the cursor forward inside the input, or keeps it and enters a state of a smaller rank
-- (Parser/Machine/Ranks), so the fuel never runs out. `Parser.parse` takes its fuel, which counts the
-- changes between the two machines in a chunk, as an argument, and tells by `parser_out_of_fuel` where
-- it was too little.
--
-- The loops that replace bytes and that search for a substring take a round for each byte of the
-- text and one more: every round but the last one drops a byte at least. The loop that decodes text
-- takes a round for each byte and two more, which fit since all rounds but the last fill the
-- buffer.
--
-- Crates. The encoder of encoding_rs is a function, or a record `Codec`; the functions of memchr,
-- `drain_filter` of hashbrown's map and `copy_over` of safemem are functions of which theorems that
-- need it suppose what their documentation says. A selector of the crate selectors is a list of
-- `SelectorPart`.
--
-- Not modelled: the controller, the end of a document, and the parts of `ContentHandlersDispatcher`
-- that call handlers. Nor are: the parser of selectors, which is a visitor for cssparser, printing
-- for debug builds, user data, the bindings for C and JavaScript, tests and tools, and the code of
-- the crates that are used (encoding_rs, safemem, memchr, selectors, cssparser, hashbrown).
pub mod Prelude
pub mod Base
pub mod Html
pub mod Parser
pub mod Memory
pub mod TransformStream
pub mod Rewriter
pub mod RewritableUnits
pub mod Selectors
mod Tests
