-- ===== src/Lib.antt =====
-- Verification of the core of slug, an interpreter for a small functional language, written in Go.
--
-- The program reads a module's text with the lexer, parses and checks it, compiles it to bytecode
-- and runs that on a virtual machine whose values are the objects of internal/object. Numbers of
-- the language are decimal floats of internal/dec64. Maps of the language are persistent hash
-- tries, which the virtual machine and the foreign functions share between values.
--
-- Prelude: names of the libraries, tests and lists over the native numbers, the bits of a machine
--   word and signed integers. It models no code.
-- MapKey: the object types and map keys of internal/object/object.go, with the hash of a key from
--   internal/object/hamt.go (MapKey, mapKeyHash).
-- Hamt: internal/object/hamt.go. The Go node is one struct for a bucket or a branch, and a nil
--   pointer; here these are three constructors, and the array of 32 children is a function of the
--   index. hamtInsert takes fuel, one unit a level: a call at depth d has 14 - d, and no branch
--   stands below depth 12, as the invariant Hamt.Shape.IsShaped says, so the laws of insertion hold
--   with no condition on the fuel. The loop of hamtForEach has at most one round for each of the
--   32 bits. Hamt.Leaves, Hamt.Lookup, Hamt.Delete, Hamt.Traverse, Hamt.Size and Hamt.Count hold
--   the proofs.
-- MapStorage: internal/object/map_storage.go and the methods of Map in internal/object/object.go
--   (Put, PutPair, DeleteKey, GetPair, Len, Clone, ensureStorage). Pairs of a map under
--   construction are a list, in the order in which the range loop over the Go map runs.
-- Dec64: internal/dec64/dec64.go. A decimal is its bit pattern, a number below 2 ^ 64, with the
--   coefficient in the high 56 bits and the exponent in the low 8; int64 and int8 wrap where the
--   code can overflow. Each loop over the digits of an int64 takes 20 rounds at most (19 digits),
--   and the loop of Mul over two factors 40. Dec64.Arith has products, quotients, remainders, the
--   extremes and FromInt64, Dec64.Bitwise the bit operations; a panic is `none`. Dec64.Value and
--   Dec64.Symmetry hold proofs. FromFloat64, ToFloat64 and ToInt64 use floating point, and
--   FromString, String and StringRaw are text: they are left out.
-- Environment: internal/object/environment.go on a heap of scopes, bindings and function groups,
--   since the code shares all three by pointers. A walk along the outer scopes takes the address of
--   the first scope plus one as fuel: outer scopes are older. Environment.Define has define, Assign
--   and SetLocalDoc; Environment.Scoping, Environment.Resolution, Environment.Steps and
--   Environment.Invariant hold proofs.
--   Locks and logging are left out; RegisterDefer and ExecuteDeferred have no caller.
-- Unwind: the end of a scope in internal/vm/executor.go (unwindDeferredScopes, executeDeferredEntries,
--   executeTaskHandlesInCurrentScope) and the task handles of internal/vm/task.go. A call of a
--   function of the program and a wait for a task are parameters, on the state that executors
--   share; a wait is taken to add no task scope, since each task runs in an executor of its own.
--   The loop is given a round for each deferred scope and then one for each task scope left.
--   Unwind.Handlers, Unwind.Failures and Unwind.Termination hold proofs.
-- Arguments: bindVMArgumentsInto of internal/vm/executor.go, which binds named, positional and
--   variadic arguments and runs defaults; a default is a parameter, on a state.
--   Arguments.Complete holds proofs. Arguments.Plan has popCallArguments, which takes the
--   arguments of a call from the stack, with its proofs.
-- Nursery: internal/vm/nursery_scope.go (AddChild, RemoveChild, CancelChildren, NoteChildFailure), with
--   Complete and Cancel of internal/vm/call_context.go. Nursery.Cancellation holds proofs.
-- Token, Lexer: internal/token/token.go and internal/lexer. The input is valid UTF-8, held as code
--   points, those behind the current one and those ahead; positions count bytes. The tables of the
--   package unicode are a parameter. Lexer has the state with its moves, Lexer.Skip white space and
--   comments, Lexer.Literals names and numbers, Lexer.Strings the two string tokenizers, and
--   Lexer.General the general one. A tokenizer that calls the lexer back is told by the mode. A loop
--   has a round for each code point ahead and one more, as do the calls of the general tokenizer of
--   itself. Where these calls or the loops over strings have no round left, the token has the kind
--   out_of_rounds, which the code does not have; Lexer.Stopping shows that this does not happen.
--   Lexer.Cursor, Lexer.Reading, Lexer.Bounds, Lexer.Progress, Lexer.Spelling and Lexer.RoundTrip
--   hold the other proofs.
-- Symbols: internal/object/symbol.go, the table of symbols as a state, and the function of
--   internal/parser/parser.go that reads a symbol. Symbols.Interning, Symbols.Words and Symbols.Parsing hold proofs.
-- Meta: describeDefaultValue and escapeStringLiteral of internal/foreign/slug_meta.go.
-- DeclaredTypes: internal/vm/declared_type_runtime.go, the compatibility of types, the inference of
--   type parameters, substitution and the bindings of a call. A nil pointer is the type `absent`.
--   The declared types of the parameters come parsed and the values with their types.
--   DeclaredTypes.Inference holds proofs.
-- Slices: the slices of internal/vm/executor.go (computeSliceIndices, sequenceSliceLen, evalIndex). A
--   loop has a round for each element and one more. Slices.Elements holds proofs.
-- Dispatch: the choice of a function from a group, DispatchToFunction of internal/object/object.go
--   and selectVMFunctionFromGroup of internal/vm/executor.go, each with its own condition. A
--   candidate comes with its score. Dispatch.Order and Dispatch.Choice hold proofs.
-- Tests: runs at fixed inputs.
--
-- Not modelled: the tags of objects, the sorted view of a map's entries, the parser,
-- the type checker, the compiler, the rest of the virtual machine, the language server, foreign
-- functions and the command line. The list of components in the manifest says why.
pub mod Prelude
pub mod MapKey
pub mod Hamt
pub mod MapStorage
pub mod Dec64
pub mod Environment
pub mod Unwind
pub mod Arguments
pub mod Nursery
pub mod Token
pub mod Lexer
pub mod Symbols
pub mod Meta
pub mod DeclaredTypes
pub mod Slices
pub mod Dispatch
pub mod Tests
