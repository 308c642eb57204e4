-- ===== src/Lib.antt =====
-- Polyloft BVM: a compiler to bytecode for the Polyloft language, and the virtual machine that
-- runs it, in Go.
--
-- A source text becomes tokens (internal/lexer, internal/token), then a syntax tree
-- (internal/parser), which internal/sema checks and internal/compiler translates to functions
-- with a chunk of bytecode (internal/bytecode) over runtime values and classes (internal/value).
-- internal/vm runs the functions. Functions and classes are stored in files by the binary codecs
-- of internal/bytecode and internal/value, and modules in class files by internal/classfile.
--
-- The files, with the code that they model:
-- - Prelude.antt and its folder: shared names, Boolean tests, lists and maps over the native
--   numbers, machine words. No code of the program.
-- - Token.antt: internal/token/token.go. TokenType is Type, keywords and lookup_identifier are
--   keywords and LookupIdentifier.
-- - Lexer.antt: the state Lexer of internal/lexer/lexer.go with its moves (isAtEnd, peek,
--   peekNext, advance, match, addToken). Lexer/Literals.antt: the loops over comments, and
--   scanString, scanChar, scanNumber, scanIdentifier. Lexer/Scan.antt: scanTokens and Scan. The
--   proofs: Lexer/Position.antt (lines and columns), Lexer/Comments.antt, Lexer/Ends.antt,
--   Lexer/Emits.antt and Lexer/Round.antt (what each scan consumes and emits), Lexer/Layout.antt
--   (the whole scan), Lexer/Ahead.antt (what is still to be read), Lexer/Escapes.antt and
--   Lexer/Quoted.antt (string literals).
-- - Binary.antt: the use of io and encoding/binary by the codecs; Binary/Reads.antt: reading back
--   what was written, by combinators.
-- - Bytecode.antt and Bytecode/Opcode.antt: the types and the writing of chunks of
--   internal/bytecode/chunk.go, and opcodes of internal/bytecode/opcode.go.
--   Bytecode/Opcode/Constants.antt: the constants. Bytecode/Serialize.antt and
--   Bytecode/RoundTrip.antt: internal/bytecode/serialize.go, WriteBinary and ReadBinaryFunction.
-- - Value.antt: Value and its constructors of internal/value/value.go. Value/Array.antt and
--   Value/Array/Refines.antt: Array. Value/Codec.antt and Value/Codec/Scalars.antt:
--   EncodeConstant and DecodeConstant of internal/value/serialize.go. Value/Class.antt and
--   Value/Class/Layout.antt: writeClass and readClass, with the proofs in Fields.antt,
--   Methods.antt and RoundTrip.antt of the folder. Value/Class/Lookup.antt: the lookups of Class
--   along the superclasses, which are a list from the class on; Value/Class/Lookup/Nearest.antt
--   and Slots.antt: what they find.
-- - Value/DeepCopy.antt: DeepCopy of internal/value/deepcopy.go, on a heap that maps addresses to
--   objects. Its folder: Visited.antt (the map of visited objects), Clones.antt and Copies.antt
--   (what one level keeps and makes), Ends.antt (the whole copy).
-- - Value/FastMethod.antt: FastMethodPlan with CompileOps and EvalOps of internal/value/value.go,
--   and tryFastMethodCall and evalFastMethodExpr of internal/vm/vm.go.
--   Value/FastMethod/Machine.antt, Depth.antt and Agreement.antt: the stack machine against the
--   tree.
-- - ClassFile/Wire.antt: the writers and readers of numbers, texts and maps of
--   internal/classfile/module_codec.go, most significant byte first. ClassFile/Pool.antt:
--   cpBuilder, writeCP and cpReader; the proofs in its folder: Entries.antt (single entries),
--   Requests.antt and Builder.antt (what the builder keeps), Answers.antt and RoundTrip.antt
--   (what the reader finds). ClassFile/Attribute.antt: attributes. ClassFile/Lines.antt: line
--   tables. ClassFile/Method.antt: methods with their code and interfaces.
--   ClassFile/Classes.antt: the attribute of classes. ClassFile/Module.antt: writeModuleClassFile
--   after buildModuleState, and readModuleClassFile up to the tables of functions and classes.
--   ClassFile/Constants.antt: encodeConstant and decodeConstant. ClassFile/Descriptor.antt:
--   methodDescriptor and parseMethodDescriptor. Each has its proofs in its folder.
-- - Compiler/Emit.antt: emit, emitJump with its three peephole rewritings, emitLoop, patchJump,
--   emitIterNext and emitRangeNextFast of internal/compiler/compiler.go.
--   Compiler/Emit/Targets.antt: where jumps land; Compiler/Emit/Lines.antt: the line table;
--   Compiler/Emit/Fusion.antt: the code that the local-local rewriting leaves.
-- - Compiler/Scope.antt: beginScope to addUpvalue of internal/compiler/compiler.go, on the locals
--   and upvalues of the function that is compiled and of those around it.
--   Compiler/Scope/Locals.antt, Upvalues.antt and Slots.antt: the proofs.
-- - Compiler/Fold.antt: evalConstExpr, foldNumericBinary and the operators of compileBinary, of
--   internal/compiler/compiler.go; Compiler/Fold/Numbers.antt, Exact.antt and Texts.antt: folded
--   constants against the machine.
-- - Vm/Arith.antt: the opcodes of internal/vm/vm.go that compute with two values of the stack,
--   powers with binaryPowOp included. Vm/Arith/Power.antt: powInt64SquareMultiply, with its
--   proof.
-- - Vm.antt and Vm/Jumps.antt: the loop executeUntilDepth of internal/vm/vm.go at the opcodes
--   that read or set a local, compare numbers or jump on the result, on a frame with its stack.
--   Vm/Jumps/Fused.antt: the fused jumps against the instructions that they replace;
--   Vm/Jumps/Captured.antt: the same on a local that a closure has captured.
-- - Tests.antt and its folder: the theorems at concrete inputs.
--
-- How the code is read. A rune and a byte are numbers, and a string is the list of its bytes, in
-- the lexer of its code points; an int is its 64-bit pattern, and a conversion to 16, 32 or 64
-- bits is a remainder. State is passed explicitly; an error is a value of a result type, without
-- the words of its message but for the position it begins with; an index out of range, on which
-- Go panics, is none. A Go map is an association list, or a function where only lookups matter;
-- its order of iteration is the order of the list. The maps of a class file are lists in the
-- order of their keys, as the source sorts them when it writes. A float64 is a parameter with its
-- operations, since no float is computed with, and what float64 promises on integers up to 2^53
-- is the record FloatLaws of Compiler/Fold/Exact.antt; unicode and strconv are a parameter of the
-- lexer.
--
-- Loops and fuel. The descriptor of a type runs on the length of its name, and
-- Descriptor/Fuel.antt shows that more changes nothing; the loop over the parameters of a
-- descriptor on its length, since each takes a byte. The loops of the lexer run on fuel, one more
-- than the length of the source, and the loop over tokens on its length: each round consumes a
-- character, so this is enough, and the model's own result stuck does not occur.
-- powInt64SquareMultiply runs on 64, since an exponent has at most 63 bits, and deepCopyValue on
-- fuel for the depth of its calls; one theorem gives the depth that is enough. The other loops
-- are recursion on lists, on counts that were read, or on the structure of expressions.
--
-- Not modelled: the parser, the semantic checker, the rest of the compiler, the other opcodes of
-- the virtual machine with its calls and handlers, the just-in-time compiler, and the modules and
-- native bindings, which are input and output. Of the codecs: the gob format, and the sharing of
-- function and class pointers between constants; the writers and readers of nested functions and
-- classes are arguments of the definitions, and the theorems ask of them that they read back what
-- was written. Of class files: building the module state from functions (buildModuleState),
-- filling the tables of functions and classes (populateFunction, populateClass). Of arrays: the
-- gob methods. Of an instance only its fields are kept; in the steps of the machine its unboxing
-- is an argument, no local has a string buffer, and setting a local recycles no instance.
pub mod Prelude
pub mod Token
pub mod Lexer
pub mod Binary
pub mod Bytecode
pub mod Value
pub mod ClassFile
pub mod Compiler
pub mod Vm
pub mod Tests
