-- ===== src/Lib.antt =====
-- Models and proofs of cyarg, the C implementation of the language yarg.
--
-- The program scans source text, compiles it to bytecode and runs it on a machine with routines
-- that talk over channels; its integers are of any size up to 254 digits of 16 bits.
--
-- Parts and files:
--   BigInt: cyarg/big-int/big-int.c and big-int.h. BigInt/Layout has the struct Int, here
--     `Integer`, whose words `w_` are the list `h` of their 16-bit halves, with int_init,
--     int_is_zero, int_neg and int_invariant; BigInt/Compare has int_is_abs and int_is; BigInt/Sum
--     has addPos (`add_pos`), subAGtB (`sub_a_gt_b`), int_sub_abs, int_add and int_sub; BigInt/Words
--     has int_set_u, int_set_i, int_to_u64, int_to_i64, int_to_u32, int_to_i32 and int_is_range;
--     BigInt/Shift has int_shift; BigInt/Product has int_mul. The modules below each of these hold
--     its proofs. BigInt/Digits is the number that a list of digits stands for.
--   Channel: cyarg/channel.c. A channel is a ring buffer; send, receive, share and peek are the
--     critical sections of sendChannel, collectFromChannel, shareChannel and peekChannel.
--     Channel/Valid is the invariant, Channel/Queue what the operations do to the values held,
--     Channel/Fifo the queue that the channel implements in the Pico build, and Channel/Race the interleavings of
--     threads on the Pico build.
--   Scanner: cyarg/scanner.c and scanner.h. Scanner/Kinds is TokenType, Scanner/Chars the tests on
--     characters, Scanner/Keywords identifierType (`word_a` and so on are the cases of its first
--     `switch`), Scanner/Tokens the functions from peek to scanToken.
--   Table: cyarg/table.c and table.h. Table has the tables of values, with findEntry
--     (`find_entry`, and its loop `find_from`), tableGet, adjustCapacity, tableSet, tableDelete and
--     tableAddAll; Table/Cells the tables of value cells, Table/Strings tableFindString; Table/Probe
--     the end of the probe, Table/Counted the count of a table, Table/Lookup a key just written, Table/Findable
--     where its keys are found.
--   Types: cyarg/yargtype.c and yargtype.h. Types has the types as trees, the tests on them and
--     typesEqual; Types/Layout the sizes, alignments and offsets of yt_sizeof_type_storage,
--     yt_alignmentfor_type_storage and appendFieldType; Types/Initialise isInitialisableType, with
--     is_nil of cyarg/value.c. The modules below them hold the proofs.
--   Memory: cyarg/memory.c. Memory/Objects has the objects of the heap with what blackenObject and
--     the functions that it calls mark of each; Memory/Collect the phases of collectGarbage, the
--     roots of cyarg/vm.c and cyarg/compiler.c, and tableRemoveWhite of cyarg/table.c. Below it,
--     Heap is on the marks, Trace on the loop, Exact on what is reached, Strings on the strings
--     table, and Correct on the whole.
--   Routine: cyarg/routine.c and routine.h, with captureUpvalue and callfn of cyarg/vm.c. A value
--     stack in slices of 64 cells, the frames, and the upvalues, open and closed; Routine/Stack is
--     on push, Routine/Upvalues on the list of the open upvalues, Routine/Returns on op_return and
--     the errors, and Routine/Pinned has the pinned routines of cyarg/vm.c.
--   SyncGroup: cyarg/sync_group.c. A receive over several channels; SyncGroup/Answer is on its end.
--     The other routines have turns inside a pass, since the channels keep their own locks.
--   Compiler: cyarg/compiler.c. The locals, scopes and upvalues of the functions that are compiled,
--     with resolveLocal, addUpvalue, resolveUpvalue, declareVariable, beginScope and endScope;
--     Compiler/Scope is the rule of scopes, Compiler/Captures is on what upvalues stand for, Compiler/Blocks on the end of a block.
--   Bytecode: the bytes that cyarg/compiler.c writes and `run` of cyarg/vm.c reads, for integers in
--     the code and for jumps: emitImmediateConstant, emitJump, patchJump and emitLoop against the
--     cases of OP_IMMEDIATE_N8 and its kin, OP_JUMP and OP_LOOP. Bytecode/RoundTrip holds the proofs.
--   Parser: cyarg/parser.c, with the trees of cyarg/ast.h and their constructors in cyarg/ast.c.
--     Parser/Kinds, Parser/Rules and Parser/Nodes are the tables on the kinds of tokens, `rules`
--     among them; Parser/Syntax has the trees of expressions; Parser/State ObjParser, errorAt,
--     advance, match, consume and synchronize; Parser/Numbers strtoNum and the automaton of number;
--     Parser/Expressions the functions that the table names; Parser/Precedence the types and
--     parsePrecedence; Parser/Statements and Parser/Declarations the rest, up to parse.
--     Parser/Grammar says what trees an expression can have, independently of the parser;
--     Parser/Reading, Operands, Runs and RoundTrip read their tokens; Parser/Progress, Ending,
--     Total and Reports are on the end of the parser of expressions and its reports, Parser/Shorter,
--     Finish, Loops, Whole and Terminates on the end of statements and of parse, Parser/Stuck on the
--     loop over the fields of a struct.
--   Prelude: shared names, Boolean tests, lists, and integers over native numbers.
--   The Tests modules run the definitions, and apply each result to a concrete case.
--
-- Conventions: a C function that writes through a pointer gives the new value. Where the result
-- may be one of the operands, the loops read a digit before they write it. The result of int_mul
-- is other storage than its operands, as in the program. Fields of 8 bits, words of 32 bits and
-- `size_t` wrap as in C; `word` is the number of values of `size_t`. The digits of an integer are
-- at most 254, as its room is. A pointer in the heap is an address, and 0 is NULL. Objects outside
-- the list of the heap are not marked by the model: the types of `yargTypes` are marked when they
-- are made, and what core0 and bootFunction refer to is among the roots. What the compiler of the
-- target gives for `sizeof`, and whether an allocation has room, are parameters.
--
-- Fuel: `strip`, the loop of subAGtB that drops leading zeros, has `d_` rounds, and drops one
-- digit in each; `skip_whitespace` has as many rounds as there are characters, and drops one at
-- least in each. Other loops are recursion on the digits, words or characters left. `find_from`
-- has as many rounds as the capacity, after which the probe would be where it began; it ends
-- within them where an entry is vacant. Without one the loop of the program has no end, and `none`
-- is given. The gray stack of a collection has as many turns as there are objects, since each turn
-- takes one from it and only objects that were not marked are put there. A receive on a group has
-- fuel for its passes, since it ends only when another routine sends.
--
-- Each function of the parser takes the parser of the parts inside its own, as the source calls
-- itself through parsePrecedence, statement and declaration; `parse_precedence`, `statement` and
-- `declaration` tie the knot, on fuel for the depth, which bounds the turns of the loops too. An
-- expression goes one deeper with a token at least. What the scanner is still to give is a list of
-- tokens; TOKEN_EOF follows it for ever, with the line 0 and no text, where the scanner gives the
-- line that it has come to. `strtod` is a parameter: the number of characters that it
-- reads of the text of a literal.
--
-- Not modelled: the division and the decimal conversions of big-int.c; the semaphores of the
-- pthreads build and the text of channelToString in channel.c; the other opcodes of `run`, and
-- resumeRoutine and startRoutine, which call it; the message texts of
-- runtimeError; allocation, which is the library o1heap; the conversions of values to text; the
-- printer of ast.c; the stack on which the parser keeps its nodes for the collector; the code that
-- the compiler generates, the packing of modules, and the host programs.
pub mod Prelude
pub mod BigInt
pub mod Channel
pub mod Scanner
pub mod Table
pub mod Types
pub mod Memory
pub mod Routine
pub mod SyncGroup
pub mod Compiler
pub mod Bytecode
pub mod Parser
