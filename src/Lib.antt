-- ===== src/Lib.antt =====
-- A verification library for pawn-x, a Pawn compiler and its abstract machine (AMX).
--
-- The compiler (compiler/source/compiler) reads Pawn, generates instructions for the abstract
-- machine, and writes them as a sequence of cells, in a compact encoding if asked to. The machine
-- (compiler/source/amx) expands the cells and runs the instructions; natives of the host extend it.
-- Ten parts of the program are modelled, from the code that scripts run on to the tables that the
-- compiler keeps.
--
-- CompactSet has the natives of compiler/source/amx/itercore.c (`setinit`, `setadd`, `setremove`,
-- `sethas`, `setlen`, `setfree`, `setrandom`, `setget`, `setalloc`, `setnext`, `setprev`), which
-- keep a sorted set in a plain script array. The array is a function from slots to cells, since
-- the natives get a bare pointer; a cell is a signed integer. The C functions `iter_…` keep their
-- names. CompactSet.Search is about the binary search, Shift and Valid about insertion and
-- removal and the invariant, Members about membership, and Update, Free and Walk about the natives.
--
-- Cell, Memory and Machine have the interpreter `amx_Exec` of compiler/source/amx/amx.c in its ANSI C
-- version with cells of 32 bits. A cell is its bit pattern, a natural number below 2 ^ 32 with the
-- wrap-around written out; memory is a function from addresses to bytes, read and written by the
-- macros `_R` and `_W`. Machine has the registers, the macros and the error codes; its children
-- Load to Macro have the instructions of a family each with one clause for each `case`, Opcodes
-- the enumeration OPCODE, Step the loop, and Entry the start of `amx_Exec`. What the host gives,
-- its natives and the debug hook, and `memcmp` of the C library are parameters (`Env`). The loop
-- runs under a bound on its rounds, since a script need not end.
--
-- Compact has `encode_cell` and `write_encoded` of compiler/source/compiler/sc6.c, with
-- `sc_compress` a parameter, and `expand` of compiler/source/amx/amx.c, which stores the cells over
-- the bytes that it has read: `Expanding` has its variables, with the ring of spare cells as a
-- list. What is given up or fails an assertion is `none`. FirstByte and ReadCell are about one
-- cell, Spares about the cells that wait, Tape about all bytes, and Roundtrip about both ends. The
-- rounds of the outer loop are as many as there are bytes, and every round reads at least one; the
-- loops of `encode_cell` make at most four rounds.
--
-- StateTable has the automata, states and state combinations of compiler/source/compiler/scstate.c.
-- The linked lists are lists, and the buffer of `state_buildlist` is a list with its items in use
-- counted apart, in which a write past the end gives `none`, as does an assertion that fails.
-- Combination.Conflict has `state_conflict`, with the fields that it reads of the symbol table.
--
-- Utf8 has `amx_UTF8Get`, `amx_UTF8Put` and `amx_UTF8Check` of compiler/source/amx/amx.c, on lists
-- of bytes. The rounds of the last are as many as there are bytes, and every round reads at least
-- one.
--
-- Peephole has the optimiser of compiler/source/compiler/sc7.c: the table of sequences for cells of 32
-- bits (Table and its children, joined in Rules), `matchsequence`, `replacesequence` and `strreplace`
-- (Peephole), and `stgopt` (Optimise). A text is the list of its bytes, with lines that end with a
-- newline and a zero byte. A template is read into items once (`scan`), where the C functions read it
-- while they match or write. Shrink, Match, Size and Buffer are about lengths and code sizes, Sound
-- about the table, Output about `stgopt` as a whole. The loops of `stgopt` run on fuel, one more than
-- the text has bytes, since every sequence that is applied makes the text shorter. Stage has the
-- writes to the staging buffer, and Reorder its output, with `stgstring` on fuel.
--
-- Assembler has the second half of compiler/source/compiler/sc6.c: the table `opcodelist`,
-- `findopcode`, `hex2long`, `getparam`, the functions of the table, and the passes of `assemble` over
-- the lines. The functions give the cells that they write and the size that they return apart; the
-- addresses of functions, which `findglb` finds, are a field of `Names`. The halvings of `findopcode`
-- have a bound of nine, which 158 names never use up, and the terms of a parameter one more than its
-- text has bytes. `codeindex` does not wrap.
--
-- Codegen has the functions of compiler/source/compiler/sc4.c that send instructions. `Gen` has the
-- globals that they read and write, and what they have sent to `stgwrite` with the last string first;
-- the errors that they report and their calls of `markusage` are kept in the same way. A failed
-- assertion gives `none`. Access, Store and Change are about variables, Control and Frame about jumps,
-- calls, the stack, the heap and addresses, Operator about operators; Call and Perform put the calls in
-- one type and run a list of them. Lines, Clean, Writes, Sends and Line are about the text, in the lines
-- that Assembler reads; Plain and Name about the instructions; Emits and its children about each
-- function; Follow and Labels about the first pass of the assembler, and Cells, Straight, Execute,
-- Operation and Compute about the cells of the second pass in Machine.
--
-- Host has what an application calls on a loaded script in compiler/source/amx/amx.c: `amx_Push`,
-- `amx_PushArray`, `amx_Allot`, `amx_Release`, `amx_GetAddr` and `amx_FindPublic`. Physical addresses
-- are offsets in the data, and `size_t` has 64 bits. The rounds of the search in `amx_FindPublic` are
-- one more than there are names, and every round that goes on leaves out at least one.
--
-- MemoryFile has compiler/source/compiler/memfile.c and scmemfil.c, where the compiler keeps the text
-- of the assembler file: `MemFile` is `memfile_t` with its bytes as a function of the position. Whether
-- `realloc` succeeds is a parameter, and an offset of `mfseek` is a number ahead less one behind. Lines
-- and Roundtrip are about `mfgets` and `mfputs`; a text is read until `mfgets` gives nothing, at most
-- once more than it has lines.
--
-- The bounds on rounds in CompactSet and in OP_SWITCH are the number of slots or of records, which
-- a binary search never uses up; the theorems hold of the functions with these bounds.
--
-- Not modelled: the checks of the callback and the flags before the start of `amx_Exec`, and the
-- other functions of the host interface; the parser of the compiler, and the head and the tail of the
-- file that the code generator writes; the growing and freeing of its buffers; the dump of a memory
-- file to the disk; the header, the name tables and the debug information that `assemble` writes; the
-- extension modules that call the operating system; the
-- debugger, the terminals and the copies of other projects (minIni, fpattern, lstring, hashtable);
-- and the Pawn libraries and experiments.
pub mod Prelude
pub mod CompactSet
pub mod Cell
pub mod Memory
pub mod Machine
pub mod Codegen
pub mod Host
pub mod MemoryFile
pub mod StateTable
pub mod Compact
pub mod Utf8
pub mod Peephole
pub mod Assembler
