-- ===== src/Lib.antt =====
-- YaST's core: the static types, the values, the bytecode and the evaluation of YCP (libycp/src).
--
-- YCP programs are compiled to bytecode files that hold code, static types and constant values.
-- libycp/src/Type.cc decides which types fit which others; libycp/src/YCPValue.cc and the classes
-- beside it are the values that programs compute with; libycp/src/Bytecode.cc writes and reads
-- both. libycp/src/YExpression.cc, YStatement.cc and YBlock.cc evaluate code. The primitives are at
-- the bottom; the types and the values use them, and meet in Type::matchvalue; the code uses all.
--
-- Prelude: Boolean tests on the native ℕ, byte lists, the integers with the conversion to `int`,
-- and the chaining of results that may be a fault.
--
-- Bytecode (libycp/src/Bytecode.cc, libycp/src/YCPInteger.cc). Bytecode.Stream is a C++ input
-- stream: the bytes that are left, whether it is still good, and what `get` leaves in its variable
-- when it fails. Int32 has writeBool, readBool, writeInt32 and readInt32; Text has writeString,
-- readString, readUstring, readCharp, writeBytep and readBytep; Int64 has the `long long` of
-- YCPIntegerRep::toStream and its reader; Namespace has the stack of namespaces around the code
-- that is read or written (pushNamespace, popNamespace, popUptoNamespace, tareStack, untareStack,
-- namespaceId, namespacePtr).
--
-- Types (libycp/src/Type.cc, libycp/src/include/ycp/Type.h). Types.Defs has a constructor for
-- class Type and for each subclass. Each virtual function is one function by clauses, and each
-- overriding a function of its own (ListType::match is match_list) that takes the results for the
-- parts of the type: Match has basematch and match, Equals has equals and canCast, Flex has clone,
-- unflex and matchFlex, Common has commontype and detailedtype, Stream has toStream,
-- Bytecode::readType and the constructors from a stream. `none` is a fault: an access through a
-- null pointer, a cast to a subclass that the object has not, or an element out of range. The
-- `int` of match is a ℤ. Print has toString; Signature has nextToken and fromSignature of
-- libycp/src/TypeStatics.cc, whose result is a type with the text behind it, a null pointer, or no
-- fuel: what fromSignature calls on the rest of the text is an argument of its parts.
--
-- Symbols (libycp/src/SymbolTable.cc). Symbols.Table has the hash table of symbols: enter, find,
-- xref, remove, openXRefs and the tracking of used entries, on buckets that nest what the pointers
-- of the entries link. A loop that never ends is a result of its own there.
--
-- Values (libycp/src/YCPValue.cc, YCPList.cc, YCPMap.cc, YCPPath.cc, YCPInteger.cc, YCPFloat.cc,
-- YCPString.cc, YCPSymbol.cc, YCPByteblock.cc, YCPTerm.cc). Values.Defs has a constructor for each
-- class of data and one for a null handle. A map is the sequence of its entries in the order of
-- the STL map. Compare has YCPValueRep::compare with the compare of each class, and Compare.Key
-- the trees whose lexicographic order it is; Map and List have the operations of YCPMapRep and
-- YCPListRep; Path has the constructor of YCPPathRep from text, Component and toString, and
-- Path.Steps append, isPrefixOf, at and prefix; Typing has Type::matchvalue, where types and
-- values meet; Stream has Bytecode::writeValue and readValue with the toStream and the stream
-- constructor of each class. What a function of the source does to its object is the object that
-- the model's function returns.
--
-- Code (libycp/src/YExpression.cc, YStatement.cc, YBlock.cc, YCPBuiltinBoolean.cc,
-- ExecutionEnvironment.cc, liby2/src/SymbolEntry.cc, liby2/src/Y2Namespace.cc). Code.Syntax has a
-- constructor for each class of expressions and statements. Code.State is what evaluation changes:
-- the values and the recursion stacks of the symbol entries, the running flags of the blocks and the
-- number of call frames. Code.Eval has the evaluate methods, one clause for each class, as mutually
-- recursive functions that pass the state on; what a class does between the evaluations of its parts
-- is a function of its own in Code.Steps, in Code.Convert where it looks at values only, and in
-- Code.Bracket for bracket access and assignment (select, commit). The result is an Outcome: a
-- value and a state, a fault of the process (`abort ()`, a null access), or no fuel. Builtins that
-- take one or two arguments are functions on values; the functions that code may call, the
-- recursion limit and the casts between numbers are the record Machine. Code.Keeps, Code.Stops,
-- Code.Fuel and Code.Loops are the proofs; they share Code.Steps.Rules, by which a property passes
-- from the parts of code to what stands between them.
--
-- Builtins (libycp/src/YCPBuiltinList.cc, YCPBuiltinMap.cc, YCPBuiltinString.cc,
-- YCPBuiltinTerm.cc, YCPBuiltinPath.cc). Paths and Terms have all those on paths and terms.
-- Builtins.Lists and Builtins.Maps have those that evaluate no code (l_unionlist and so on, by the names of the
-- source); Loops and Maps.Loops those that assign each element to a symbol entry and evaluate code,
-- which is an argument there; Split has l_splitstring and s_mergestring. The STL set is its elements
-- in ascending order. Strings has the searches, substring, deletechars, filterchars and toascii, with
-- the functions of the C++ strings written out: npos is none, and the loops of deletechars and
-- filterchars take one unit of fuel for each character and one more.
--
-- Outside the repository: doubles are bit patterns whose equality and order are the record
-- Doubles, with the record Ranked for what is known of doubles that are numbers; their text
-- (strtol, atof, the format `%g`) is the record DoubleText. isprint and isxdigit are those of the
-- C locale. The conversions utf82wchar and wchar2utf8 of libycp/src/y2string.cc, whose work is done
-- by iconv, are the record Wide.
--
-- The text of a flex's number (snprintf) is a parameter. The numbers of flexes are unbounded in
-- signatures, where the source leaves those beyond `int` undefined. isspace, isdigit and
-- strncasecmp too are those of the C locale.
--
-- Fuel: read_type and read_value take a bound on the nesting of what they read, since a stream may
-- hold types and values of any depth. One unit for each level is enough, which `depth` counts: the
-- theorems on them hold from there on. Each call of the functions of Code.Eval, and each round of a
-- loop, takes a unit. Code need not end, so no fixed amount is enough for all; Code.Stops has an
-- amount that is enough for code without loops, Code.Loops.Total one for loops that count down, and
-- Code.Fuel compares one amount with another. from_signature takes a unit for each call and each round
-- of its loops; two for each character of the text and two more are enough.
--
-- Not modelled: values that are code, entries, references or externals, and so function pointers,
-- references to variables and builtins that take code or symbols; the evaluation at parse time, the
-- debugger, imports and includes; the comparison of strings by the locale, reference counting and
-- the sharing of values, output as XML or as text other than that of paths and types, the debug
-- messages, and the rest of libycp (the parser, the choice among overloaded builtins, the other
-- builtins) and of the repository (the agents, SCR, WFM, the component model), which do input and
-- output or stand on the parts modelled here.
pub mod Prelude
pub mod Builtins
pub mod Bytecode
pub mod Code
pub mod Symbols
pub mod Types
pub mod Values
