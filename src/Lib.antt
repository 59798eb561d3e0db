-- ===== src/Lib.antt =====
-- phxargs, an xargs clone in C: its parts and what is proved of them.
--
-- The program reads tokens from its input, appends them to a command line until a limit is reached,
-- launches the command, and waits for its children. The files below src/ of the repository and the
-- modules here correspond one to one:
--   util.c             Util            exits on failure, growth of a capacity
--   buffer.c           Buffer          growable byte array; Refines: the list that it stands for
--   tokenizer.c        Tokenizer       buffer and error state that both tokenizers share
--   space_tokenizer.c  SpaceTokenizer  the state machine; Grammar: its input language with no
--                                      mention of states; Marker: the end marker; Steps, Quotes,
--                                      Start, Ends: the loop over each piece of it; Reads, Total: a
--                                      whole call
--   delim_tokenizer.c  DelimTokenizer  -d and -0; Items: the input language; Steps: one operation;
--                                      Reads: a whole call; SignedChar: delimiters from 128 on
--   process_pool.c     ProcessPool     Pids: the array as a list; Status: severities; Reap: one
--                                      answer of waitpid; Signals: the limit; Loops: waiting, draining;
--                                      Success: what the status 0 says
--   exit_codes.h       ExitCodes
--   str.c              Str             Finds: strstr; Replaces: the text with its replacements; Copies:
--                                      the second pass; Result: the whole
--   command_args.c     CommandArgs     argument lists; Refines: the list and its size
--   options.c          Options         Numbers: the arguments that are numbers; Choices: what the
--                                      options mean; Parses, Creates: that the code does it;
--                                      Exclusions: what then always holds; Accessors
--   command.c          Command         the parent's side of a launch; Limits: -n and -s; Create: the
--                                      fixed arguments and the limit; Child, ChildEnds: trace,
--                                      question, exec
--   xargs_mode.c       XargsMode       what the modes share; Launches: the history of launches;
--                                      Executes: one execution;
--                                      Feeds: how a tokenizer feeds a mode; Inputs, SpaceInputs,
--                                      DelimInputs: the tokens of a whole input; Unique: that they
--                                      are the only ones; Prints: inputs written from tokens
--   appender_mode.c    AppenderMode    the default mode; Batches: the limits, and how far they are
--                                      used; Serves: what is launched and held; Tests: the tests at
--                                      a token; Passes: one round; Loop, Finish, Runs: all of it
--   replacer_mode.c    ReplacerMode    -I; Arguments: the replacement in the words; Rounds: one token;
--                                      Loop, Runs: all of it
--   arg_source.c       ArgSource       the standard input or a file
--   xargs.c, main.c    Xargs           creation of a mode, also that of xargs_mode.c, and the run;
--                                      Starting: what a run starts from; Inputs: the tokens that
--                                      the options ask for; RoundTrips: what is written is read back;
--                                      Ends, Runs, Success: the whole program
-- Strtol and Getopt are strtol and getopt, as C and POSIX describe them and options.c calls them.
-- Base holds shared names, Base.Strings C strings, Base.Int signed integers, Base.Cells arrays.
--
-- How state is modelled. A struct is a record with the source's field names, and an operation is the
-- function of the source's name from the old record to the new one. Outcome is what C code may do:
-- return (ok), call exit, fail an assert (abort), or read memory without a value (undefined). Bytes
-- and sizes are natural numbers. The guards against overflow that the source has are kept; other
-- size_t sums are taken as exact. Memory is a list of cells, none where nothing has been written.
--
-- What is a parameter. The signedness of char (char_is_signed); the callback on_input_boundary of
-- the tokenizers; the operating system, as the record Kernel of World: pids that fork returns, the
-- answers of waitpid, and the signals that arrive before and within an adjustment of the limit.
-- IsLawful (ProcessPool.Reap) states what waitpid promises: after finitely many interruptions it
-- answers with a child in flight that has ended. World also keeps the history of the children
-- launched and reaped, which the program does not read. What fopen, the environment and sysconf
-- answer is in System (Xargs) and Files (ArgSource), the child's terminal and execvp in ChildSystem
-- (Command.Child).
--
-- Bounds. The loops of the tokenizers recur on the bytes that getc still returns. Those of the pool
-- take as many rounds as there are children in flight, and the theorems show that no_fuel, the mark
-- of a bound that was too small, does not occur. The modes take one round more than the input
-- has bytes.
--
-- How the parts meet. The grammars of the tokenizers (SpaceTokenizer.Grammar, DelimTokenizer.Items) say
-- what one call reads; XargsMode.Inputs makes them the tokens of a whole input; Feeds is what a mode
-- needs of its tokenizer, and a created tokenizer gives it (Xargs.Inputs). The runs of the modes
-- stand on Feeds, on the history of launches (XargsMode.Launches) and on the pool (ProcessPool.Loops);
-- Xargs.Runs puts them behind the creation from the arguments (Xargs.Starting).
--
-- Not modelled: messages to stderr but the trace, free, heap exhaustion, closing of files, and the
-- installation of the signal handlers. The wrap-around of the sizes that are given to realloc for the
-- arrays of pids and of arguments is dropped, as are the bounds of the signal counters; the array of
-- arguments is the list of its first count cells.
pub mod Base
pub mod Util
pub mod Buffer
pub mod Stream
pub mod Tokenizer
pub mod SpaceTokenizer
pub mod DelimTokenizer
pub mod ExitCodes
pub mod World
pub mod ProcessPool
pub mod CommandArgs
pub mod Strtol
pub mod Getopt
pub mod Options
pub mod Str
pub mod Command
pub mod XargsMode
pub mod AppenderMode
pub mod ReplacerMode
pub mod ArgSource
pub mod Xargs
mod Witnesses
