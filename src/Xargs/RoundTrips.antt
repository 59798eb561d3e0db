-- ===== src/Xargs/RoundTrips.antt =====
-- What is written for the program is read back.
use phxargs.Base.{◌≤◌, ◌≡◌, refl, Bool, true, false, List, length}
use phxargs.Base.Strings.{Str, NoNuls}
use phxargs.DelimTokenizer.Steps.{room}
use phxargs.Options.{Options}
use phxargs.Command.{Command}
use phxargs.XargsMode.Feeds.{Feeds}
use phxargs.XargsMode.Prints.{lines_of, nul_ended, Unmarked, lines_of-Tokens, nul_ended-Tokens}
use phxargs.Xargs.{create_tokenizer}
use phxargs.Xargs.Inputs.{by_delimiter, items, words, create_tokenizer-Feeds}

-- Strings without NUL, none of them the marker of the logical end, that are written on a line each,
-- with a backslash in front of each byte, and as two quotes where the string is empty, in at most
-- 2^63 - 1 bytes, are the tokens that a new tokenizer feeds a mode with, where the options ask for no
-- delimiter; and no error ends them.
pub lines_of-Feeds :
    (char_is_signed : Bool) (opts : Options) (cmd : Command) (tokens : List Str)
    → by_delimiter opts ≡ false
    → NoNuls tokens
    → Unmarked opts.logical_end_of_input_marker tokens
    → length (lines_of tokens) ≤ room
    → Feeds char_is_signed
        (create_tokenizer opts cmd)
        (record { bytes = lines_of tokens; error = false })
        tokens
        false
lines_of-Feeds char_is_signed opts cmd tokens spaced whole free h =
    create_tokenizer-Feeds char_is_signed opts cmd _ tokens false h
      (words spaced (lines_of-Tokens opts.logical_end_of_input_marker tokens whole free))

-- Strings without NUL that are written with a NUL behind each, in at most 2^63 - 1 bytes, are the
-- tokens that a new tokenizer feeds a mode with where the options have `-0`; and no error ends them.
pub nul_ended-Feeds :
    (char_is_signed : Bool) (opts : Options) (cmd : Command) (tokens : List Str)
    → opts.use_nul_char_as_arg_delimiter ≡ true
    → opts.arg_delimiter ≡ 0
    → NoNuls tokens
    → length (nul_ended tokens) ≤ room
    → Feeds char_is_signed
        (create_tokenizer opts cmd)
        (record { bytes = nul_ended tokens; error = false })
        tokens
        false
nul_ended-Feeds char_is_signed opts cmd tokens nul none_given whole h =
    create_tokenizer-Feeds char_is_signed opts cmd _ tokens false h
      (items (rw nul refl) (rw none_given (nul_ended-Tokens char_is_signed tokens whole)))
