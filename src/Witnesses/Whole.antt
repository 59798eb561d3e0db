-- ===== src/Witnesses/Whole.antt =====
-- The whole program, and what it reads back, at concrete inputs.
use phxargs.Base.{
  ◌≤◌, ◌≡◌, refl, true, false, Bool, List, [], ◌∷◌, Option, none, some, arith, length, Yields, ◌≢◌,
  ◌⊎◌,
}
use phxargs.Base.Strings.{Str, NoNuls}
use phxargs.Stream.{Stream}
use phxargs.DelimTokenizer.Steps.{room}
use phxargs.Options.{Options, init_options}
use phxargs.XargsMode.Feeds.{Feeds}
use phxargs.XargsMode.Prints.{lines_of, nul_ended, Unmarked}
use phxargs.Xargs.{System, create_tokenizer, main}
use phxargs.Xargs.Starting.{Opened, standard_input, file}
use phxargs.Xargs.Inputs.{IsInput, create_tokenizer-reads}
use phxargs.Xargs.RoundTrips.{lines_of-Feeds, nul_ended-Feeds}
use phxargs.Xargs.Ends.{IsFit, Stops, Finished}
use phxargs.Xargs.Runs.{main-Finished}
use phxargs.Xargs.Success.{EndedWell, main-EndedWell}
use phxargs.Witnesses.{steady-IsLawful, small_command}
use phxargs.Witnesses.Starting.{small_system, percent_line}

-- 'a b' c
abbrev typed : Stream
typed = record {
  bytes = b'\'' ∷ b'a' ∷ b' ' ∷ b'b' ∷ b'\'' ∷ b' ' ∷ b'c' ∷ b'\n' ∷ [];
  error = false;
}

abbrev typing_system : System
typing_system = record small_system { files = record { stdin = typed; fopen = λ path. none } }

typing_system-short :
    (path : Option Str) (source : Stream)
    → Opened typing_system.files path source
    → length source.bytes ≤ room
typing_system-short none source standard_input = omega arith
typing_system-short (some path) source (file e) = cc

typing_system-IsFit : IsFit typing_system
typing_system-IsFit = record {
  lawful = steady-IsLawful;
  short = typing_system-short;
  limited = omega arith;
}

percent_line_whole : NoNuls percent_line
percent_line_whole =
    ((λ e. cc, (λ e. cc, tt)), ((λ e. cc, tt), ((λ e. cc, (λ e. cc, tt)), ((λ e. cc, tt), tt))))

main-Finished_example :
    Yields
      (Stops typing_system percent_line)
      (Finished typing_system percent_line)
      (main typing_system percent_line)
main-Finished_example =
    main-Finished typing_system percent_line typing_system-IsFit percent_line_whole

main-EndedWell_example :
    Yields
      (Stops typing_system percent_line)
      (λ status. (status ≢ 0) ⊎ (status ≡ 0) × EndedWell typing_system percent_line)
      (main typing_system percent_line)
main-EndedWell_example =
    main-EndedWell typing_system percent_line typing_system-IsFit percent_line_whole

create_tokenizer-reads_example :
    (tokens : List Str) × (errored : Bool) × IsInput true init_options typed tokens errored
    × Feeds true (create_tokenizer init_options small_command) typed tokens errored
    × ((others : List Str) (errored' : Bool)
        → IsInput true init_options typed others errored'
        → (others ≡ tokens) × (errored' ≡ errored))
create_tokenizer-reads_example =
    create_tokenizer-reads true init_options small_command typed (omega arith)

-- a" and the empty string.
abbrev odd_tokens : List Str
odd_tokens = (b'a' ∷ b'"' ∷ []) ∷ [] ∷ []

odd_tokens_whole : NoNuls odd_tokens
odd_tokens_whole = ((λ e. cc, (λ e. cc, tt)), (tt, tt))

odd_tokens-Unmarked : Unmarked none odd_tokens
odd_tokens-Unmarked = ((λ e. cc), ((λ e. cc), tt))

lines_of-Feeds_example :
    Feeds true
      (create_tokenizer init_options small_command)
      (record { bytes = lines_of odd_tokens; error = false })
      odd_tokens
      false
lines_of-Feeds_example =
    lines_of-Feeds true init_options small_command odd_tokens refl odd_tokens_whole
      odd_tokens-Unmarked (omega arith)

abbrev nul_options : Options
nul_options = record init_options { use_nul_char_as_arg_delimiter = true }

nul_ended-Feeds_example :
    Feeds true
      (create_tokenizer nul_options small_command)
      (record { bytes = nul_ended odd_tokens; error = false })
      odd_tokens
      false
nul_ended-Feeds_example =
    nul_ended-Feeds true nul_options small_command odd_tokens refl refl odd_tokens_whole
      (omega arith)
