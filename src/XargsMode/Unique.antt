-- ===== src/XargsMode/Unique.antt =====
-- A tokenizer reads an input in one way only.
use phxargs.Base.{
  ◌≡◌, refl, sym, ap, ◌∙◌, Bool, List, Option, Outcome, ok, exit, abort, undefined, no_fuel,
}
use phxargs.Base.Strings.{Str}
use phxargs.Stream.{Stream}
use phxargs.Command.{Command}
use phxargs.XargsMode.{Toker, Fetched, tokenizer_next_token, is_error, toker_error}
use phxargs.XargsMode.Feeds.{Fetches, Feeds, finished, fed}

abbrev value_or : Fetched → Outcome Fetched → Fetched
value_or other (ok r) = r
value_or other (exit code) = other
value_or other abort = other
value_or other undefined = other
value_or other no_fuel = other

-- Two descriptions of the same call agree.
record Agree (char_is_signed : Bool) (toker toker' : Toker) (source source' after after' : Stream)
    (token token' : Option Str) (errored errored' : Bool) (cmd : Command)
    (f : Fetches char_is_signed toker source after token errored cmd)
    (g : Fetches char_is_signed toker' source' after' token' errored' cmd) : Type 0 where
  same_token : token ≡ token'
  same_toker : f.after ≡ g.after
  same_source : after ≡ after'
  same_error : errored ≡ errored'

Fetches-Agree :
    {char_is_signed : Bool} {toker toker' : Toker} {source source' after after' : Stream}
    {token token' : Option Str} {errored errored' : Bool} {cmd : Command}
    → toker ≡ toker'
    → source ≡ source'
    → (f : Fetches char_is_signed toker source after token errored cmd)
    → (g : Fetches char_is_signed toker' source' after' token' errored' cmd)
    → Agree char_is_signed toker toker' source source' after after' token token' errored errored'
        cmd f g
Fetches-Agree {char_is_signed} {toker'} {source} {token} {cmd} t s f g =
    let first : Fetched = record { token = token; toker = f.after; source = source; cmd = cmd } in
    let same =
      sym f.fetches
      ∙ ap (λ t. tokenizer_next_token char_is_signed t source cmd) t
      ∙ ap (λ s. tokenizer_next_token char_is_signed toker' s cmd) s
      ∙ g.fetches in
    let toker_same = ap (λ r. (value_or first r).toker) same in
    record {
      same_token = ap (λ r. (value_or first r).token) same;
      same_toker = toker_same;
      same_source = ap (λ r. (value_or first r).source) same;
      same_error = sym f.error_is ∙ ap (λ t. is_error (toker_error t)) toker_same ∙ g.error_is;
    }

-- The tokens that a tokenizer reads from an input, and how they end.
pub Feeds-unique :
    {char_is_signed errored errored' : Bool} {toker toker' : Toker} {source source' : Stream}
    {tokens tokens' : List Str} (cmd : Command)
    → toker ≡ toker'
    → source ≡ source'
    → Feeds char_is_signed toker source tokens errored
    → Feeds char_is_signed toker' source' tokens' errored'
    → (tokens ≡ tokens') × (errored ≡ errored')
Feeds-unique cmd t s (finished f) (finished g) =
    (refl, (Fetches-Agree t s (f cmd) (g cmd)).same_error)
Feeds-unique cmd t s (finished f) (fed g _ _) =
    let a = Fetches-Agree t s (f cmd) (g cmd) in let e = a.same_token in absurd (cc)
Feeds-unique cmd t s (fed f _ _) (finished g) =
    let a = Fetches-Agree t s (f cmd) (g cmd) in let e = a.same_token in absurd (cc)
Feeds-unique cmd t s (fed f _ more) (fed g _ more') =
    let a = Fetches-Agree t s (f cmd) (g cmd) in
    let (rest, ends) = Feeds-unique cmd a.same_toker a.same_source (more cmd) (more' cmd) in
    let token_same = a.same_token in (cc, ends)
