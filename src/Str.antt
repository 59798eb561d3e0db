-- ===== src/Str.antt =====
-- src/str.c: the replacement of a placeholder, in two passes over the string.
pub mod Finds
pub mod Replaces
pub mod Copies
pub mod Result
use phxargs.Base.{
  ℕ, zero, suc, ◌+◌, ◌-◌, ◌*◌, ◌/◌, ◌%◌, Bool, true, false, ◌&&◌, not, List, [], ◌∷◌, ◌++◌, map,
  Option, none, some, Outcome, ok, exit, undefined, no_fuel, exit_failure, defined, ◌>>=◌, ltb,
  ◌==◌, if◌then◌else◌, length, take, drop, replicate,
}
use phxargs.Base.Strings.{Str, c_string}
use phxargs.Util.{size_max, wrapped}

unfoldable pub checked_mul : ℕ → ℕ → Outcome ℕ
checked_mul a b =
    if not (a == 0) && ltb (size_max / a) b then exit exit_failure else ok (wrapped (a * b))

unfoldable pub checked_add : ℕ → ℕ → Outcome ℕ
checked_add a b = if ltb (size_max - b) a then exit exit_failure else ok (wrapped (a + b))

-- The string begins with the needle.
unfoldable pub starts_with : Str → Str → Bool
starts_with [] s = true
starts_with (n ∷ needle) [] = false
starts_with (n ∷ needle) (c ∷ s) = n == c && starts_with needle s

-- `strstr`: the string from its first occurrence of the needle on.
unfoldable pub strstr : Str → Str → Option Str
unfolding starts_with
strstr [] needle = if starts_with needle [] then some [] else none
strstr (c ∷ s) needle = if starts_with needle (c ∷ s) then some (c ∷ s) else strstr s needle

-- `memcpy` to a place in a block; a write beyond the block is undefined.
unfoldable pub memcpy : List ℕ → ℕ → Str → Outcome (List ℕ)
memcpy block place bytes =
    if ltb (length block) (place + length bytes)
    then undefined
    else ok (take place block ++ bytes ++ drop (place + length bytes) block)

-- The first pass counts the occurrences.
unfoldable pub count_loop : ℕ → Str → Str → ℕ → Outcome ℕ
count_loop zero tmp placeholder occurrence_count = no_fuel
count_loop (suc rounds) tmp placeholder occurrence_count = elim (strstr tmp placeholder) [
  | none ↦ ok occurrence_count
  | some found ↦
      count_loop rounds (drop (length placeholder) found) placeholder (occurrence_count + 1)
]

-- The second pass writes the result.
unfoldable pub copy_loop : ℕ → Str → Str → Str → List ℕ → ℕ → Outcome (List ℕ)
copy_loop zero pos placeholder repl result new_pos = no_fuel
copy_loop (suc rounds) pos placeholder repl result new_pos = elim (strstr pos placeholder) [
  | none ↦ memcpy result new_pos (pos ++ 0 ∷ [])
  | some tmp ↦ (do
    let prefix_len = length pos - length tmp
    before ← memcpy result new_pos (take prefix_len pos)
    after ← memcpy before (new_pos + prefix_len) repl
    copy_loop rounds (drop (length placeholder) tmp) placeholder repl after
        (new_pos + prefix_len + length repl))
]

-- `replacement == NULL ? "" : replacement`.
abbrev pub or_empty : Option Str → Str
or_empty none = []
or_empty (some s) = s

-- The length of the result, from the lengths of the strings and the number of occurrences.
unfoldable pub replaced_length : ℕ → ℕ → ℕ → ℕ → Outcome ℕ
unfolding checked_mul checked_add
replaced_length target_len occurrence_count placeholder_len replacement_len = do
  removed ← checked_mul occurrence_count placeholder_len
  added ← checked_mul occurrence_count replacement_len
  checked_add (wrapped (target_len + (size_max + 1) - removed)) added

-- The block for the result, zeroed, what is written to it, and the string that is then in it.
unfoldable pub write_replaced : Str → Str → Str → ℕ → Outcome Str
write_replaced s placeholder repl new_len = do
  let result = replicate (wrapped (new_len + 1)) 0
  written ← copy_loop (length s + 1) s placeholder repl result 0
  defined (c_string (map some written))

-- Both pointers are given, and the placeholder is not empty.
unfoldable pub replace_in : Str → Str → Str → Outcome Str
unfolding replaced_length write_replaced
replace_in s placeholder repl = do
  occurrence_count ← count_loop (length s + 1) s placeholder 0
  new_len ← replaced_length (length s) occurrence_count (length placeholder) (length repl)
  write_replaced s placeholder repl new_len

unfoldable pub str_replace : Option Str → Option Str → Option Str → Outcome (Option Str)
str_replace none placeholder replacement = ok none
str_replace (some s) none replacement = ok (some s)
str_replace (some s) (some []) replacement = ok (some s)
str_replace (some s) (some (c ∷ placeholder)) replacement = do
  result ← replace_in s (c ∷ placeholder) (or_empty replacement)
  ok (some result)
