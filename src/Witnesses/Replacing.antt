-- ===== src/Witnesses/Replacing.antt =====
-- Replacements at concrete inputs; the inputs of the tests are those of tests/test_str_replace.c.
use phxargs.Base.{
  ℕ, ◌<◌, ◌≡◌, ◌⊎◌, refl, [], ◌∷◌, none, some, ok, undefined, exit, exit_failure, arith, length,
}
use phxargs.Base.Strings.{Str}
use phxargs.Util.{size_max}
use phxargs.Str.{
  str_replace, replace_in, count_loop, copy_loop, write_replaced, replaced_length, checked_mul,
  checked_add, strstr, starts_with, memcpy,
}
use phxargs.Str.Replaces.{Replaces}
use phxargs.Str.Result.{replace_in-Replaces}

abbrev braces : Str
braces = b'{' ∷ b'}' ∷ []

-- a{}b
abbrev template : Str
template = b'a' ∷ b'{' ∷ b'}' ∷ b'b' ∷ []

-- A target that is NULL.
target_null : str_replace none (some (b'%' ∷ [])) (some (b'a' ∷ [])) ≡ ok none
unfolding str_replace
target_null = refl

-- A placeholder that is NULL.
placeholder_null : str_replace (some template) none (some (b'a' ∷ [])) ≡ ok (some template)
unfolding str_replace
placeholder_null = refl

-- {}{}- with a
shorter_than_placeholder :
    str_replace (some (b'{' ∷ b'}' ∷ b'{' ∷ b'}' ∷ b'-' ∷ [])) (some braces) (some (b'a' ∷ []))
    ≡ ok (some (b'a' ∷ b'a' ∷ b'-' ∷ []))
unfolding str_replace replace_in count_loop copy_loop write_replaced replaced_length checked_mul
    checked_add strstr starts_with memcpy
shorter_than_placeholder = refl

-- s%e with a replacement that is NULL
replacement_null :
    str_replace (some (b's' ∷ b'%' ∷ b'e' ∷ [])) (some (b'%' ∷ [])) none
    ≡ ok (some (b's' ∷ b'e' ∷ []))
unfolding str_replace replace_in count_loop copy_loop write_replaced replaced_length checked_mul
    checked_add strstr starts_with memcpy
replacement_null = refl

replace_in-Replaces_example :
    (out : Str) × (n : ℕ) × Replaces braces (b'x' ∷ b'y' ∷ b'z' ∷ []) template out n
    × ((length out < size_max) × (replace_in template braces (b'x' ∷ b'y' ∷ b'z' ∷ []) ≡ ok out)
        ⊎ (length out ≡ size_max)
          × (replace_in template braces (b'x' ∷ b'y' ∷ b'z' ∷ []) ≡ undefined)
        ⊎ (size_max < length out)
          × (replace_in template braces (b'x' ∷ b'y' ∷ b'z' ∷ []) ≡ exit exit_failure))
replace_in-Replaces_example =
    replace_in-Replaces braces (b'x' ∷ b'y' ∷ b'z' ∷ []) template (omega arith)
      (λ e. cc, (λ e. cc, (λ e. cc, (λ e. cc, tt)))) (λ e. cc, (λ e. cc, (λ e. cc, tt)))
      (omega arith)
