-- ===== src/CommandArgs/Refines.antt =====
-- The argument vector as a list, with the size that it claims.
use phxargs.Base.{
  Yields, Yields-ok, Yields-exit, exit, exit_failure, true, ltb, ℕ, ◌+◌, ◌/◌, ◌≤◌, ◌<◌, ◌≡◌, refl,
  ap, inl, inr, List, [], ◌∷◌, ◌++◌, ok, leb, Bool-cases, length, arith, length-append,
}
use phxargs.Base.Strings.{Str}
use phxargs.Util.{phxargs_double_capacity, double_capacity_grows, double_capacity_total, size_max}
use phxargs.CommandArgs.{
  CommandArgs, command_args_add, command_args_create_with_capacity, reallocate_if_needed,
}

-- The bytes that the strings take, each with its terminator.
unfoldable pub bytes_of : List Str → ℕ
bytes_of [] = 0
bytes_of (s ∷ strings) = (length s + 1) + bytes_of strings

pub bytes_of-append : (xs ys : List Str) → bytes_of (xs ++ ys) ≡ bytes_of xs + bytes_of ys
unfolding bytes_of
bytes_of-append [] ys = omega arith
bytes_of-append (x ∷ xs) ys = omega (arith, bytes_of-append xs ys)

pub record Represents (a : CommandArgs) (items : List Str) : Type 0 where
  pub items_are : a.args ≡ items
  pub counted : a.count ≡ length items
  pub measured : a.length_bytes ≡ bytes_of items
  pub fits : a.count ≤ a.capacity

pub command_args_create_with_capacity-Represents :
    (capacity : ℕ) → Represents (command_args_create_with_capacity capacity) []
unfolding command_args_create_with_capacity bytes_of
command_args_create_with_capacity-Represents capacity = record {
  items_are = refl;
  counted = refl;
  measured = refl;
  fits = omega arith;
}

added-Represents :
    {a : CommandArgs} {items : List Str} (capacity : ℕ) (new_arg : Str)
    → Represents a items
    → a.count + 1 ≤ capacity
    → Represents
        (record a {
          args = a.args ++ new_arg ∷ [];
          count = a.count + 1;
          length_bytes = a.length_bytes + (length new_arg + 1);
          capacity = capacity;
        })
        (items ++ new_arg ∷ [])
unfolding bytes_of
added-Represents {a} {items} capacity new_arg r h = record {
  items_are = ap (λ xs. xs ++ new_arg ∷ []) r.items_are;
  counted = omega (arith, r.counted, length-append items (new_arg ∷ []));
  measured = omega (arith, r.measured, bytes_of-append items (new_arg ∷ []));
  fits = h;
}

-- In an array that is not full the argument is added in place.
pub command_args_add-room :
    {a : CommandArgs} {items : List Str} (new_arg : Str)
    → Represents a items
    → a.count < a.capacity
    → (a' : CommandArgs) × (command_args_add a new_arg ≡ ok a')
      × Represents a' (items ++ new_arg ∷ [])
      × (a'.capacity ≡ a.capacity)
unfolding command_args_add reallocate_if_needed
command_args_add-room {a} {items} new_arg r h = (
  record a {
    args = a.args ++ new_arg ∷ [];
    count = a.count + 1;
    length_bytes = a.length_bytes + (length new_arg + 1);
  },
  ground arith,
  added-Represents a.capacity new_arg r (omega arith),
  refl,
)

-- Adding an argument to an array with at most (2^64 - 1) / 2 places succeeds, whether the array is
-- full or not: the argument is the last of the list, and it is counted and measured.
pub command_args_add-Represents :
    {a : CommandArgs} {items : List Str} (new_arg : Str)
    → Represents a items
    → a.capacity ≤ size_max / 2
    → (a' : CommandArgs) × (command_args_add a new_arg ≡ ok a')
      × Represents a' (items ++ new_arg ∷ [])
unfolding command_args_add reallocate_if_needed
command_args_add-Represents {a} {items} new_arg r h = elim (Bool-cases (leb a.capacity a.count)) [
  | inr space ↦ let (a', e, r', _) = command_args_add-room new_arg r (ground arith) in (a', e, r')
  | inl full ↦
      let (capacity, e) = double_capacity_total a.capacity h in
      (
        record a {
          args = a.args ++ new_arg ∷ [];
          count = a.count + 1;
          length_bytes = a.length_bytes + (length new_arg + 1);
          capacity = capacity;
        },
        rw (full, e),
        added-Represents capacity new_arg r
            (omega (arith, r.fits, double_capacity_grows a.capacity capacity e)),
      )
]

add-exit :
    (a : CommandArgs) (new_arg : Str)
    → leb a.capacity a.count ≡ true
    → ltb (size_max / 2) a.capacity ≡ true
    → command_args_add a new_arg ≡ exit exit_failure
unfolding command_args_add reallocate_if_needed phxargs_double_capacity
add-exit a new_arg full large = ground arith

-- Adding an argument appends it, or exits with status 1 where there are 2^63 arguments or more.
pub command_args_add-Yields :
    {a : CommandArgs} {items : List Str} (new_arg : Str)
    → Represents a items
    → Yields
        (size_max / 2 < length items)
        (λ a'. Represents a' (items ++ new_arg ∷ []))
        (command_args_add a new_arg)
command_args_add-Yields {a} {items} new_arg r = elim (Bool-cases (leb a.capacity a.count)) [
  | inr space ↦
      let (a', e, r', _) = command_args_add-room new_arg r (ground arith) in Yields-ok e r'
  | inl full ↦ elim (Bool-cases (ltb (size_max / 2) a.capacity)) [
    | inr small ↦
        let (a', e, r') = command_args_add-Represents new_arg r (ground arith) in Yields-ok e r'
    | inl large ↦ Yields-exit (add-exit a new_arg full large) (ground (arith, r.counted, r.fits))
  ]
]
