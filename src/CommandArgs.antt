-- ===== src/CommandArgs.antt =====
-- src/command_args.c: a growable list of arguments that keeps its size in bytes.
pub mod Refines
use phxargs.Base.{
  ℕ, ◌+◌, List, [], ◌∷◌, ◌++◌, Option, Outcome, ok, ◌>>=◌, leb, if◌then◌else◌, get_elem?, length,
}
use phxargs.Base.Strings.{Str}
use phxargs.Util.{phxargs_double_capacity}

-- `args` is the part of the array that has been written; `capacity` is the array's size.
pub record CommandArgs : Type 0 where
  pub count : ℕ
  pub capacity : ℕ
  pub args : List Str
  pub length_bytes : ℕ

unfoldable pub command_args_create_with_capacity : ℕ → CommandArgs
command_args_create_with_capacity capacity = record {
  count = 0;
  capacity = capacity;
  args = [];
  length_bytes = 0;
}

unfoldable pub command_args_create : CommandArgs
unfolding command_args_create_with_capacity
command_args_create = command_args_create_with_capacity 10

unfoldable pub reallocate_if_needed : CommandArgs → Outcome CommandArgs
reallocate_if_needed args =
    if leb args.capacity args.count
    then (do
      capacity ← phxargs_double_capacity args.capacity
      ok (record args { capacity = capacity }))
    else ok args

unfoldable pub command_args_add : CommandArgs → Str → Outcome CommandArgs
command_args_add args new_arg = do
  room ← reallocate_if_needed args
  ok (record room {
    args = room.args ++ new_arg ∷ [];
    count = room.count + 1;
    length_bytes = room.length_bytes + (length new_arg + 1);
  })

abbrev pub command_args_count : CommandArgs → ℕ
command_args_count args = args.count

abbrev pub command_args_length : CommandArgs → ℕ
command_args_length args = args.length_bytes

abbrev pub command_args_at : CommandArgs → ℕ → Option Str
command_args_at args i = get_elem? args.args i
