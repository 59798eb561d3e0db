-- ===== src/Buffer.antt =====
-- src/buffer.c: a growable byte array.
pub mod Refines
use phxargs.Base.{
  ℕ, ◌+◌, ◌-◌, List, ◌++◌, Option, none, some, Outcome, ok, ltb, ◌==◌, if◌then◌else◌, set,
  replicate, ◌>>=◌,
}
use phxargs.Util.{phxargs_double_capacity}

-- A cell holds a byte, or `none` where nothing has been written.
pub record Buffer : Type 0 where
  pub buf : List (Option ℕ)
  pub sz : ℕ
  pub pos : ℕ

unfoldable pub buffer_create : ℕ → Buffer
buffer_create sz = record { buf = replicate (sz + 1) (some 0); sz = sz; pos = 0 }

-- `realloc` keeps what fits; a longer block ends in cells without a value.
unfoldable pub grow : Buffer → Outcome Buffer
grow b = do
  sz ← phxargs_double_capacity b.sz
  ok (record b { buf = b.buf ++ replicate (sz - b.sz) none; sz = sz })

unfoldable pub store : Buffer → ℕ → Buffer
store b ch = record b { buf = set b.buf b.pos (some ch); pos = b.pos + 1 }

unfoldable pub buffer_put : Buffer → ℕ → Outcome Buffer
unfolding grow store
buffer_put b ch = do room ← if b.pos == b.sz then grow b else ok b; ok (store room ch)

unfoldable pub buffer_drop_last : Buffer → Buffer
buffer_drop_last b = if ltb 0 b.pos then record b { pos = b.pos - 1 } else b

unfoldable pub buffer_reset : Buffer → Buffer
buffer_reset b = record b { pos = 0 }
