-- ===== src/DelimTokenizer/SignedChar.antt =====
-- A delimiter that is not ASCII, where `char` is signed.
use phxargs.Base.{ℕ, suc, ◌≤◌, ◌≡◌, true, false, List, [], ◌∷◌, some, ok, length, arith}
use phxargs.Base.Strings.{until_nul}
use phxargs.Buffer.Refines.{Represents}
use phxargs.DelimTokenizer.Items.{Avoids, nil, cons, final, without_newline}
use phxargs.DelimTokenizer.{DelimTokenizer, DelimNext, next_delim_token}
use phxargs.DelimTokenizer.Steps.{room}
use phxargs.DelimTokenizer.Reads.{next_delim_token-Item}

Avoids-high : (delim : ℕ) (bytes : List ℕ) → 128 ≤ delim → Avoids true delim bytes
Avoids-high delim [] h = nil
Avoids-high delim (c ∷ cs) h = cons (λ d. absurd (ground (arith, d, h))) (Avoids-high delim cs h)

-- Where `char` is signed, a delimiter from 128 on is never found: the input is one item, and no
-- line is counted, whatever it holds.
pub next_delim_token_high :
    {Ctx : Type 0} (on_input_boundary : Ctx → Ctx) (self : DelimTokenizer) (c : ℕ) (cs : List ℕ)
    (ctx : Ctx)
    → Represents self.base.buf []
    → suc (length cs) ≤ room
    → 128 ≤ self.delim
    → (n : DelimNext Ctx) × (next_delim_token true on_input_boundary self
          (record { bytes = c ∷ cs; error = false })
          ctx
        ≡ ok n)
      × (n.token ≡ some (until_nul (without_newline (c ∷ cs))))
      × (n.ctx ≡ ctx)
next_delim_token_high on_input_boundary self c cs ctx h r high =
    let (n, e, reads) =
      next_delim_token-Item true on_input_boundary self (c ∷ cs) false ctx h r
        (final (Avoids-high self.delim (c ∷ cs) high)) in
    (n, e, ground (arith, reads), reads.2)
