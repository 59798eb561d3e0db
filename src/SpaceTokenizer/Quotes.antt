-- ===== src/SpaceTokenizer/Quotes.antt =====
-- The loop between quotes, and over a whole word.
use phxargs.Base.{
  ℕ, ◌+◌, ◌≤◌, ◌≡◌, refl, ◌∙◌, ◌⊎◌, inr, Bool, true, false, List, [], ◌∷◌, ◌++◌, ◌==◌, length,
  length-append, append_assoc, append-nil, arith,
}
use phxargs.SpaceTokenizer.Grammar.{IsQuotable, Word, nil, cons, plain, escaped, quoted}
use phxargs.SpaceTokenizer.Steps.{
  Holds, room, at_state, append-Holds, Reaches, in_token-plain, in_token-escape, in_token-quote,
}
use phxargs.SpaceTokenizer.{
  SpaceTokenizerState, in_token, in_quoted_token, in_token_quoted, SpaceTokenizer, handle_char,
  handle_quoted_char, space_loop,
}

abbrev pub IsQuoting : SpaceTokenizerState → Type 0
IsQuoting st = (st ≡ in_quoted_token) ⊎ (st ≡ in_token_quoted)

module _ {Ctx : Type 0} (on_input_boundary : Ctx → Ctx) (origin : SpaceTokenizer) where
  quoted-char :
      {t : SpaceTokenizer} {st : SpaceTokenizerState} {acc : List ℕ} (q ch : ℕ) (rest : List ℕ)
      (ferror : Bool) (ctx : Ctx)
      → IsQuoting st
      → Holds origin t st acc
      → t.quote_char ≡ q
      → length acc ≤ room
      → (ch == q) ≡ false
      → (ch == b'\n') ≡ false
      → (t' : SpaceTokenizer) × (space_loop on_input_boundary (ch ∷ rest) t ferror true ctx
          ≡ space_loop on_input_boundary rest t' ferror true ctx)
        × Holds origin t' st (acc ++ ch ∷ [])
        × (t'.quote_char ≡ q)
  unfolding space_loop handle_char handle_quoted_char
  quoted-char {t} q ch rest ferror ctx s h qc r ne nl =
      let (t', e, h', same) = append-Holds ch h r in
      (t', ground (arith, h.state_is, e), h', same ∙ qc)

  pub quoted-IsQuotable :
      {st : SpaceTokenizerState} {q : ℕ} {body : List ℕ} (acc : List ℕ) {t : SpaceTokenizer}
      (rest : List ℕ) (ferror : Bool) (ctx : Ctx)
      → IsQuoting st
      → Holds origin t st acc
      → t.quote_char ≡ q
      → length acc + length body ≤ room
      → IsQuotable q body
      → (t' : SpaceTokenizer) × (space_loop on_input_boundary (body ++ rest) t ferror true ctx
          ≡ space_loop on_input_boundary rest t' ferror true ctx)
        × Holds origin t' st (acc ++ body)
        × (t'.quote_char ≡ q)
  quoted-IsQuotable acc {t} rest ferror ctx s h qc r nil = (t, refl, rw append-nil h, qc)
  quoted-IsQuotable {q} acc rest ferror ctx s h qc r (cons {c} {cs} ne nl w) =
      let (t', e, h', qc') = quoted-char q c (cs ++ rest) ferror ctx s h qc (omega arith) ne nl in
      let (t'', e', h'', qc'') =
        quoted-IsQuotable (acc ++ c ∷ []) rest ferror ctx s h' qc'
          (omega (arith, length-append acc (c ∷ []))) w in
      (t'', e ∙ e', rw append_assoc at h'', qc'')

  pub quoted-close :
      {t : SpaceTokenizer} {st : SpaceTokenizerState} {acc : List ℕ} (q : ℕ) (rest : List ℕ)
      (ferror : Bool) (ctx : Ctx)
      → IsQuoting st
      → Holds origin t st acc
      → t.quote_char ≡ q
      → Reaches on_input_boundary origin t (q ∷ rest) ferror true ctx rest in_token acc
  unfolding space_loop handle_char handle_quoted_char
  quoted-close {t} q rest ferror ctx s h qc =
      (record t { state = in_token }, ground (arith, h.state_is), at_state in_token h)

  -- A part of a word, read in a token, adds the value it stands for.
  pub in_token-Word :
      {raw value : List ℕ} (acc : List ℕ) {t : SpaceTokenizer} (rest : List ℕ) (ferror : Bool)
      (ctx : Ctx)
      → Word raw value
      → Holds origin t in_token acc
      → length acc + length raw ≤ room
      → Reaches on_input_boundary origin t
          (raw ++ rest)
          ferror
          true
          ctx
          rest
          in_token
          (acc ++ value)
  in_token-Word acc {t} rest ferror ctx nil h r = (t, refl, rw append-nil h)
  in_token-Word acc rest ferror ctx (plain {c} {raw} p w) h r =
      let (t', e, h') =
        in_token-plain on_input_boundary origin c (raw ++ rest) ferror ctx h (omega arith) p in
      let (t'', e', h'') =
        in_token-Word (acc ++ c ∷ []) rest ferror ctx w h'
          (omega (arith, length-append acc (c ∷ []))) in
      (t'', e ∙ e', rw append_assoc at h'')
  in_token-Word acc rest ferror ctx (escaped {raw} c w) h r =
      let (t', e, h') =
        in_token-escape on_input_boundary origin c (raw ++ rest) ferror ctx h (omega arith) in
      let (t'', e', h'') =
        in_token-Word (acc ++ c ∷ []) rest ferror ctx w h'
          (omega (arith, length-append acc (c ∷ []))) in
      (t'', e ∙ e', rw append_assoc at h'')
  in_token-Word acc rest ferror ctx (quoted {q} {body} {raw} iq b w) h r =
      let (t₁, e₁, h₁, qc₁) =
        in_token-quote on_input_boundary origin q (body ++ (q ∷ (raw ++ rest))) ferror ctx h iq in
      let len = length-append body (q ∷ raw) in
      let (t₂, e₂, h₂, qc₂) =
        quoted-IsQuotable acc (q ∷ (raw ++ rest)) ferror ctx (inr refl) h₁ qc₁ (omega (arith, len))
          b in
      let (t₃, e₃, h₃) = quoted-close q (raw ++ rest) ferror ctx (inr refl) h₂ qc₂ in
      let (t₄, e₄, h₄) =
        in_token-Word (acc ++ body) rest ferror ctx w h₃
          (omega (arith, len, length-append acc body)) in
      (t₄, rw append_assoc (e₁ ∙ e₂ ∙ e₃ ∙ e₄), rw append_assoc at h₄)
