-- ===== src/DelimTokenizer/Reads.antt =====
-- A call of `next_delim_token` against the items of its input.
use mathlib.Core.Path.{subst}
use phxargs.Base.{
  ℕ, ◌+◌, ◌≤◌, ◌≡◌, refl, sym, ap, ◌∙◌, inl, inr, Bool, true, false, List, [], ◌∷◌, ◌++◌, none,
  some, ok, ◌==◌, length, concat-cases, length-append, append_assoc, append-nil, arith,
}
use phxargs.Base.Strings.{Str, until_nul}
use phxargs.Buffer.Refines.{Represents, buffer_reset-Represents}
use phxargs.Tokenizer.{TokenizerError, err_io, tokenizer_reset}
use phxargs.DelimTokenizer.Items.{
  Avoids, nil, cons, Item, delimited, final, first_item, trimmed, length-trimmed, is_delim_found,
  is_delim_missed,
}
use phxargs.DelimTokenizer.{
  DelimTokenizer, DelimNext, is_delim, delim_tokenizer_append_to_token, delim_tokenizer_end_token,
  strip_newline, delim_eof, delim_loop, next_delim_token,
}
use phxargs.DelimTokenizer.Steps.{Holds, room, append-Holds, end_token-Holds, strip_newline-Holds}

module _ (char_is_signed : Bool) {Ctx : Type 0} (on_input_boundary : Ctx → Ctx)
    (self : DelimTokenizer) where
  keep-step :
      (t : DelimTokenizer) {t' : DelimTokenizer} (ch : ℕ) (rest : List ℕ) (ferror : Bool)
      (ctx : Ctx)
      → is_delim char_is_signed t.delim ch ≡ false
      → delim_tokenizer_append_to_token t ch ≡ ok t'
      → delim_loop char_is_signed on_input_boundary (ch ∷ rest) t ferror ctx
        ≡ delim_loop char_is_signed on_input_boundary rest t' ferror ctx
  unfolding delim_loop
  keep-step t ch rest ferror ctx n e = ground (arith, n, e)

  delim-step :
      (t : DelimTokenizer) {t' : DelimTokenizer} {token : Str} (ch : ℕ) (rest : List ℕ)
      (ferror : Bool) (ctx : Ctx)
      → is_delim char_is_signed t.delim ch ≡ true
      → delim_tokenizer_end_token t ≡ ok (token, t')
      → delim_loop char_is_signed on_input_boundary (ch ∷ rest) t ferror ctx
        ≡ ok (record {
          token = some token;
          self = t';
          source = record { bytes = rest; error = ferror };
          ctx = on_input_boundary ctx;
        })
  unfolding delim_loop
  delim-step t ch rest ferror ctx d e = ground (arith, d, e)

  -- The loop goes over what holds no delimiter, and keeps it.
  loop-Avoids :
      {item : List ℕ} (acc : List ℕ) {t : DelimTokenizer} (rest : List ℕ) (ferror : Bool)
      (ctx : Ctx)
      → Avoids char_is_signed self.delim item
      → Holds self t acc
      → length acc + length item ≤ room
      → (t' : DelimTokenizer) × (delim_loop char_is_signed on_input_boundary
            (item ++ rest)
            t
            ferror
            ctx
          ≡ delim_loop char_is_signed on_input_boundary rest t' ferror ctx)
        × Holds self t' (acc ++ item)
  unfolding delim_loop
  loop-Avoids acc {t} rest ferror ctx nil h r = (t, refl, rw append-nil h)
  loop-Avoids acc {t} rest ferror ctx (cons {c} {cs} n a) h r =
      let (t', e, h') = append-Holds c h (omega arith) in
      let (t'', e', h'') =
        loop-Avoids (acc ++ c ∷ []) rest ferror ctx a h'
          (omega (arith, length-append acc (c ∷ []))) in
      (
        t'',
        keep-step t c (cs ++ rest) ferror ctx
              (ap (λ d. is_delim char_is_signed d c) h.delim_is
                ∙ is_delim_missed char_is_signed self.delim c n)
              e
            ∙ e',
        rw append_assoc at h'',
      )

  -- The token `item`, behind which the stream goes on with `rest`.
  abbrev pub Token : List ℕ → List ℕ → Bool → Ctx → DelimNext Ctx → Type 0
  Token item rest ferror ctx n =
      (n.token ≡ some (until_nul item))
      × (n.source ≡ record { bytes = rest; error = ferror })
      × (n.ctx ≡ ctx)
      × (n.self.delim ≡ self.delim)
      × (n.self.base.err ≡ self.base.err)
      × (held : List ℕ) × Represents n.self.base.buf held

  -- NULL, and an error state.
  abbrev pub Null : TokenizerError → Bool → Ctx → DelimNext Ctx → Type 0
  Null err ferror ctx n =
      (n.token ≡ none)
      × (n.source ≡ record { bytes = []; error = ferror })
      × (n.ctx ≡ ctx)
      × (n.self.base.err ≡ err)

  -- What the first item of an input leads to.
  abbrev pub Final : List ℕ → Bool → Ctx → DelimNext Ctx → Type 0
  Final bytes true ctx n = Null err_io true ctx n
  Final [] false ctx n = Null self.base.err false ctx n
  Final (c ∷ cs) false ctx n = Token (trimmed self.delim (c ∷ cs)) [] false ctx n

  abbrev pub Reads :
      {bytes : List ℕ} → Item char_is_signed self.delim bytes → Bool → Ctx → DelimNext Ctx → Type 0
  Reads (delimited item ch rest _ _ _) ferror ctx n =
      Token item rest ferror (on_input_boundary ctx) n
  Reads {bytes} (final _) ferror ctx n = Final bytes ferror ctx n

  loop-delim :
      {t : DelimTokenizer} {item : List ℕ} (ch : ℕ) (rest : List ℕ) (ferror : Bool) (ctx : Ctx)
      → Holds self t item
      → length item ≤ room
      → is_delim char_is_signed self.delim ch ≡ true
      → (n : DelimNext Ctx) × (delim_loop char_is_signed on_input_boundary (ch ∷ rest) t ferror ctx
          ≡ ok n)
        × Token item rest ferror (on_input_boundary ctx) n
  unfolding delim_loop
  loop-delim {t} {item} ch rest ferror ctx h r d =
      let (t', e, h') = end_token-Holds h r in
      (
        record {
          token = some (until_nul item);
          self = t';
          source = record { bytes = rest; error = ferror };
          ctx = on_input_boundary ctx;
        },
        delim-step t ch rest ferror ctx (ap (λ d. is_delim char_is_signed d ch) h.delim_is ∙ d) e,
        (refl, refl, refl, h'.delim_is, h'.err_is, item ++ 0 ∷ [], h'.represents),
      )

  -- The tokenizer at the start of a call.
  abbrev fresh : DelimTokenizer
  fresh = record self { base = tokenizer_reset self.base; token_start = 0 }

  begun : {held : List ℕ} → Represents self.base.buf held → Holds self fresh []
  unfolding tokenizer_reset
  begun h = record {
    start_is = refl;
    represents = buffer_reset-Represents h;
    delim_is = refl;
    err_is = refl;
  }

  eof-step :
      (t : DelimTokenizer) {t₁ t₂ : DelimTokenizer} {token : Str} (ctx : Ctx)
      → (t.token_start == t.base.buf.pos) ≡ false
      → strip_newline t ≡ ok t₁
      → delim_tokenizer_end_token t₁ ≡ ok (token, t₂)
      → delim_loop char_is_signed on_input_boundary [] t false ctx
        ≡ ok (record {
          token = some token;
          self = t₂;
          source = record { bytes = []; error = false };
          ctx = ctx;
        })
  unfolding delim_loop delim_eof
  eof-step t ctx n e₁ e₂ = rw (n, e₁, e₂)

  loop-eof :
      {t : DelimTokenizer} (bytes : List ℕ) (ferror : Bool) (ctx : Ctx)
      → Holds self t bytes
      → length bytes ≤ room
      → (n : DelimNext Ctx) × (delim_loop char_is_signed on_input_boundary [] t ferror ctx ≡ ok n)
        × Final bytes ferror ctx n
  unfolding delim_loop delim_eof
  loop-eof {t} bytes true ctx h r = (
    record {
      token = none;
      self = record t { base = record t.base { err = err_io } };
      source = record { bytes = []; error = true };
      ctx = ctx;
    },
    refl,
    (refl, refl, refl, refl),
  )
  loop-eof {t} [] false ctx h r = (
    record { token = none; self = t; source = record { bytes = []; error = false }; ctx = ctx },
    ground (arith, h.start_is, h.represents.position),
    (refl, refl, refl, h.err_is),
  )
  loop-eof {t} (c ∷ cs) false ctx h r = elim (concat-cases (c ∷ cs)) [
    | inl e ↦ absurd (cc)
    | inr (front, l, e) ↦
        let (t₁, e₁, h₁) =
          strip_newline-Holds {origin = self} {t = t} front l (subst (Holds self t) e h) in
        let (t₂, e₂, h₂) =
          end_token-Holds (subst (λ x. Holds self t₁ (trimmed self.delim x)) (sym e) h₁)
            (omega (arith, length-trimmed self.delim (c ∷ cs))) in
        (
          record {
            token = some (until_nul (trimmed self.delim (c ∷ cs)));
            self = t₂;
            source = record { bytes = []; error = false };
            ctx = ctx;
          },
          eof-step t ctx (ground (arith, h.start_is, h.represents.position)) e₁ e₂,
          (
            refl,
            refl,
            refl,
            h₂.delim_is,
            h₂.err_is,
            trimmed self.delim (c ∷ cs) ++ 0 ∷ [],
            h₂.represents,
          ),
        )
  ]

  -- A call reads the first item of its input: up to the delimiter, counting a line, or up to the
  -- end, with one newline less unless the newline is the delimiter. A read error at the end gives NULL. A
  -- byte is the delimiter where it equals it, and `char` is unsigned or the delimiter is below 128. A
  -- NUL cuts the token short. After a token the tokenizer is fit for another call.
  pub next_delim_token-Item :
      (bytes : List ℕ) (ferror : Bool) (ctx : Ctx) {held : List ℕ}
      → Represents self.base.buf held
      → length bytes ≤ room
      → (item : Item char_is_signed self.delim bytes)
      → (n : DelimNext Ctx) × (next_delim_token char_is_signed on_input_boundary self
            (record { bytes = bytes; error = ferror })
            ctx
          ≡ ok n)
        × Reads item ferror ctx n
  unfolding next_delim_token tokenizer_reset
  next_delim_token-Item bytes ferror ctx h r (delimited item ch rest e a d) =
      let (t, e₁, h₁) =
        loop-Avoids [] (ch ∷ rest) ferror ctx a (begun h)
          (omega (arith, ap length e, length-append item (ch ∷ rest))) in
      let (n, e₂, t₂) =
        loop-delim ch rest ferror ctx h₁
          (omega (arith, ap length e, length-append item (ch ∷ rest)))
          (is_delim_found char_is_signed self.delim ch d) in
      (n, ap (λ x. delim_loop char_is_signed on_input_boundary x fresh ferror ctx) e ∙ e₁ ∙ e₂, t₂)
  next_delim_token-Item bytes ferror ctx h r (final a) =
      let (t, e₁, h₁) = loop-Avoids [] [] ferror ctx a (begun h) (omega arith) in
      let (n, e₂, t₂) = loop-eof bytes ferror ctx h₁ r in
      (
        n,
        ap (λ x. delim_loop char_is_signed on_input_boundary x fresh ferror ctx)
              (sym (append-nil bytes))
            ∙ e₁
            ∙ e₂,
        t₂,
      )

  -- No input below 2 ^ 63 bytes makes the tokenizer leave the process or read memory without a value.
  pub next_delim_token-total :
      (bytes : List ℕ) (ferror : Bool) (ctx : Ctx) {held : List ℕ}
      → Represents self.base.buf held
      → length bytes ≤ room
      → (item : Item char_is_signed self.delim bytes) × (n : DelimNext Ctx) × (next_delim_token
            char_is_signed on_input_boundary self
            (record { bytes = bytes; error = ferror })
            ctx
          ≡ ok n)
        × Reads item ferror ctx n
  next_delim_token-total bytes ferror ctx h r =
      let item = first_item char_is_signed self.delim bytes in
      let (n, e, reads) = next_delim_token-Item bytes ferror ctx h r item in (item, n, e, reads)
