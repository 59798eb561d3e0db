-- ===== src/SpaceTokenizer/Total.antt =====
-- Every input has one of the grammar's shapes.
use phxargs.Base.{
  ℕ, ◌≡◌, refl, ◌⊎◌, sym, ap, ◌∙◌, ◌≢◌, inl, inr, Bool, true, false, List, [], ◌∷◌, ◌++◌, ◌==◌,
  ==_iff, Bool-cases, arith, append_assoc, append-nil, length, ◌≤◌, ok,
}
use mathlib.Core.Path.{subst}
use phxargs.Base.{Option}
use phxargs.Base.Strings.{Str}
use phxargs.Buffer.Refines.{buffer_create-Represents, buffer_reset-Represents}
use phxargs.Tokenizer.{tokenizer_create, tokenizer_reset}
use phxargs.SpaceTokenizer.{
  space_tokenizer_create, space_tokenizer_no_token, SpaceTokenizer, Next, is_quote,
  next_space_token,
}
use phxargs.SpaceTokenizer.Grammar.{
  is_white, is_special, IsQuotable, Word, nil, cons, plain, escaped, quoted, Shape, blank, word,
  last_word, open_quote_line, open_quote, open_escape,
}
use phxargs.SpaceTokenizer.Ends.{IsReady}
use phxargs.SpaceTokenizer.Reads.{Reads, next_space_token-Shape}
use phxargs.SpaceTokenizer.Steps.{room}

-- A part of a word, and what ends it.
data Split (bytes : List ℕ) : Type 0 where
  ends : (value : List ℕ) → Word bytes value → Split bytes
  at_white :
      (raw value : List ℕ) (sep : ℕ) (rest : List ℕ)
      → bytes ≡ raw ++ sep ∷ rest
      → Word raw value
      → is_white sep ≡ true
      → Split bytes
  quote_line :
      (raw value : List ℕ) (q : ℕ) (body rest : List ℕ)
      → bytes ≡ raw ++ q ∷ (body ++ b'\n' ∷ rest)
      → Word raw value
      → is_quote q ≡ true
      → IsQuotable q body
      → Split bytes
  quote_end :
      (raw value : List ℕ) (q : ℕ) (body : List ℕ)
      → bytes ≡ raw ++ q ∷ body
      → Word raw value
      → is_quote q ≡ true
      → IsQuotable q body
      → Split bytes
  escape_end : (raw value : List ℕ) → bytes ≡ raw ++ b'\\' ∷ [] → Word raw value → Split bytes

longer_eq :
    {bytes : List ℕ} (front raw tail : List ℕ)
    → bytes ≡ raw ++ tail
    → front ++ bytes ≡ (front ++ raw) ++ tail
longer_eq front raw tail e = ap (◌++◌ front) e ∙ sym (append_assoc front raw tail)

close :
    {q : ℕ} {body raw value : List ℕ}
    → is_quote q ≡ true
    → IsQuotable q body
    → Word raw value
    → Word (q ∷ ((body ++ q ∷ []) ++ raw)) (body ++ value)
close {q} {body} {raw} {value} iq b w =
    subst (λ x. Word (q ∷ x) (body ++ value)) (sym (append_assoc body (q ∷ []) raw)) (quoted iq b w)

-- A longer part of a word in front changes nothing of how it ends.
Split-extend :
    {bytes : List ℕ} (front add : List ℕ)
    → ((raw value : List ℕ) → Word raw value → Word (front ++ raw) (add ++ value))
    → Split bytes
    → Split (front ++ bytes)
Split-extend front add longer (ends value w) = ends (add ++ value) (longer _ value w)
Split-extend front add longer (at_white raw value sep rest e w h) =
    at_white (front ++ raw) (add ++ value) sep rest (longer_eq front raw _ e) (longer raw value w) h
Split-extend front add longer (quote_line raw value q body rest e w iq b) =
    quote_line (front ++ raw) (add ++ value) q body rest (longer_eq front raw _ e)
      (longer raw value w) iq b
Split-extend front add longer (quote_end raw value q body e w iq b) =
    quote_end (front ++ raw) (add ++ value) q body (longer_eq front raw _ e) (longer raw value w) iq
      b
Split-extend front add longer (escape_end raw value e w) =
    escape_end (front ++ raw) (add ++ value) (longer_eq front raw _ e) (longer raw value w)

IsQuotable-concat :
    {q : ℕ} {body : List ℕ} (c : ℕ)
    → IsQuotable q body
    → (c == q) ≡ false
    → (c == b'\n') ≡ false
    → IsQuotable q (body ++ c ∷ [])
IsQuotable-concat c nil ne nl = cons ne nl nil
IsQuotable-concat c (cons ne' nl' b) ne nl = cons ne' nl' (IsQuotable-concat c b ne nl)

special : (c : ℕ) → is_special c ≡ true → (is_white c ≡ true) ⊎ ((is_quote c ≡ true) ⊎ (c ≡ b'\\'))
special c h = ground arith

mutual
  word-Split : (bytes : List ℕ) → Split bytes
  word-Split [] = ends [] nil
  word-Split (c ∷ []) = elim (Bool-cases (is_special c)) [
    | inr ok_char ↦ ends (c ∷ []) (plain ok_char nil)
    | inl sp ↦ elim (special c sp) [
      | inl w ↦ at_white [] [] c [] refl nil w
      | inr (inl iq) ↦ quote_end [] [] c [] refl nil iq nil
      | inr (inr e) ↦ escape_end [] [] (ap (λ x. x ∷ []) e) nil
    ]
  ]
  word-Split (c ∷ d ∷ cs) = elim (Bool-cases (is_special c)) [
    | inr ok_char ↦
        Split-extend (c ∷ []) (c ∷ []) (λ raw value w. plain ok_char w) (word-Split (d ∷ cs))
    | inl sp ↦ elim (special c sp) [
      | inl w ↦ at_white [] [] c (d ∷ cs) refl nil w
      | inr (inl iq) ↦ quote-Split (d ∷ cs) c [] iq nil
      | inr (inr e) ↦
          subst (λ x. Split (x ∷ d ∷ cs)) (sym e)
            (Split-extend (b'\\' ∷ d ∷ []) (d ∷ []) (λ raw value w. escaped d w) (word-Split cs))
    ]
  ]

  -- The same behind an open quote.
  quote-Split :
      (bytes : List ℕ) (q : ℕ) (body : List ℕ)
      → is_quote q ≡ true
      → IsQuotable q body
      → Split (q ∷ (body ++ bytes))
  quote-Split [] q body iq b = quote_end [] [] q body (ap (◌∷◌ q) (append-nil body)) nil iq b
  quote-Split (c ∷ cs) q body iq b = elim (Bool-cases (c == q)) [
    | inl same ↦
        subst (λ x. Split (q ∷ (body ++ x ∷ cs))) (sym ((==_iff c q).0 same))
          (subst Split (ap (◌∷◌ q) (append_assoc body (q ∷ []) cs)) (
            Split-extend (q ∷ (body ++ q ∷ [])) body (λ raw value w. close iq b w) (word-Split cs)))
    | inr ne ↦ elim (Bool-cases (c == b'\n')) [
      | inl nl ↦
          quote_line [] [] q body cs (ap (λ x. q ∷ (body ++ x ∷ cs)) ((==_iff c b'\n').0 nl)) nil iq
            b
      | inr nl ↦
          subst Split (ap (◌∷◌ q) (append_assoc body (c ∷ []) cs))
            (quote-Split cs q (body ++ c ∷ []) iq (IsQuotable-concat c b ne nl))
    ]
  ]

-- White space in front changes nothing of the shape.
Shape-white : {bytes : List ℕ} (c : ℕ) → is_white c ≡ true → Shape bytes → Shape (c ∷ bytes)
Shape-white c h (blank iw) = blank (cons h iw)
Shape-white c h (word white raw value sep rest e iw w ne s) =
    word (c ∷ white) raw value sep rest (ap (◌∷◌ c) e) (cons h iw) w ne s
Shape-white c h (last_word white raw value e iw w ne) =
    last_word (c ∷ white) raw value (ap (◌∷◌ c) e) (cons h iw) w ne
Shape-white c h (open_quote_line white raw value q body rest e iw w iq b) =
    open_quote_line (c ∷ white) raw value q body rest (ap (◌∷◌ c) e) (cons h iw) w iq b
Shape-white c h (open_quote white raw value q body e iw w iq b) =
    open_quote (c ∷ white) raw value q body (ap (◌∷◌ c) e) (cons h iw) w iq b
Shape-white c h (open_escape white raw value e iw w) =
    open_escape (c ∷ white) raw value (ap (◌∷◌ c) e) (cons h iw) w

white-head :
    {c : ℕ} {cs : List ℕ} (raw : List ℕ) (sep : ℕ) (rest : List ℕ)
    → is_white c ≡ false
    → c ∷ cs ≡ raw ++ sep ∷ rest
    → is_white sep ≡ true
    → raw ≢ []
white-head [] sep rest h e s = λ _. ground arith
white-head (x ∷ raw) sep rest h e s = λ p. cc

Split-Shape : {c : ℕ} {cs : List ℕ} → is_white c ≡ false → Split (c ∷ cs) → Shape (c ∷ cs)
Split-Shape {c} {cs} h (ends value w) = last_word [] (c ∷ cs) value refl nil w (λ p. cc)
Split-Shape h (at_white raw value sep rest e w s) =
    word [] raw value sep rest e nil w (white-head raw sep rest h e s) s
Split-Shape h (quote_line raw value q body rest e w iq b) =
    open_quote_line [] raw value q body rest e nil w iq b
Split-Shape h (quote_end raw value q body e w iq b) = open_quote [] raw value q body e nil w iq b
Split-Shape h (escape_end raw value e w) = open_escape [] raw value e nil w

pub shape : (bytes : List ℕ) → Shape bytes
shape [] = blank nil
shape (c ∷ cs) = elim (Bool-cases (is_white c)) [
  | inl w ↦ Shape-white c w (shape cs)
  | inr n ↦ Split-Shape n (word-Split (c ∷ cs))
]

-- No input below 2 ^ 63 bytes makes the tokenizer leave the process, read memory without a value,
-- or do anything the grammar does not say.
pub next_space_token-total :
    {Ctx : Type 0} (on_input_boundary : Ctx → Ctx) (self : SpaceTokenizer) (bytes : List ℕ)
    (ferror : Bool) (ctx : Ctx)
    → IsReady self
    → length bytes ≤ room
    → (s : Shape bytes) × (n : Next Ctx) × (next_space_token on_input_boundary self
          (record { bytes = bytes; error = ferror })
          ctx
        ≡ ok n)
      × Reads on_input_boundary self s ferror ctx n
next_space_token-total on_input_boundary self bytes ferror ctx h r =
    let (n, e, reads) =
      next_space_token-Shape on_input_boundary self bytes ferror ctx h r (shape bytes) in
    (shape bytes, n, e, reads)

-- A new tokenizer is ready.
pub space_tokenizer_create-IsReady :
    (buffer_size : ℕ) (marker : Option Str) → IsReady (space_tokenizer_create buffer_size marker)
unfolding space_tokenizer_create space_tokenizer_no_token tokenizer_create tokenizer_reset
space_tokenizer_create-IsReady buffer_size marker = record {
  state_is = refl;
  start_is = refl;
  represents = buffer_reset-Represents (buffer_create-Represents buffer_size);
  marker_is = refl;
  err_is = refl;
}
