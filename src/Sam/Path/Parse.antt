-- ===== src/Sam/Path/Parse.antt =====
-- Printing a qname and parsing it again.
use exio.Prelude.{
  ℕ, ◌≡◌, ◌≢◌, refl, ◌∙◌, ap, Bool, false, List, [], ◌∷◌, ◌++◌, some, append_assoc, append-nil, sym,
  Bytes, arith, ==_iff,
}
use exio.Sam.Path.{
  Qname, to_string, capture, tokenize_loop, tokenize_from, c_string, tokenize, parse,
}

-- Bytes among which there is no dot and no NUL
abbrev pub Dotless : Bytes → Type 0
Dotless [] = Unit {0}
Dotless (c ∷ s) = (c ≢ b'.') × (c ≢ 0) × Dotless s

abbrev pub Parts : Qname → Type 0
Parts [] = Unit {0}
Parts (p ∷ qn) = (p ≢ []) × Dotless p × Parts qn

tokenize_loop-other :
    (w : Bool) (tok : Bytes) (c : ℕ) (s : Bytes)
    → c ≢ b'.'
    → tokenize_loop b'.' w tok (c ∷ s) ≡ tokenize_loop b'.' w (tok ++ c ∷ []) s
unfolding tokenize_loop
tokenize_loop-other w tok c s h = ground arith

tokenize_loop-Dotless :
    (w : Bool) (tok p s : Bytes)
    → Dotless p
    → tokenize_loop b'.' w tok (p ++ s) ≡ tokenize_loop b'.' w (tok ++ p) s
tokenize_loop-Dotless w tok [] s h = rw append-nil
tokenize_loop-Dotless w tok (c ∷ p) s h =
    tokenize_loop-other w tok c (p ++ s) h.0
    ∙ tokenize_loop-Dotless w (tok ++ c ∷ []) p s h.2
    ∙ ap (λ t. tokenize_loop b'.' w t s) (append_assoc tok (c ∷ []) p)

capture-part : (p : Bytes) (rest : List Bytes) → p ≢ [] → capture false p rest ≡ p ∷ rest
capture-part [] rest h = absurd (h refl)
capture-part (c ∷ p) rest h = refl

-- The loop at the end of the text and at a dot.
tokenize_loop-nil : (p : Bytes) → p ≢ [] → tokenize_loop b'.' false p [] ≡ p ∷ []
unfolding tokenize_loop
tokenize_loop-nil p h = capture-part p [] h

tokenize_loop-dot :
    (p s : Bytes)
    → p ≢ []
    → tokenize_loop b'.' false p (b'.' ∷ s) ≡ p ∷ tokenize_loop b'.' false [] s
unfolding tokenize_loop
tokenize_loop-dot p s h = capture-part p (tokenize_loop b'.' false [] s) h

tokenize_loop-to_string :
    (p : Bytes) (qn : Qname)
    → Parts (p ∷ qn)
    → tokenize_loop b'.' false [] (to_string (p ∷ qn)) ≡ p ∷ qn
unfolding to_string
tokenize_loop-to_string p [] h =
    ap (tokenize_loop b'.' false []) (sym (append-nil p))
    ∙ tokenize_loop-Dotless false [] p [] h.1
    ∙ tokenize_loop-nil p h.0
tokenize_loop-to_string p (q ∷ qn) h =
    tokenize_loop-Dotless false [] p (b'.' ∷ to_string (q ∷ qn)) h.1
    ∙ tokenize_loop-dot p (to_string (q ∷ qn)) h.0
    ∙ ap (λ l. p ∷ l) (tokenize_loop-to_string q qn h.2)

-- What has no NUL in it is read to its end.
c_string-cons : (c : ℕ) (s : Bytes) → c ≢ 0 → c_string (c ∷ s) ≡ c ∷ c_string s
unfolding c_string
c_string-cons c s h = ground (arith, ==_iff c 0)

c_string-Dotless : (p s : Bytes) → Dotless p → c_string (p ++ s) ≡ p ++ c_string s
c_string-Dotless [] s h = refl
c_string-Dotless (c ∷ p) s h =
    c_string-cons c (p ++ s) h.1 ∙ ap (λ x. c ∷ x) (c_string-Dotless p s h.2)

c_string-to_string :
    (p : Bytes) (qn : Qname) → Parts (p ∷ qn) → c_string (to_string (p ∷ qn)) ≡ to_string (p ∷ qn)
unfolding to_string
c_string-to_string p [] h =
    ap c_string (sym (append-nil p)) ∙ c_string-Dotless p [] h.1 ∙ (unfold c_string in append-nil p)
c_string-to_string p (q ∷ qn) h =
    c_string-Dotless p (b'.' ∷ to_string (q ∷ qn)) h.1
    ∙ ap (λ x. p ++ x)
        (c_string-cons b'.' (to_string (q ∷ qn)) (omega arith)
          ∙ ap (λ x. b'.' ∷ x) (c_string-to_string q qn h.2))

parse_c : (s : Bytes) → s ≢ [] → c_string s ≡ s → parse (some s) ≡ tokenize_loop b'.' false [] s
unfolding parse tokenize
parse_c [] h e = absurd (h refl)
parse_c (c ∷ s) h e = ap (tokenize_from b'.' false) e

to_string-ne : (p : Bytes) (qn : Qname) → p ≢ [] → to_string (p ∷ qn) ≢ []
unfolding to_string
to_string-ne [] qn h = absurd (h refl)
to_string-ne (c ∷ p) [] h = cc
to_string-ne (c ∷ p) (q ∷ qn) h = cc

-- A qname whose parts are not empty and hold no dot and no NUL is parsed back from its text; an
-- empty qname too.
pub parse-to_string : (qn : Qname) → Parts qn → parse (some (to_string qn)) ≡ qn
parse-to_string [] h = unfold parse tokenize to_string c_string in refl
parse-to_string (p ∷ qn) h =
    parse_c (to_string (p ∷ qn)) (to_string-ne p qn h.0) (c_string-to_string p qn h)
    ∙ tokenize_loop-to_string p qn h
