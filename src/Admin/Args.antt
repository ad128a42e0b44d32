-- ===== src/Admin/Args.antt =====
-- The arguments of a request are read as they were given.
use exio.Prelude.{
  ℕ, suc, ◌+◌, ◌≤◌, ◌<◌, ◌^◌, ◌≡◌, ◌≢◌, refl, sym, ap, ◌∙◌, false, some, List, [], ◌∷◌, ◌++◌, Bytes,
  codes, length, str_eq, str_eq_iff, str_eq_refl, Bool-cases, inl, inr, arith,
}
use exio.Error.{ok, err}
use exio.SamBuffer.Decimal.{decimal}
use exio.Sam.Chars.{meta_delim}
use exio.Sam.Container.{Items, find_field, put_field}
use exio.Sam.Container.Lookup.{find_field-put_field}
use exio.Sam.Decode.{read_msglen}
use exio.Sam.Decode.Length.{read_msglen-decimal}
use exio.Admin.Request.{args_count, args_name, args_loop, read_args, put_args, add_arguments}

-- Prints of different numbers differ, and none is "COUNT".
decimal-injective : (m n : ℕ) → m < 2 ^ 31 → n < 2 ^ 31 → decimal m ≡ decimal n → m ≡ n
decimal-injective m n h k e =
    ap (λ r. elim r [ ok x ↦ x.0 | err _ ↦ n ])
      (sym (read_msglen-decimal m [] (omega arith))
        ∙ ap (λ l. read_msglen 0 (l ++ meta_delim ∷ [])) e
        ∙ read_msglen-decimal n [] (omega arith))

count-decimal : (n : ℕ) → n < 2 ^ 31 → decimal n ≢ codes "COUNT"
unfolding read_msglen
count-decimal n h e = ground (
  arith,
  sym (read_msglen-decimal n [] (omega arith)) ∙ ap (λ l. read_msglen 0 (l ++ meta_delim ∷ [])) e,
)

after_prefix : (p s t : Bytes) → p ++ s ≡ p ++ t → s ≡ t
after_prefix [] s t e = e
after_prefix (x ∷ p) s t e = after_prefix p s t (ap (λ l. elim l [ [] ↦ [] | _ ∷ ys ↦ ys ]) e)

differ : (s t : Bytes) → s ≢ t → str_eq s t ≡ false
differ s t n = elim (Bool-cases (str_eq s t)) [
  | inl e ↦ absurd (n ((str_eq_iff s t).0 e))
  | inr e ↦ e
]

args_name_differ :
    (i k : ℕ) → i < 2 ^ 31 → k < 2 ^ 31 → i ≢ k → str_eq (args_name i) (args_name k) ≡ false
args_name_differ i k h l n =
    differ (args_name i) (args_name k)
      (λ e. n (decimal-injective i k h l (after_prefix (codes "args_") (decimal i) (decimal k) e)))

args_name_count : (i : ℕ) → i < 2 ^ 31 → str_eq (args_name i) args_count ≡ false
args_name_count i h =
    differ (args_name i) args_count
      (λ e. count-decimal i h (after_prefix (codes "args_") (decimal i) (codes "COUNT") e))

-- A name of none of the arguments put is left alone.
put_args_other :
    (f : Bytes) (i : ℕ) (args : List Bytes) (c : Items)
    → ((j : ℕ) → i ≤ j → j < i + length args → str_eq (args_name j) f ≡ false)
    → find_field f (put_args i args c) ≡ find_field f c
unfolding put_args
put_args_other f i [] c h = refl
put_args_other f i (a ∷ more) c h =
    let first = h i (omega arith) (omega arith) in
    put_args_other f (i + 1) more (put_field (args_name i) a c)
      (λ j p q. h j (omega arith) (omega arith))
    ∙ find_field-put_field f (args_name i) a c
    ∙ rw first refl

one_arg :
    (i n : ℕ) (b : Items) (v : Bytes) (vs : List Bytes)
    → find_field (args_name i) b ≡ some v
    → args_loop b (i + 1) n ≡ ok vs
    → args_loop b i (suc n) ≡ ok (v ∷ vs)
unfolding args_loop
one_arg i n b v vs e d = rw (e, d) refl

args_loop-put_args :
    (i : ℕ) (args : List Bytes) (c : Items)
    → i + length args < 2 ^ 31
    → args_loop (put_args i args c) i (length args) ≡ ok args
unfolding put_args
args_loop-put_args i [] c h = unfold args_loop in refl
args_loop-put_args i (a ∷ more) c h =
    let d = put_field (args_name i) a c in
    one_arg i (length more) (put_args (i + 1) more d) a more
      (put_args_other (args_name i) (i + 1) more d (λ j p q.
          args_name_differ j i (omega arith) (omega arith) (λ e. absurd (omega (arith, e))))
        ∙ find_field-put_field (args_name i) (args_name i) a c
        ∙ rw (str_eq_refl (args_name i)) refl)
      (args_loop-put_args (i + 1) more d (omega arith))

-- The body's items are read back as the arguments that were put there.
pub read_args-add_arguments :
    (atoi : Bytes → ℕ) (args : List Bytes) (c : Items)
    → ((n : ℕ) → n < 2 ^ 31 → atoi (decimal n) ≡ n)
    → length args < 2 ^ 31
    → read_args atoi (add_arguments args c) ≡ ok args
unfolding read_args add_arguments
read_args-add_arguments atoi args c h l =
    let d = put_field args_count (decimal (length args)) c in
    let found : find_field args_count (put_args 0 args d) ≡ some (decimal (length args)) =
      put_args_other args_count 0 args d (λ j p q. args_name_count j (omega arith))
      ∙ find_field-put_field args_count args_count (decimal (length args)) c in
    rw (found, read_args, h (length args) l) (args_loop-put_args 0 args d (omega arith))

-- Neither is another field of the body changed.
pub find_field-add_arguments :
    (f : Bytes) (args : List Bytes) (c : Items)
    → ((j : ℕ) → str_eq (args_name j) f ≡ false)
    → str_eq args_count f ≡ false
    → find_field f (add_arguments args c) ≡ find_field f c
unfolding add_arguments
find_field-add_arguments f args c h k =
    put_args_other f 0 args (put_field args_count (decimal (length args)) c) (λ j p q. h j)
    ∙ find_field-put_field f args_count (decimal (length args)) c
    ∙ rw k refl
