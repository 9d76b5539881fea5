-- ===== src/Studio/Number/Coercion.antt =====
-- The values that the views send for a filter's text.
use cocodb.Base.{
  ℕ, ◌≡◌, refl, ◌∙◌, ap, ◌⊎◌, true, false, none, some, [], ◌∷◌, arith, All, All-mono, append-nil,
}
use cocodb.Base.Text.{Text, codes, text_eq, is_empty, is_space, trim, trim_of_IsInk, IsInk}
use cocodb.Base.Decimal.{
  decimal, IsDigit, decimal-IsDigit, digits_value, digits_value-decimal, is_empty-decimal,
}
use cocodb.Studio.Json.{Number, nat, Json, boolean, number, string}
use cocodb.Studio.Number.{span_digits, unsigned, literal, to_number, coerce}

pub span_digits-digits : (s : Text) → All IsDigit s → span_digits s ≡ (s, [])
unfolding span_digits
span_digits-digits [] h = refl
span_digits-digits (c ∷ s) (h, k) = ground (arith, span_digits-digits s k)

pub digits-IsInk : (s : Text) → All IsDigit s → All IsInk s
unfolding is_space
digits-IsInk s = All-mono IsDigit IsInk (λ c h. ground arith) s

unsigned-digits :
    (c : ℕ) (s : Text)
    → All IsDigit (c ∷ s)
    → unsigned false (c ∷ s) ≡ some (nat (digits_value 0 (c ∷ s)))
unfolding unsigned text_eq
unsigned-digits c s h = rw (span_digits-digits (c ∷ s) h, append-nil) (ground arith)

literal-digits : (c : ℕ) (s : Text) → All IsDigit (c ∷ s) → literal (c ∷ s) ≡ unsigned false (c ∷ s)
unfolding literal
literal-digits c [] h = refl
literal-digits c (d ∷ []) h = ground arith
literal-digits c (d ∷ e ∷ s) h = ground arith

coerce-digits :
    (s : Text) → is_empty s ≡ false → All IsDigit s → coerce s ≡ number (nat (digits_value 0 s))
unfolding coerce to_number text_eq
coerce-digits [] e h = cc
coerce-digits (c ∷ s) e h =
    rw (trim_of_IsInk (c ∷ s) (digits-IsInk (c ∷ s) h), literal-digits c s h, unsigned-digits c s h)
      (ground (arith, ap is_empty (trim_of_IsInk (c ∷ s) (digits-IsInk (c ∷ s) h))))

-- A number in decimal digits is sent as that number.
pub coerce-decimal : (n : ℕ) → coerce (decimal n) ≡ number (nat n)
coerce-decimal n =
    coerce-digits (decimal n) (is_empty-decimal n) (decimal-IsDigit n)
    ∙ ap (λ (m : ℕ). number (nat m)) (digits_value-decimal n)

-- What the value of a filter may be, for its text: the Booleans by their names, a number where the
-- text is one and not white space alone, and otherwise the text.
abbrev pub Coerced : Text → Json → Type 0
Coerced v j =
    ((v ≡ codes "true") × (j ≡ boolean true))
    ⊎ ((v ≡ codes "false") × (j ≡ boolean false))
    ⊎ ((n : Number) × (to_number v ≡ some n) × (is_empty (trim v) ≡ false) × (j ≡ number n))
    ⊎ (((to_number v ≡ none) ⊎ (is_empty (trim v) ≡ true)) × (j ≡ string v))
