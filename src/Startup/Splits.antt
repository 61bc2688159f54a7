-- ===== src/Startup/Splits.antt =====
-- cmd/server/main.go: the parts that splitComma makes of a text.
use Prim.Native.Char.{Char, char}
use Prim.Native.String.{[] as empty_text, ◌∷◌ as ◌∷ˢ◌, ◌++◌ as ◌++ˢ◌}
use text.Mathlib.TextEquality.{Char-path}
use text.Mathlib.TextLemmas.{nil-append, cons-append, append-nil, append_assoc}
use pixie_block.Base.{
  String, true, false, ⊤, List, [], ◌∷◌, ◌≡◌, refl, sym, ap, subst, ◌∙◌, arith, All, Bool-cases,
  inl, inr,
}
use pixie_block.Startup.{is_comma, split_loop, split_comma}

-- `strings.Join(parts, ",")`
abbrev pub join : List String → String
join [] = ""
join (x ∷ []) = x
join (x ∷ y ∷ ys) = x ++ˢ "," ++ˢ join (y ∷ ys)

abbrev pub HasNoComma : String → Type 0
HasNoComma empty_text = ⊤
HasNoComma (c ∷ˢ s) = (is_comma c ≡ false) × HasNoComma s

comma-text : (c : Char) → is_comma c ≡ true → c ∷ˢ empty_text ≡ ","
comma-text c h = ap (λ x. x ∷ˢ empty_text) (Char-path c (char 44 tt) (ground arith))

HasNoComma-append :
    (s : String) (c : Char)
    → HasNoComma s
    → is_comma c ≡ false
    → HasNoComma (s ++ˢ (c ∷ˢ empty_text))
HasNoComma-append empty_text c h e = subst HasNoComma (sym (nil-append (c ∷ˢ empty_text))) (e, tt)
HasNoComma-append (d ∷ˢ s) c h e =
    subst HasNoComma (sym (cons-append d s (c ∷ˢ empty_text))) (h.0, HasNoComma-append s c h.1 e)

split_loop-comma :
    (part s : String) (c : Char)
    → is_comma c ≡ true
    → split_loop part (c ∷ˢ s) ≡ part ∷ split_loop "" s
unfolding split_loop
split_loop-comma part s c h = rw (h, split_loop) refl

split_loop-other :
    (part s : String) (c : Char)
    → is_comma c ≡ false
    → split_loop part (c ∷ˢ s) ≡ split_loop (part ++ˢ (c ∷ˢ empty_text)) s
unfolding split_loop
split_loop-other part s c h = rw (h, split_loop) refl

-- There is at least one part.
split_loop-cons :
    (part s : String) → (x : String) × (xs : List String) × (split_loop part s ≡ x ∷ xs)
unfolding split_loop
split_loop-cons part empty_text = (part, [], refl)
split_loop-cons part (c ∷ˢ s) = elim (Bool-cases (is_comma c)) [
  | inl comma ↦ (part, split_loop "" s, split_loop-comma part s c comma)
  | inr other ↦
      let (x, xs, e) = split_loop-cons (part ++ˢ (c ∷ˢ empty_text)) s in
      (x, xs, split_loop-other part s c other ∙ e)
]

join-cons :
    (part : String) (xs : List String)
    → ((x : String) × (ys : List String) × (xs ≡ x ∷ ys))
    → join (part ∷ xs) ≡ part ++ˢ "," ++ˢ join xs
join-cons part [] (x, ys, e) = absurd (ground arith)
join-cons part (y ∷ ys) h = refl

single-append : (c : Char) (s : String) → (c ∷ˢ empty_text) ++ˢ s ≡ c ∷ˢ s
single-append c s = cons-append c empty_text s ∙ ap (λ t. c ∷ˢ t) (nil-append s)

join-split_loop : (part s : String) → join (split_loop part s) ≡ part ++ˢ s
unfolding split_loop
join-split_loop part empty_text = sym (append-nil part)
join-split_loop part (c ∷ˢ s) = elim (Bool-cases (is_comma c)) [
  | inl comma ↦
      ap join (split_loop-comma part s c comma)
      ∙ join-cons part (split_loop "" s) (split_loop-cons "" s)
      ∙ ap (λ t. part ++ˢ "," ++ˢ t) (join-split_loop "" s ∙ nil-append s)
      ∙ ap (λ t. part ++ˢ (t ++ˢ s)) (sym (comma-text c comma))
      ∙ ap (λ t. part ++ˢ t) (single-append c s)
  | inr other ↦
      ap join (split_loop-other part s c other)
      ∙ join-split_loop (part ++ˢ (c ∷ˢ empty_text)) s
      ∙ append_assoc part (c ∷ˢ empty_text) s
      ∙ ap (λ t. part ++ˢ t) (single-append c s)
]

split_loop-HasNoComma : (part s : String) → HasNoComma part → All HasNoComma (split_loop part s)
unfolding split_loop
split_loop-HasNoComma part empty_text h = (h, tt)
split_loop-HasNoComma part (c ∷ˢ s) h = elim (Bool-cases (is_comma c)) [
  | inl comma ↦ rw (split_loop-comma part s c comma) (h, split_loop-HasNoComma "" s tt)
  | inr other ↦
      rw (split_loop-other part s c other)
        (split_loop-HasNoComma (part ++ˢ (c ∷ˢ empty_text)) s (HasNoComma-append part c h other))
]

-- For every text: no part that splitComma makes of it has a comma, and the parts joined by commas are
-- the text again.
pub join-split_comma : (s : String) → (join (split_comma s) ≡ s) × All HasNoComma (split_comma s)
unfolding split_comma
join-split_comma s = (join-split_loop "" s ∙ nil-append s, split_loop-HasNoComma "" s tt)
