-- ===== src/Petrinet/Path/Spelling.antt =====
-- `NetPath.__new__` and `__str__` of src/petrus/impetus/petrinet/schema.py undo each other.
use Prim.Native.Char.{Char, code}
use Prim.Native.String.{◌++◌ as append}
use text.Mathlib.TextEquality.{Char-path}
use text.Mathlib.TextLemmas.{cons-append, nil-append}
use petrus.Base.{
  list_eq, list_beq_iff, ◌≡◌, refl, sym, ap, ◌∙◌, inl, inr, String, List, [], ◌∷◌, ◌==◌, nat_eq,
  nat_beq_iff, string_eq, Bool-cases, arith, any, ok,
}
use petrus.Petrinet.Token.{NetPath}
use petrus.Petrinet.Path.{dotted, with_char, split_dots, spelled, net_path}

-- The character `.`.
abbrev dot : Char
dot = "."

dotted-with_char :
    (c : Char) (w : String) (ws : List String)
    → dotted (with_char c (w ∷ ws)) ≡ String.◌∷◌ c (dotted (w ∷ ws))
unfolding dotted
dotted-with_char c w [] = refl
dotted-with_char c w (v ∷ ws) = cons-append c w (append "." (dotted (v ∷ ws)))

dotted-dot :
    (w : String) (ws : List String) → dotted ("" ∷ w ∷ ws) ≡ String.◌∷◌ dot (dotted (w ∷ ws))
unfolding dotted
dotted-dot w ws =
    nil-append (append "." (dotted (w ∷ ws)))
    ∙ cons-append dot "" (dotted (w ∷ ws))
    ∙ ap (λ t. String.◌∷◌ dot t) (nil-append (dotted (w ∷ ws)))

-- A split is never empty.
split_dots_some : (s : String) → (w : String) × (ws : List String) × (split_dots s ≡ w ∷ ws)
unfolding split_dots
split_dots_some String.[] = ("", [], refl)
split_dots_some (String.◌∷◌ c s) =
    let (w, ws, same) = split_dots_some s in
    elim (Bool-cases (code c == b'.')) [
      | inl is_dot ↦ ("", split_dots s, ground arith)
      | inr other ↦ (String.◌∷◌ c w, ws, rw (other, same) refl)
    ]

-- The dotted text of a split is the text.
pub dotted-split_dots : (s : String) → dotted (split_dots s) ≡ s
unfolding split_dots dotted
dotted-split_dots String.[] = refl
dotted-split_dots (String.◌∷◌ c s) =
    let (w, ws, same) = split_dots_some s in
    let rest : dotted (w ∷ ws) ≡ s = ap dotted (sym same) ∙ dotted-split_dots s in
    elim (Bool-cases (code c == b'.')) [
      | inl is_dot ↦
          let same_char : c ≡ dot = Char-path c dot ((nat_beq_iff (code c) b'.').0 is_dot) in
          rw (is_dot, same)
            (dotted-dot w ws
              ∙ ap (λ t. String.◌∷◌ dot t) rest
              ∙ ap (λ d. String.◌∷◌ d s) (sym same_char))
      | inr other ↦ rw (other, same) (dotted-with_char c w ws ∙ ap (λ t. String.◌∷◌ c t) rest)
    ]

-- The address of a text is the one that is written as the text.
pub net_path-dotted :
    (s : String) (p j : NetPath)
    → net_path (spelled s) ≡ ok p
    → net_path (spelled (dotted j)) ≡ ok j
    → (p == j) ≡ (s == dotted j)
unfolding net_path
net_path-dotted s p j made proper =
    let split : split_dots s ≡ p = net_path-split s p made in
    let back : split_dots (dotted j) ≡ j = net_path-split (dotted j) j proper in
    let text : dotted p ≡ s = ap dotted (sym split) ∙ dotted-split_dots s in
    elim (Bool-cases (s == dotted j)) [
      | inl same ↦
          let t : s ≡ dotted j = (string_eq.beq_iff s (dotted j)).0 same in
          rw same ((list_beq_iff p j).1 (sym split ∙ ap split_dots t ∙ back))
      | inr other ↦ elim (Bool-cases (p == j)) [
        | inr differs ↦ rw (other, differs) refl
        | inl same ↦
            let t : p ≡ j = (list_beq_iff p j).0 same in
            absurd
              (ground (arith, other, (string_eq.beq_iff s (dotted j)).1 (sym text ∙ ap dotted t)))
      ]
    ]
  where
    net_path-split : (s : String) (p : NetPath) → net_path (spelled s) ≡ ok p → split_dots s ≡ p
    net_path-split s p h = elim (Bool-cases (any (λ w. w == "") (split_dots s))) [
      | inl empty ↦ absurd (ground arith)
      | inr full ↦ ground arith
    ]
