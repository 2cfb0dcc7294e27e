-- ===== src/Money/Trimmed.antt =====
-- `strings.TrimSpace` of a text that it has trimmed, and of a text as the list of its codes.
use Prim.Native.String.{[], ◌∷◌}
use Prim.Native.Char.{Char, code}
use fund_kit.Base.{
  String, codes, ◌≡◌, refl, ap, ◌∙◌, false, ◌&&◌, ◌==◌, if◌then◌else◌, Bool-cases, inl, inr,
  text-ne,
}
use fund_kit.Base.Text.{is_space, trim_left, trim_right, trim_space}
use fund_kit.Money.Rupees
use fund_kit.Money.Rupees.{add_trimmed}

trim_right-cons :
    (c : Char) (s : String) → is_space c ≡ false → trim_right (c ∷ s) ≡ c ∷ trim_right s
unfolding trim_right
trim_right-cons c s q = elim (Bool-cases (trim_right s == "")) [
  | inl e ↦ rw (e, q) refl
  | inr e ↦ rw e refl
]

trim_right-right : (s : String) → trim_right (trim_right s) ≡ trim_right s
unfolding trim_right
trim_right-right [] = refl
trim_right-right (c ∷ s) =
    let h = trim_right-right s in
    elim (Bool-cases ((trim_right s == "") && is_space c)) [
      | inl e ↦ rw e refl
      | inr e ↦ rw (e, h, e) refl
    ]

trim_left-right-left :
    (s : String) → trim_left (trim_right (trim_left s)) ≡ trim_right (trim_left s)
unfolding trim_left trim_right
trim_left-right-left [] = refl
trim_left-right-left (c ∷ s) = elim (Bool-cases (is_space c)) [
  | inl q ↦ rw q (trim_left-right-left s)
  | inr q ↦ rw (q, trim_right-cons c s q, q) refl
]

pub trim_space-space : (s : String) → trim_space (trim_space s) ≡ trim_space s
unfolding trim_space
trim_space-space s = ap trim_right (trim_left-right-left s) ∙ trim_right-right (trim_left s)

codes-trim_left : (s : String) → Rupees.trim_left (codes s) ≡ codes (trim_left s)
unfolding trim_left
codes-trim_left [] = refl
codes-trim_left (c ∷ s) = elim (Bool-cases (is_space c)) [
  | inl q ↦ rw q (codes-trim_left s)
  | inr q ↦ rw q refl
]

add_trimmed-codes :
    (c : Char) (s : String)
    → add_trimmed (code c) (codes s) ≡ codes (if (s == "") && is_space c then [] else c ∷ s)
add_trimmed-codes c [] = elim (Bool-cases (is_space c)) [ inl q ↦ rw q refl | inr q ↦ rw q refl ]
add_trimmed-codes c (d ∷ s) = let e = text-ne (d ∷ s) "" (λ q. absurd (cc)) in rw e refl

codes-trim_right : (s : String) → Rupees.trim_right (codes s) ≡ codes (trim_right s)
unfolding trim_right
codes-trim_right [] = refl
codes-trim_right (c ∷ s) =
    ap (add_trimmed (code c)) (codes-trim_right s) ∙ add_trimmed-codes c (trim_right s)

pub codes-trim_space : (s : String) → Rupees.trim_space (codes s) ≡ codes (trim_space s)
unfolding trim_space
codes-trim_space s = ap Rupees.trim_right (codes-trim_left s) ∙ codes-trim_right (trim_left s)
