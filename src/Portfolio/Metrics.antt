-- ===== src/Portfolio/Metrics.antt =====
-- What portfolio-service/internal/platform/metrics/metrics.go decides: the labels of a procedure, and
-- which readings of the lag are published. A number is Go's float64 or, for the lag, an int64.
use fund_kit.Base.{
  ℕ, String, List, [], ◌∷◌, ◌++◌, Option, none, some, ◌≡◌, ◌≢◌, refl, false, arith, codes, eqb,
  if◌then◌else◌,
}
use fund_kit.Base.Int.{ℤ, pos, ltb_ℤ}

abbrev pub slash : ℕ
slash = b'/'

-- `strings.TrimPrefix(text, "/")`.
abbrev pub trim_slash : List ℕ → List ℕ
trim_slash [] = []
trim_slash (c ∷ cs) = if eqb c slash then cs else c ∷ cs

-- What is before the first slash and behind it.
unfoldable pub cut_slash : List ℕ → Option (List ℕ × List ℕ)
cut_slash [] = none
cut_slash (c ∷ cs) =
    let rest = cut_slash cs in
    if eqb c slash
    then some ([], cs)
    else elim rest [ none ↦ none | some (before, after) ↦ some (c ∷ before, after) ]

-- `splitFullMethod`.
unfoldable pub split_full_method : List ℕ → List ℕ × List ℕ
unfolding cut_slash
split_full_method full_method = elim (cut_slash (trim_slash full_method)) [
  | none ↦ (codes "unknown", codes "unknown")
  | some halves ↦ halves
]

pub record LagSample : Type 0 where
  pub topic : String
  pub group : String
  pub lag : ℤ

-- `Collect`: the samples that are published.
unfoldable pub collect : List LagSample → List LagSample
collect [] = []
collect (s ∷ ss) = let rest = collect ss in if ltb_ℤ s.lag (pos 0) then rest else s ∷ rest

abbrev pub HasNoSlash : List ℕ → Type 0
HasNoSlash [] = Unit
HasNoSlash (c ∷ cs) = (c ≢ slash) × HasNoSlash cs

cut_slash-joined :
    (service method : List ℕ)
    → HasNoSlash service
    → cut_slash (service ++ slash ∷ method) ≡ some (service, method)
unfolding cut_slash
cut_slash-joined [] method h = refl
cut_slash-joined (c ∷ cs) method (plain, h) =
    let other : eqb c slash ≡ false = ground arith in rw (other, cut_slash-joined cs method h) refl

-- A procedure of the documented form is split into its service and its method.
pub split_full_method-joined :
    (service method : List ℕ)
    → HasNoSlash service
    → split_full_method (slash ∷ service ++ slash ∷ method) ≡ (service, method)
unfolding split_full_method
split_full_method-joined service method h = rw (cut_slash-joined service method h) refl
