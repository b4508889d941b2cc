-- ===== src/Alert/Rules/Names.antt =====
-- When the keys of two conditions differ.
use Prim.Native.Char.{code}
use Prim.Native.String.{String, ◌++◌}
use text.Mathlib.TextLemmas.{append_cancel_left, cons-append}
use jinko_exporter.Prelude.{ℕ, ◌≡◌, ◌≢◌, ap, ◌==◌, Bool-cases, inl, inr, false, arith}
use jinko_exporter.Prelude.Text.{◌=$◌, =$_iff, is_empty}

abbrev pub first_code : String → ℕ
first_code String.[] = 0
first_code (String.◌∷◌ c s) = code c

first_code-append : (a x : String) → is_empty a ≡ false → first_code (a ++ x) ≡ first_code a
first_code-append String.[] x h = absurd (cc h)
first_code-append (String.◌∷◌ c a) x h = ap first_code (cons-append c a x)

pub is_empty-append : (a x : String) → is_empty a ≡ false → is_empty (a ++ x) ≡ false
is_empty-append String.[] x h = absurd (cc h)
is_empty-append (String.◌∷◌ c a) x h = ap is_empty (cons-append c a x)

apart : (a b : String) → a ≢ b → (a =$ b) ≡ false
apart a b ne = elim (Bool-cases (a =$ b)) [
  | inl same ↦ absurd (ne ((=$_iff a b).0 same))
  | inr other ↦ other
]

-- Texts that begin differently, whatever follows; texts that begin alike and go on differently.
pub apart_first :
    (a b x y : String)
    → is_empty a ≡ false
    → is_empty b ≡ false
    → (first_code a == first_code b) ≡ false
    → ((a ++ x) =$ (b ++ y)) ≡ false
apart_first a b x y ha hb ne = apart (a ++ x) (b ++ y) (λ e.
    absurd
      (ground (arith, ap first_code e, first_code-append a x ha, first_code-append b y hb, ne)))

pub append_ne : (a x y : String) → x ≢ y → a ++ x ≢ a ++ y
append_ne a x y ne = λ e. ne (append_cancel_left a x y e)

pub apart_later : (a x y : String) → x ≢ y → ((a ++ x) =$ (a ++ y)) ≡ false
apart_later a x y ne = apart (a ++ x) (a ++ y) (append_ne a x y ne)
