-- ===== src/Prelude/Texts.antt =====
-- Sets and maps with texts for keys, as lists.
use Prim.Native.String.{String}
use text.Mathlib.Text.{◌==◌}
use text.Mathlib.TextEquality.{eq_iff}
use mathlib.Core.Path.{◌≡◌, refl}
use mathlib.Core.Bool.{Bool, true, false}
use mathlib.Core.Option.{Option, none, some}
use mathlib.Core.List.{List, [], ◌∷◌}
use native.Mathlib.Omega.{arith}
use shanshui_cunji.Prelude.Tests.{if◌then◌else◌}

abbrev pub same_text : String → String → Bool
same_text a b = a == b

unfoldable pub has_text : String → List String → Bool
has_text t [] = false
has_text t (s ∷ ss) = let later = has_text t ss in if s == t then true else later

abbrev pub TextMap {ℓ} : Type ℓ → Type ℓ
TextMap V = List (String × V)

module _ {ℓ} {V : Type ℓ} where
  unfoldable pub text_get : String → TextMap V → Option V
  text_get key [] = none
  text_get key ((k, v) ∷ m) = let later = text_get key m in if k == key then some v else later

  unfoldable pub text_put : String → V → TextMap V → TextMap V
  text_put key new [] = (key, new) ∷ []
  text_put key new ((k, v) ∷ m) =
      let later = text_put key new m in if k == key then (k, new) ∷ m else (k, v) ∷ later

  pub text_get-put :
      (key asked : String) (new : V) (m : TextMap V)
      → text_get asked (text_put key new m) ≡ (if key == asked then some new else text_get asked m)
  unfolding text_get text_put
  text_get-put key asked new [] = refl
  text_get-put key asked new ((k, v) ∷ m) =
      ground (arith, text_get-put key asked new m, eq_iff key asked, eq_iff k asked, eq_iff k key)
